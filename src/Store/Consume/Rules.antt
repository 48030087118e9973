-- ===== src/Store/Consume/Rules.antt =====
-- The parts of `consume_proof` that read one row: its results, `_result_from_json` on a document, and
-- the tests of its WHERE clauses and branches.
use onceproof.Base.{
  ℕ, String, Bool, true, false, not, ◌&&◌, ◌||◌, Option, none, some, ◌==◌, ltb, leb, eqb,
  if◌then◌else◌, is_none, is_some,
}
use onceproof.Errors.{Result, ok, err, value_error, type_error, key_error, store_corrupt}
use onceproof.Model.{VerificationResult}
use onceproof.Model.Json.{Value}
use onceproof.Model.Codec.{from_dict}
use onceproof.Store.Rows.{ProofRow}

-- The arguments of `consume_proof`.
pub record Request : Type 0 where
  pub credential_id : String
  pub client_id : String
  pub token_digest : String
  pub subject : String
  pub purpose : String
  pub audience : String
  pub request_fingerprint : String
  pub idempotency_key : Option String

-- `vr_…` and `ae_…`
pub record Draws : Type 0 where
  pub verification_id : String
  pub event_id : String

-- _rejected_result
unfoldable pub rejected_result :
    String → String → Option String → Option String → ℕ → VerificationResult
rejected_result reason verification_id proof_tag client_id now = record {
  verified = false;
  reason = some reason;
  witness = record {
    state = if reason == "already_consumed" then "replay_rejected" else "rejected";
    verification_id = verification_id;
    proof_tag = proof_tag;
    client_id = client_id;
    decided_at = now;
    reason = some reason;
  };
  claims = none;
}

-- _accepted_result
unfoldable pub accepted_result : ProofRow → String → ℕ → VerificationResult
accepted_result p verification_id now = record {
  verified = true;
  reason = none;
  witness = record {
    state = "verified_once";
    verification_id = verification_id;
    proof_tag = some p.proof_tag;
    client_id = some p.client_id;
    decided_at = now;
    reason = none;
  };
  claims = some (record {
    client_id = p.client_id;
    subject = p.subject;
    purpose = p.purpose;
    audience = p.audience;
    issued_at = p.issued_at;
    expires_at = p.expires_at;
  });
}

-- The handler of `_result_from_json`: KeyError, TypeError and ValueError become corruption.
abbrev corrupt_on_error : Result VerificationResult → Result VerificationResult
corrupt_on_error (ok r) = ok r
corrupt_on_error (err (value_error m)) = err store_corrupt
corrupt_on_error (err (key_error m)) = err store_corrupt
corrupt_on_error (err type_error) = err store_corrupt
corrupt_on_error (err e) = err e

abbrev pub decoded : Option Value → Result VerificationResult
decoded none = err store_corrupt
decoded (some v) = corrupt_on_error (from_dict v)

abbrev pub digest_is : String → ProofRow → Bool
digest_is d p = p.token_digest == d

-- WHERE token_digest = ? AND consumed_at IS NULL AND expires_at > ?
abbrev pub is_redeemable : String → ℕ → ProofRow → Bool
is_redeemable d now p = digest_is d p && is_none p.consumed_at && ltb now p.expires_at

abbrev pub mark_consumed : ℕ → String → ProofRow → ProofRow
mark_consumed now id p = record p { consumed_at = some now; consume_verification_id = some id }

abbrev pub same_as : String → Option String → Bool
same_as key none = false
same_as key (some k) = k == key

abbrev pub some_result : Result VerificationResult → Result (Option VerificationResult)
some_result (ok r) = ok (some r)
some_result (err e) = err e

-- The tests on a proof row, in their order: the reason of the first that refuses it.
unfoldable pub refusal : Request → ℕ → ProofRow → Option String
refusal q now p =
    if is_some p.consumed_at
    then some "already_consumed"
    else if leb p.expires_at now
    then some "expired"
    else if not (p.purpose == q.purpose)
        || not (p.audience == q.audience)
        || not (p.subject == q.subject)
    then some "binding_mismatch"
    else none

-- The result of the UPDATE, by its row count.
unfoldable pub redeemed : Request → ℕ → String → ProofRow → ℕ → VerificationResult
unfolding accepted_result rejected_result
redeemed q now id p rows =
    if eqb rows 1
    then accepted_result p id now
    else rejected_result "already_consumed" id (some p.proof_tag) (some q.client_id) now

-- `row if row is not None and row["client_id"] == client_id else None`
abbrev pub owned : String → Option ProofRow → Option ProofRow
owned client_id none = none
owned client_id (some p) = if p.client_id == client_id then some p else none
