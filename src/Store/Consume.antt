-- ===== src/Store/Consume.antt =====
-- `Store.consume_proof` and `Store.cached_verification`. `now` is what the clock returns inside the
-- transaction, and `Draws` holds the random identifiers of the call.
mod Rules
unfoldable pub use Rules.*
use onceproof.Base.{
  ℕ, String, Bool, true, false, not, ◌&&◌, ◌||◌, Option, none, some, ◌==◌, ltb, leb, eqb,
  if◌then◌else◌, find, update, count, is_none, is_some,
}
use onceproof.Errors.{Result, ok, err, value_error, type_error, key_error, store_corrupt}
use onceproof.Model.{VerificationResult}
use onceproof.Model.Json.{Value, Codec}
use onceproof.Model.Codec.{to_dict, from_dict}
use onceproof.Store.Tx.{Tx, ◌>>=◌, ◌>>◌, gets, pure, lift, write}
use onceproof.Store.Rows.{verification, verify, ProofRow, VerificationRow, Database}
use onceproof.Store.Tables.{insert_verification_row, insert_audit}
use onceproof.Store.Shared.{require_operational, Joined, join, joined_is_accepted}
use onceproof.Store.Rate.{consume_rate_slot}

module _ {Text : Type 0} where
  -- _result_from_json
  unfoldable pub result_from_json : Codec Text → Text → Result VerificationResult
  result_from_json json t = decoded (json.loads t)

  abbrev pub key_matches : String → String → VerificationRow Text → Bool
  key_matches client_id key v = v.client_id == client_id && same_as key v.idempotency_key

  abbrev replayed :
      Codec Text → String → Option (VerificationRow Text) → Result (Option VerificationResult)
  replayed json fingerprint none = ok none
  replayed json fingerprint (some v) =
      if v.request_fingerprint == fingerprint
      then some_result (result_from_json json v.result_json)
      else err (value_error "idempotency_conflict")

  -- Store._idempotent_result
  unfoldable pub idempotent_result :
      Codec Text
      → String
      → Option String
      → String
      → Database Text
      → Result (Option VerificationResult)
  idempotent_result json client_id none fingerprint db = ok none
  idempotent_result json client_id (some key) fingerprint db =
      replayed json fingerprint (find (key_matches client_id key) db.verifications)

  -- The UPDATE that consumes a proof, and its row count.
  unfoldable pub redeem : String → ℕ → String → Tx (Database Text) ℕ
  redeem d now id db = (
    ok (count (is_redeemable d now) db.proofs),
    record db { proofs = update (is_redeemable d now) (mark_consumed now id) db.proofs },
  )

  abbrev pub decide_on :
      Request → ℕ → String → ProofRow → Option String → Tx (Database Text) VerificationResult
  decide_on q now id p (some reason) =
      pure (rejected_result reason id (some p.proof_tag) (some q.client_id) now)
  decide_on q now id p none = do
    rows ← redeem q.token_digest now id
    pure (redeemed q now id p rows)

  -- The decision on the row that was found for the request's digest and client.
  unfoldable pub decide :
      Request → ℕ → String → Option ProofRow → Tx (Database Text) VerificationResult
  decide q now id none = pure (rejected_result "invalid" id none (some q.client_id) now)
  decide q now id (some p) = decide_on q now id p (refusal q now p)

  abbrev pub verification_row : Codec Text → Request → VerificationResult → ℕ → VerificationRow Text
  verification_row json q result now = record {
    verification_id = result.witness.verification_id;
    client_id = q.client_id;
    credential_id = q.credential_id;
    proof_tag = result.witness.proof_tag;
    request_fingerprint = q.request_fingerprint;
    idempotency_key = q.idempotency_key;
    result_json = json.dumps (to_dict result);
    created_at = now;
  }

  -- _insert_verification and _insert_audit, for a decision.
  unfoldable pub record_decision :
      Codec Text → Request → VerificationResult → ℕ → String → Tx (Database Text) (Unit {0})
  record_decision json q result now event_id = do
    insert_verification_row (verification_row json q result now)
    insert_audit (record {
      event_id = event_id;
      created_at = now;
      kind = if result.verified then "proof_verified" else "proof_rejected";
      client_id = some q.client_id;
      credential_id = some q.credential_id;
      proof_tag = result.witness.proof_tag;
      outcome = if result.verified then "verified" else "rejected";
      reason = result.reason;
    })

  -- A new decision: the rate slot, the row, the decision and its record.
  unfoldable pub consume_new :
      Codec Text → Joined Text → Request → ℕ → Draws → Tx (Database Text) VerificationResult
  consume_new json joined q now draws = do
    consume_rate_slot q.client_id verify joined.client.verify_limit_per_minute now
    row ← gets (λ db. owned q.client_id (find (digest_is q.token_digest) db.proofs))
    result ← decide q now draws.verification_id row
    record_decision json q result now draws.event_id
    pure result

  -- What follows `_idempotent_result`.
  unfoldable pub consume_uncached :
      Codec Text
      → Joined Text
      → Request
      → ℕ
      → Draws
      → Option VerificationResult
      → Tx (Database Text) VerificationResult
  consume_uncached json joined q now draws (some r) = pure r
  consume_uncached json joined q now draws none = consume_new json joined q now draws

  -- The joined row, when it passes every test on the credential.
  abbrev pub accepted_join : String → ℕ → Option (Joined Text) → Option (Joined Text)
  accepted_join client_id now none = none
  accepted_join client_id now (some j) = if joined_is_accepted j client_id now then some j else none

  unfoldable pub consume_checked :
      Codec Text
      → Request
      → ℕ
      → Draws
      → Option (Joined Text)
      → Tx (Database Text) VerificationResult
  consume_checked json q now draws none =
      pure (rejected_result "credential_rejected" draws.verification_id none none now)
  consume_checked json q now draws (some joined) = do
    cached ← lift (idempotent_result json q.client_id q.idempotency_key q.request_fingerprint)
    consume_uncached json joined q now draws cached

  -- Store.consume_proof
  unfoldable pub consume_proof :
      Codec Text → Request → ℕ → Draws → Tx (Database Text) VerificationResult
  consume_proof json q now draws = write (do
    require_operational
    joined ← gets (λ db. join q.credential_id verification db.clients db.credentials)
    consume_checked json q now draws (accepted_join q.client_id now joined))

  abbrev pub cached_for :
      Codec Text
      → Request
      → ℕ
      → Option (Joined Text)
      → Tx (Database Text) (Option VerificationResult)
  cached_for json q now none = pure none
  cached_for json q now (some joined) =
      lift (idempotent_result json q.client_id q.idempotency_key q.request_fingerprint)

  -- The read transaction of Store.cached_verification, for a request that has a key.
  abbrev pub cached_read : Codec Text → Request → ℕ → Tx (Database Text) (Option VerificationResult)
  cached_read json q now = do
    require_operational
    joined ← gets (λ db. join q.credential_id verification db.clients db.credentials)
    cached_for json q now (accepted_join q.client_id now joined)

  -- Store.cached_verification
  unfoldable pub cached_verification :
      Codec Text → Request → ℕ → Tx (Database Text) (Option VerificationResult)
  cached_verification json q now =
      let read = cached_read json q now in if is_none q.idempotency_key then pure none else read
