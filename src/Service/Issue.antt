-- ===== src/Service/Issue.antt =====
-- `OnceproofService.issue_proof` of src/onceproof/service.py.
use Prim.Native.String.{◌++◌}
use onceproof.Base.{
  ℕ, zero, suc, ◌+◌, String, Bool, not, ◌&&◌, Option, none, some, leb, if◌then◌else◌,
}
use onceproof.Base.Int.{pos}
use onceproof.Errors.{Result, ok, err, value_error, permission_error}
use onceproof.Model.{IssuedProof}
use onceproof.Model.Json.{Value, int, null, contains}
use onceproof.Store.Tx.{Tx, ◌>>=◌, ◌>>◌, gets, pure, raise_when, lift}
use onceproof.Store.Rows.{issuance, is_active, ClientRecord, CredentialRecord, ProofRecord}
use onceproof.Store.Clients.{client}
use onceproof.Store.Issue as Ledger
use onceproof.Keyring.Ring.{current_key}
use onceproof.Crypto.{proof_digest, key_check}
use onceproof.Service.Secrets.{new_proof}
use onceproof.Service.Inputs.{checked_text, checked_purpose, checked_audience}
use onceproof.Service.Runtime.{
  Library, Runtime, returning, required, on_database, authenticate, maybe_cleanup,
}

-- The arguments of the call.
pub record IssueArguments : Type 0 where
  pub issuance_secret : Value
  pub subject : Value
  pub purpose : Value
  pub audience : Value
  pub ttl_seconds : Value

-- What the call reads of the clock, first and in the transaction, whether the maintenance lock was
-- free, and what it draws.
pub record IssueDraws : Type 0 where
  pub now : ℕ
  pub commit_time : ℕ
  pub lock_is_free : Bool
  pub token : String
  pub event_id : String

pub record AcceptedInput : Type 0 where
  pub subject : String
  pub purpose : String
  pub audience : String

-- The first characters of a text.
unfoldable pub take_chars : ℕ → String → String
take_chars zero s = ""
take_chars (suc n) String.[] = ""
take_chars (suc n) (String.◌∷◌ c s) = String.◌∷◌ c (take_chars n s)

-- An int, not a bool, from 1 to a bound.
abbrev pub int_to : ℕ → Value → Option ℕ
int_to maximum (int (pos n)) = if leb 1 n && leb n maximum then some n else none
int_to maximum _ = none

-- client.proof_ttl_seconds if ttl_seconds is None else ttl_seconds, checked
abbrev pub checked_ttl : ℕ → Value → Result ℕ
checked_ttl maximum null =
    if leb 1 maximum then ok maximum else err (value_error "invalid_ttl_seconds")
checked_ttl maximum value = or_invalid (int_to maximum value)
  where
    or_invalid : Option ℕ → Result ℕ
    or_invalid none = err (value_error "invalid_ttl_seconds")
    or_invalid (some n) = ok n

abbrev pub or_rejected : Option (Result ClientRecord) → Result ClientRecord
or_rejected none = err (permission_error "credential_rejected")
or_rejected (some r) = r

abbrev pub proof_record : CredentialRecord → AcceptedInput → String → String → ℕ → ℕ → ProofRecord
proof_record credential input kid token_digest now ttl = record {
  token_digest = token_digest;
  proof_tag = "pf_" ++ take_chars 24 token_digest;
  hash_kid = kid;
  client_id = credential.client_id;
  issue_credential_id = credential.credential_id;
  subject = input.subject;
  purpose = input.purpose;
  audience = input.audience;
  issued_at = now;
  expires_at = now + ttl;
  consumed_at = none;
}

abbrev pub issued_proof : String → ProofRecord → IssuedProof
issued_proof proof committed = record {
  proof = proof;
  receipt = record {
    state = "issued";
    proof_tag = committed.proof_tag;
    client_id = committed.client_id;
    subject = committed.subject;
    purpose = committed.purpose;
    audience = committed.audience;
    issued_at = committed.issued_at;
    expires_at = committed.expires_at;
  };
}

module _ {Text : Type 0} where
  unfoldable pub accepted_input : IssueArguments → Tx (Runtime Text) AcceptedInput
  unfolding checked_text checked_purpose checked_audience
  accepted_input args = do
    subject ← returning (checked_text args.subject "subject" 256)
    purpose ← returning (checked_purpose args.purpose)
    audience ← returning (checked_audience args.audience)
    pure (record { subject = subject; purpose = purpose; audience = audience })

module _ {Text : Type 0} (lib : Library Text) where
  -- From the current key on.
  unfoldable pub issue_to :
      CredentialRecord → AcceptedInput → ℕ → IssueDraws → Tx (Runtime Text) IssuedProof
  unfolding on_database new_proof take_chars current_key proof_digest key_check
  issue_to credential input ttl draws = do
    key ← lift (λ w. current_key w.ring.memory)
    kid ← gets (λ w. w.ring.memory.current_kid)
    let proof = new_proof kid draws.token
    token_digest ← returning (proof_digest lib.hashing key proof)
    check ← returning (key_check lib.hashing key)
    committed ← on_database (
        Ledger.issue_proof (proof_record credential input kid token_digest draws.now ttl) check
          draws.commit_time draws.event_id)
    pure (issued_proof proof committed)

  -- What follows the authentication.
  unfoldable pub issue_for :
      CredentialRecord → AcceptedInput → Value → IssueDraws → Tx (Runtime Text) IssuedProof
  issue_for credential input ttl_seconds draws = do
    client ← lift (λ w. or_rejected (client lib.json credential.client_id w.database))
    raise_when (not (is_active client.status)) (permission_error "credential_rejected")
    raise_when (not (contains input.audience client.allowed_audiences))
        (value_error "audience_not_allowed")
    ttl ← returning (checked_ttl client.proof_ttl_seconds ttl_seconds)
    issue_to credential input ttl draws

  -- OnceproofService.issue_proof
  unfoldable pub issue_proof : IssueArguments → IssueDraws → Tx (Runtime Text) IssuedProof
  issue_proof args draws = do
    input ← accepted_input args
    maybe_cleanup draws.now draws.lock_is_free
    found ← lift (authenticate lib args.issuance_secret issuance draws.now)
    credential ← required (permission_error "credential_rejected") found
    issue_for credential input args.ttl_seconds draws
