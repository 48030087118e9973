-- ===== src/Service/Verify.antt =====
-- `OnceproofService.verify_proof` of src/onceproof/service.py.
use onceproof.Base.{ℕ, String, Bool, Option, none, some, List}
use onceproof.Errors.{Result, ok}
use onceproof.Model.{VerificationResult}
use onceproof.Model.Json.{Value}
use onceproof.Store.Tx.{Tx, ◌>>=◌, ◌>>◌, pure, lift}
use onceproof.Store.Rows.{verification, CredentialRecord}
use onceproof.Store.Consume.{Request, Draws, rejected_result, cached_verification, consume_proof}
use onceproof.Keyring.Payload.{Payload}
use onceproof.Keyring.Ring.{key_for}
use onceproof.Crypto.{proof_digest}
use onceproof.Service.Secrets.{proof_kid}
use onceproof.Service.Inputs.{
  checked_text, checked_purpose, checked_audience, checked_idempotency_key, request_fingerprint,
}
use onceproof.Service.Runtime.{
  Library, Runtime, returning, on_database, authenticate, maybe_cleanup,
}

-- The arguments of the call.
pub record VerifyArguments : Type 0 where
  pub verification_secret : Value
  pub proof : Value
  pub purpose : Value
  pub audience : Value
  pub subject : Value
  pub idempotency_key : Value

-- What the call reads of the clock, first and in its two transactions, whether the maintenance lock
-- was free, the identifier of a rejection and what `consume_proof` draws.
pub record VerifyDraws : Type 0 where
  pub now : ℕ
  pub read_time : ℕ
  pub commit_time : ℕ
  pub lock_is_free : Bool
  pub rejection_id : String
  pub store : Draws

-- The arguments that passed their checks.
pub record AcceptedRequest : Type 0 where
  pub proof : String
  pub subject : String
  pub purpose : String
  pub audience : String
  pub idempotency_key : Option String

module _ {Text : Type 0} where
  unfoldable pub accepted_request : VerifyArguments → Tx (Runtime Text) AcceptedRequest
  unfolding checked_text checked_purpose checked_audience checked_idempotency_key
  accepted_request args = do
    proof ← returning (checked_text args.proof "proof" 512)
    subject ← returning (checked_text args.subject "subject" 256)
    purpose ← returning (checked_purpose args.purpose)
    audience ← returning (checked_audience args.audience)
    key ← returning (checked_idempotency_key args.idempotency_key)
    pure (record {
      proof = proof;
      subject = subject;
      purpose = purpose;
      audience = audience;
      idempotency_key = key;
    })

module _ {Text : Type 0} (lib : Library Text) where
  -- `self.keyring.key_for(kid) if kid is not None else None`
  abbrev pub proof_key : Payload → Option String → Option (List ℕ)
  proof_key p none = none
  proof_key p (some kid) = key_for p kid

  abbrev pub digest_with : String → Option (List ℕ) → Result String
  digest_with proof none = ok (lib.hashing.sha256 (lib.hashing.encode proof))
  digest_with proof (some key) = proof_digest lib.hashing key proof

  -- The digest by which the ledger knows a proof.
  unfoldable pub token_digest_of : Payload → String → Result String
  unfolding key_for proof_kid proof_digest
  token_digest_of p proof = digest_with proof (proof_key p (proof_kid proof))

  abbrev pub store_request : CredentialRecord → AcceptedRequest → String → Request
  store_request credential input token_digest = record {
    credential_id = credential.credential_id;
    client_id = credential.client_id;
    token_digest = token_digest;
    subject = input.subject;
    purpose = input.purpose;
    audience = input.audience;
    request_fingerprint =
        request_fingerprint lib.hashing lib.canonical input.proof input.subject input.purpose
          input.audience;
    idempotency_key = input.idempotency_key;
  }

  abbrev pub unless_cached :
      Request → VerifyDraws → Option VerificationResult → Tx (Runtime Text) VerificationResult
  unless_cached q draws (some cached) = pure cached
  unless_cached q draws none = on_database (consume_proof lib.json q draws.commit_time draws.store)

  -- The two calls of the store.
  unfoldable pub verify_request : Request → VerifyDraws → Tx (Runtime Text) VerificationResult
  unfolding on_database
  verify_request q draws = do
    cached ← on_database (cached_verification lib.json q draws.read_time)
    unless_cached q draws cached

  -- What follows the authentication.
  unfoldable pub verify_as :
      Option CredentialRecord → AcceptedRequest → VerifyDraws → Tx (Runtime Text) VerificationResult
  unfolding request_fingerprint
  verify_as none input draws =
      pure (rejected_result "credential_rejected" draws.rejection_id none none draws.now)
  verify_as (some credential) input draws = do
    token_digest ← lift (λ w. token_digest_of w.ring.memory input.proof)
    verify_request (store_request credential input token_digest) draws

  -- OnceproofService.verify_proof
  unfoldable pub verify_proof : VerifyArguments → VerifyDraws → Tx (Runtime Text) VerificationResult
  verify_proof args draws = do
    input ← accepted_request args
    maybe_cleanup draws.now draws.lock_is_free
    credential ← lift (authenticate lib args.verification_secret verification draws.now)
    verify_as credential input draws
