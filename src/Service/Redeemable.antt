-- ===== src/Service/Redeemable.antt =====
-- A proof that was issued is the one that a verification finds.
use onceproof.Base.{ℕ, String, ◌≡◌, arith, true, false, some, List, ◌==◌, starts_with}
use onceproof.Errors.{ok}
use onceproof.Keyring.Payload.{Payload}
use onceproof.Keyring.Ring.{current_key, key_for}
use onceproof.Crypto.{proof_digest}
use onceproof.Service.Secrets.{new_proof}
use onceproof.Service.Inputs.{all_chars}
use onceproof.Service.SecretNames.{not_dot, proof_kid-new_proof}
use onceproof.Service.Runtime.{Library}
use onceproof.Service.Verify.{token_digest_of}

pub current_key-key_for :
    (p : Payload) (key : List ℕ) → current_key p ≡ ok key → key_for p p.current_kid ≡ some key
unfolding current_key
current_key-key_for p key h = ground arith

module _ {Text : Type 0} (lib : Library Text) where
  -- The verifier takes of a new proof the digest that the issuer took.
  pub token_digest_of-new_proof :
      (p : Payload) (token digest : String) (key : List ℕ)
      → all_chars not_dot p.current_kid ≡ true
      → starts_with p.current_kid "hk_" ≡ true
      → all_chars not_dot token ≡ true
      → (token == "") ≡ false
      → current_key p ≡ ok key
      → proof_digest lib.hashing key (new_proof p.current_kid token) ≡ ok digest
      → token_digest_of lib p (new_proof p.current_kid token) ≡ ok digest
  unfolding token_digest_of
  token_digest_of-new_proof p token digest key plain named plain' full current keyed =
      rw (proof_kid-new_proof p.current_kid token plain plain' named full)
        (rw (current_key-key_for p key current) keyed)
