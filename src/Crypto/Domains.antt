-- ===== src/Crypto/Domains.antt =====
-- The digests of a credential and of a proof under one root key are derived by different messages.
use onceproof.Base.{
  ℕ, String, ◌≡◌, ◌≢◌, refl, sym, ◌∙◌, true, false, ◌⊎◌, inl, inr, List, [], ◌∷◌, ◌++◌, arith,
  Bool-cases,
}
use onceproof.Errors.{ok}
use onceproof.Keyring.Ring.{same_bytes}
use onceproof.Crypto.{Hashing, ascii, hkdf_salt, hkdf_sha256, credential_digest, proof_digest}

pub same_bytes_sound : (a b : List ℕ) → same_bytes a b ≡ true → a ≡ b
unfolding same_bytes
same_bytes_sound [] [] h = refl
same_bytes_sound [] (b ∷ bs) h = absurd (ground arith)
same_bytes_sound (a ∷ as') [] h = absurd (ground arith)
same_bytes_sound (a ∷ as') (b ∷ bs) h = ground (arith, same_bytes_sound as' bs)

same_bytes_self : (a : List ℕ) → same_bytes a a ≡ true
unfolding same_bytes
same_bytes_self [] = refl
same_bytes_self (a ∷ as') = ground (arith, same_bytes_self as')

pub same_bytes-differ : (a b : List ℕ) → same_bytes a b ≡ false → a ≢ b
same_bytes-differ a b h e = absurd (ground (arith, same_bytes_self a))

-- The message that a purpose derives its key from.
abbrev pub info_block : String → List ℕ
info_block info = ascii info ++ (1 ∷ [])

module _ (h : Hashing) (root : List ℕ) where
  -- The key that is derived of the root key for a purpose.
  abbrev pub derived_key : String → List ℕ
  derived_key info = h.digest (h.digest hkdf_salt root) (info_block info)

  credential_digest-value :
      (s d : String)
      → credential_digest h root s ≡ ok d
      → h.hexdigest (derived_key "credential-digest") (h.encode s) ≡ d
  unfolding credential_digest hkdf_sha256
  credential_digest-value s d e = ground arith

  proof_digest-value :
      (s d : String)
      → proof_digest h root s ≡ ok d
      → h.hexdigest (derived_key "proof-digest") (h.encode s) ≡ d
  unfolding proof_digest hkdf_sha256
  proof_digest-value s d e = ground arith

  other_info : info_block "credential-digest" ≢ info_block "proof-digest"
  unfolding same_bytes
  other_info = same_bytes-differ _ _ refl

  -- Where a credential and a proof have one digest under one root key, HMAC-SHA256 collides in one of
  -- the steps that took them: it has one image, under the extracted key, of the two texts that tell
  -- the derived keys apart, which differ; or the derived keys differ, and it has one image of the
  -- credential under the first and of the proof under the second.
  pub credential_digest-proof_digest :
      (credential proof d : String)
      → credential_digest h root credential ≡ ok d
      → proof_digest h root proof ≡ ok d
      → ((info_block "credential-digest" ≢ info_block "proof-digest")
          × (derived_key "credential-digest" ≡ derived_key "proof-digest"))
        ⊎ ((derived_key "credential-digest" ≢ derived_key "proof-digest")
            × (h.hexdigest (derived_key "credential-digest") (h.encode credential)
                ≡ h.hexdigest (derived_key "proof-digest") (h.encode proof)))
  credential_digest-proof_digest credential proof d c p =
      let one = derived_key "credential-digest" in
      let two = derived_key "proof-digest" in
      elim (Bool-cases (same_bytes one two)) [
        | inl same ↦ inl (other_info, same_bytes_sound one two same)
        | inr different ↦ inr (
          same_bytes-differ one two different,
          credential_digest-value credential d c ∙ sym (proof_digest-value proof d p),
        )
      ]
