-- ===== src/Service/Keys.antt =====
-- No retirement takes a root key from a credential or a proof of the ledger.
use onceproof.Base.{
  String, ◌≡◌, refl, ◌∙◌, Bool, false, List, [], ◌∷◌, ◌==◌, arith, any, All, All-map,
}
use onceproof.Errors.{ok}
use onceproof.Model.Json.{Codec}
use onceproof.Store.Rows.{CredentialRow, ProofRow, Database}
use onceproof.Store.Maintenance.{hash_key_is_in_use}
use onceproof.Keyring.Payload.{Base64, Payload, serialized_payload}
use onceproof.Keyring.Ring.{Replacement, World, without_key, key_for}
use onceproof.Keyring.InStep.{retire-IsInStep}
use onceproof.Keyring.Lookup.{without_key-IsWithout}
use onceproof.Service.{retire_hash_key}

key_for-without_key :
    (p : Payload) (kid other : String)
    → (other == kid) ≡ false
    → key_for (without_key p kid) other ≡ key_for p other
key_for-without_key p kid other h = (without_key-IsWithout kid p).lookup other ∙ rw h refl

none_has {ℓ} :
    {A : Type ℓ} (p : A → Bool) (xs : List A) → any p xs ≡ false → All (λ x. p x ≡ false) xs
unfolding any
none_has p [] h = tt
none_has p (x ∷ xs) h = (ground arith, none_has p xs (ground arith))

-- When `retire_hash_key` returns, the keys that it wrote still give every credential and every proof
-- of the ledger the root key that they had.
pub retire_hash_key-key_for :
    {Text : Type 0} (json : Codec Text) (b64 : Base64) (db : Database Text) (kid : String)
    (outcome : Replacement) (w w' : World Text)
    → retire_hash_key json b64 db kid outcome w ≡ (ok tt, w')
    → (w'.file ≡ json.dumps (serialized_payload b64 (without_key w.memory kid)))
      × All
          (λ c. key_for (without_key w.memory kid) c.hash_kid ≡ key_for w.memory c.hash_kid)
          db.credentials
      × All
          (λ p. key_for (without_key w.memory kid) p.hash_kid ≡ key_for w.memory p.hash_kid)
          db.proofs
unfolding retire_hash_key hash_key_is_in_use
retire_hash_key-key_for json b64 db kid outcome w w' h =
    let (_, _, unused, file, _, _, _) = retire-IsInStep json b64 kid _ outcome w w' h in
    let no_credential : any (λ (c : CredentialRow). c.hash_kid == kid) db.credentials ≡ false =
      ground arith in
    let no_proof : any (λ (p : ProofRow). p.hash_kid == kid) db.proofs ≡ false = ground arith in
    (
      file,
      All-map _ _ (λ (c : CredentialRow). key_for-without_key w.memory kid c.hash_kid)
          db.credentials (none_has _ db.credentials no_credential),
      All-map _ _ (λ (p : ProofRow). key_for-without_key w.memory kid p.hash_kid) db.proofs
          (none_has _ db.proofs no_proof),
    )
