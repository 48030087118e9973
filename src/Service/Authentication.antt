-- ===== src/Service/Authentication.antt =====
-- Whom `_authenticate` accepts.
use onceproof.Base.{
  ℕ, String, ◌≡◌, ◌↔◌, refl, sym, true, not, Option, none, some, List, ◌==◌, arith, eq_self,
  eq_sound, if◌then◌else◌,
}
use onceproof.Errors.{Result, ok, err, map_ok}
use onceproof.Model.Json.{Value}
use onceproof.Store.Rows.{Role, same_role, CredentialRecord}
use onceproof.Store.Clients.{credential}
use onceproof.Keyring.Payload.{Payload}
use onceproof.Keyring.Ring.{key_for}
use onceproof.Crypto.{credential_digest}
use onceproof.Service.Secrets.{credential_id_from_secret}
use onceproof.Service.Runtime.{
  Library, Runtime, record_is_accepted, authenticate, authenticate_digest, authenticate_record,
  authenticate_id,
}

module _ {Text : Type 0} (lib : Library Text) (secret : String) (role : Role) (now : ℕ) where
  -- The secret is that of the credential: its text names the credential of the role, the ledger has
  -- it with the digest of the secret under the root key of the ring, and it is current, or previous
  -- and in its grace.
  pub record Authenticates (w : Runtime Text) (r : CredentialRecord) : Type 0 where
    pub id : String
    pub key : List ℕ
    pub names : credential_id_from_secret secret role ≡ some id
    pub stored : credential id w.database ≡ some r
    pub has_role : same_role r.role role ≡ true
    pub held : key_for w.ring.memory r.hash_kid ≡ some key
    pub digest : credential_digest lib.hashing key secret ≡ ok r.secret_digest
    pub accepted : record_is_accepted r now ≡ true

  digest-steps :
      (r found : CredentialRecord) (d : Result String)
      → map_ok
          (λ digest.
            if not (r.secret_digest == digest)
            then none
            else if record_is_accepted r now
            then some r
            else none)
          d
        ≡ ok (some found)
      → (found ≡ r) × (d ≡ ok r.secret_digest) × (record_is_accepted r now ≡ true)
  digest-steps r found (ok d) h =
      let same = eq_sound r.secret_digest d in (ground arith, ground (arith, same), ground arith)
  digest-steps r found (err e) h = absurd (ground arith)

  key-steps :
      (r found : CredentialRecord) (o : Option (List ℕ))
      → authenticate_digest lib r secret now o ≡ ok (some found)
      → (key : List ℕ) × (o ≡ some key)
        × (found ≡ r)
        × (credential_digest lib.hashing key secret ≡ ok r.secret_digest)
        × (record_is_accepted r now ≡ true)
  key-steps r found none h = absurd (ground arith)
  key-steps r found (some key) h =
      let (same, digest, accepted) =
        digest-steps r found (credential_digest lib.hashing key secret) h in
      (key, refl, same, digest, accepted)

  role-steps :
      (p : Payload) (o : Option CredentialRecord) (found : CredentialRecord)
      → authenticate_record lib p secret role now o ≡ ok (some found)
      → (o ≡ some found)
        × (same_role found.role role ≡ true)
        × (key : List ℕ) × (key_for p found.hash_kid ≡ some key)
        × (credential_digest lib.hashing key secret ≡ ok found.secret_digest)
        × (record_is_accepted found now ≡ true)
  role-steps p none found h = absurd (ground arith)
  role-steps p (some r) found h =
      let checked : authenticate_digest lib r secret now (key_for p r.hash_kid) ≡ ok (some found) =
        ground arith in
      let (key, held, same, digest, accepted) = key-steps r found (key_for p r.hash_kid) checked in
      rw same (refl, ground arith, key, held, digest, accepted)

  id-steps :
      (w : Runtime Text) (o : Option String) (found : CredentialRecord)
      → o ≡ credential_id_from_secret secret role
      → authenticate_id lib w.ring.memory secret role now w.database o ≡ ok (some found)
      → Authenticates w found
  id-steps w none found e h = absurd (ground arith)
  id-steps w (some id) found e h =
      let (stored, same, key, held, digest, accepted) =
        role-steps w.ring.memory (credential id w.database) found h in
      record {
        id = id;
        key = key;
        names = sym e;
        stored = stored;
        has_role = same;
        held = held;
        digest = digest;
        accepted = accepted;
      }

  pub authenticate_found :
      (w : Runtime Text) (r : CredentialRecord)
      → Authenticates w r
      → authenticate lib (Value.text secret) role now w ≡ ok (some r)
  unfolding authenticate
  authenticate_found w r a = rw a.names (
      rw a.stored (
        rw a.has_role
          (rw a.held (rw a.digest (rw (eq_self r.secret_digest) (rw a.accepted refl))))))

  -- `_authenticate` returns a record exactly when the secret is that of the credential: the text
  -- names the credential, the ledger has it in the role, the digest of the secret under the root
  -- key of the ring is the one that is stored, and it is current, or previous and in its grace.
  pub authenticate-Authenticates :
      (w : Runtime Text) (r : CredentialRecord)
      → (authenticate lib (Value.text secret) role now w ≡ ok (some r)) ↔ Authenticates w r
  unfolding authenticate
  authenticate-Authenticates w r =
      (id-steps w (credential_id_from_secret secret role) r refl, authenticate_found w r)
