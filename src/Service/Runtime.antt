-- ===== src/Service/Runtime.antt =====
-- The state of `class OnceproofService` and its private methods `_authenticate` and `_maybe_cleanup`
-- (src/onceproof/service.py).
use onceproof.Base.{
  ℕ, ◌+◌, String, Bool, true, false, not, ◌&&◌, ◌||◌, Option, none, some, List, ◌==◌, ltb,
  if◌then◌else◌, is_some,
}
use onceproof.Errors.{Error, Result, ok, map_ok}
use onceproof.Model.Json.{Value, text, Codec}
use onceproof.Store.Tx.{Tx, ◌>>=◌, modify, pure, raise, lift}
use onceproof.Store.Rows.{Role, same_role, is_current, is_previous, Database, CredentialRecord}
use onceproof.Store.Shared.{before_end}
use onceproof.Store.Clients.{credential}
use onceproof.Store.Maintenance.{cleanup, default_retention}
use onceproof.Keyring.Payload.{Base64, Payload}
use onceproof.Keyring.Ring.{World, key_for}
use onceproof.Crypto.{Hashing, credential_digest}
use onceproof.Service.Secrets.{credential_id_from_secret}

-- The modules that the service calls: `json`, `base64`, the digests, and the compact `json.dumps`
-- of a fingerprint.
pub record Library (Text : Type 0) : Type 0 where
  pub json : Codec Text
  pub base64 : Base64
  pub hashing : Hashing
  pub canonical : Value → List ℕ

-- The fields `store`, `keyring` and `_next_cleanup_at`.
pub record Runtime (Text : Type 0) : Type 0 where
  pub database : Database Text
  pub ring : World Text
  pub next_cleanup_at : ℕ

module _ {S A : Type 0} where
  -- A computation that reads no state.
  abbrev pub returning : Result A → Tx S A
  returning r = lift (λ s. r)

  abbrev pub required : Error → Option A → Tx S A
  required e none = raise e
  required e (some a) = pure a

-- The tests of `_authenticate` on the status of a record.
abbrev pub record_is_accepted : CredentialRecord → ℕ → Bool
record_is_accepted r now =
    if is_current r.status then true else is_previous r.status && before_end now r.valid_until

module _ {Text : Type 0} where
  -- A call of the store, and one of the keyring.
  unfoldable pub on_database : {A : Type 0} → Tx (Database Text) A → Tx (Runtime Text) A
  on_database m w = ((m w.database).0, record w { database = (m w.database).1 })

  unfoldable pub on_ring : {A : Type 0} → Tx (World Text) A → Tx (Runtime Text) A
  on_ring m w = ((m w.ring).0, record w { ring = (m w.ring).1 })

module _ {Text : Type 0} (lib : Library Text) where
  abbrev pub authenticate_digest :
      CredentialRecord → String → ℕ → Option (List ℕ) → Result (Option CredentialRecord)
  authenticate_digest r secret now none = ok none
  authenticate_digest r secret now (some key) =
      map_ok
        (λ digest.
          if not (r.secret_digest == digest)
          then none
          else if record_is_accepted r now
          then some r
          else none)
        (credential_digest lib.hashing key secret)

  abbrev pub authenticate_record :
      Payload → String → Role → ℕ → Option CredentialRecord → Result (Option CredentialRecord)
  authenticate_record p secret role now none = ok none
  authenticate_record p secret role now (some r) =
      let checked = authenticate_digest r secret now (key_for p r.hash_kid) in
      if not (same_role r.role role) then ok none else checked

  abbrev pub authenticate_id :
      Payload → String → Role → ℕ → Database Text → Option String → Result (Option CredentialRecord)
  authenticate_id p secret role now db none = ok none
  authenticate_id p secret role now db (some id) =
      authenticate_record p secret role now (credential id db)

  -- OnceproofService._authenticate
  unfoldable pub authenticate : Value → Role → ℕ → Runtime Text → Result (Option CredentialRecord)
  unfolding credential credential_id_from_secret credential_digest key_for
  authenticate (text secret) role now w =
      authenticate_id w.ring.memory secret role now w.database
        (credential_id_from_secret secret role)
  authenticate _ role now w = ok none

  abbrev role_of : String → Option Role
  role_of role =
      if role == "issuance"
      then some Role.issuance
      else if role == "verification"
      then some Role.verification
      else none

  abbrev accepted_as : Value → ℕ → Runtime Text → Option Role → Result Bool
  accepted_as secret now w none = ok false
  accepted_as secret now w (some role) = map_ok is_some (authenticate secret role now w)

  -- OnceproofService.credential_is_accepted
  unfoldable pub credential_is_accepted : Value → String → ℕ → Runtime Text → Result Bool
  unfolding authenticate
  credential_is_accepted secret role now w = accepted_as secret now w (role_of role)

-- _CLEANUP_INTERVAL_SECONDS
abbrev pub cleanup_interval : ℕ
cleanup_interval = 300

module _ {Text : Type 0} where
  abbrev pub cleanup_due : ℕ → Tx (Runtime Text) (Unit {0})
  cleanup_due now = do
    removed ← on_database (cleanup now default_retention)
    modify (λ w. record w { next_cleanup_at = now + cleanup_interval })

  -- OnceproofService._maybe_cleanup; the flag says whether the maintenance lock was free.
  unfoldable pub maybe_cleanup : ℕ → Bool → Tx (Runtime Text) (Unit {0})
  unfolding on_database ◌>>=◌
  maybe_cleanup now lock_is_free w =
      let due = cleanup_due now w in
      if ltb now w.next_cleanup_at || not lock_is_free then pure tt w else due
