-- ===== src/Service/Upkeep.antt =====
-- `rotate_credential`, `revoke_client`, `cleanup`, `activate_restored_backup` of
-- `class OnceproofService` (src/onceproof/service.py).
use onceproof.Base.{ℕ, String, Bool, Option, none, some, ◌==◌, leb, if◌then◌else◌}
use onceproof.Base.Int.{pos}
use onceproof.Errors.{Result, ok, err, value_error}
use onceproof.Model.Json.{Value, int}
use onceproof.Store.Tx.{Tx, ◌>>=◌, ◌>>◌, gets, pure}
use onceproof.Store.Rows.{Role, issuance, verification}
use onceproof.Store.Clients as Ledger
use onceproof.Store.Maintenance as Retained
use onceproof.Store.Maintenance.{Removed, default_retention}
use onceproof.Keyring.Ring.{current_key, require_generation}
use onceproof.Crypto.{key_check}
use onceproof.Service.Secrets.{CredentialDraw, new_credential}
use onceproof.Service.Inputs.{checked_text}
use onceproof.Service.Runtime.{Library, Runtime, returning, on_database, on_ring}
use onceproof.Service.Clients.{Sink, hand_over}

-- The records of src/onceproof/model.py that a caller of a rotation is given.
pub record PreparedCredential : Type 0 where
  pub client_id : String
  pub credential_id : String
  pub role : Role
  pub secret : String

pub record RotatedCredential : Type 0 where
  pub client_id : String
  pub credential_id : String
  pub role : Role
  pub secret : String
  pub previous_credential_id : String
  pub previous_valid_until : ℕ

-- The checks on grace_seconds.
abbrev pub checked_grace : Value → Result ℕ
checked_grace (int (pos n)) =
    if leb n 86400 then ok n else err (value_error "invalid_grace_seconds")
checked_grace _ = err (value_error "invalid_grace_seconds")

abbrev role_of : String → Result Role
role_of role =
    if role == "issuance"
    then ok issuance
    else if role == "verification"
    then ok verification
    else err (value_error "invalid_role")

-- What a rotation reads of the clock and draws.
pub record RotationDraws : Type 0 where
  pub now : ℕ
  pub credential : CredentialDraw
  pub event_id : String

pub record RotationArguments : Type 0 where
  pub client_id : Value
  pub role : String
  pub grace_seconds : Value

module _ {Text : Type 0} (lib : Library Text) where
  -- The part of `rotate_credential` under the keyring's lock.
  unfoldable pub replace_credential :
      String
      → Role
      → ℕ
      → Sink PreparedCredential
      → RotationDraws
      → Tx (Runtime Text) RotatedCredential
  unfolding on_database on_ring new_credential current_key key_check
  replace_credential client_id role grace sink draws = do
    on_ring (require_generation lib.json lib.base64)
    p ← gets (λ w. w.ring.memory)
    replacement ← returning (new_credential lib.hashing role client_id p draws.credential)
    hand_over sink (record {
      client_id = client_id;
      credential_id = replacement.0.credential_id;
      role = role;
      secret = replacement.1;
    })
    root_key ← returning (current_key p)
    check ← returning (key_check lib.hashing root_key)
    previous ←
        on_database (
          Ledger.rotate_credential client_id role replacement.0 check grace draws.now
            draws.event_id)
    pure (record {
      client_id = client_id;
      credential_id = replacement.0.credential_id;
      role = role;
      secret = replacement.1;
      previous_credential_id = previous.0;
      previous_valid_until = previous.1;
    })

  -- OnceproofService.rotate_credential
  unfoldable pub rotate_credential :
      RotationArguments
      → Sink PreparedCredential
      → RotationDraws
      → Tx (Runtime Text) RotatedCredential
  unfolding checked_text
  rotate_credential args sink draws = do
    role ← returning (role_of args.role)
    grace ← returning (checked_grace args.grace_seconds)
    client_id ← returning (checked_text args.client_id "client_id" 128)
    replace_credential client_id role grace sink draws

abbrev or_clock : Option ℕ → ℕ → ℕ
or_clock none clock = clock
or_clock (some now) clock = now

module _ {Text : Type 0} where
  -- OnceproofService.revoke_client
  unfoldable pub revoke_client : Value → ℕ → String → Tx (Runtime Text) Bool
  unfolding on_database checked_text
  revoke_client client_id now event_id = do
    accepted ← returning (checked_text client_id "client_id" 128)
    on_database (Ledger.revoke_client accepted now event_id)

  -- OnceproofService.cleanup, for a time that is an int.
  unfoldable pub cleanup : Option ℕ → ℕ → Tx (Runtime Text) Removed
  unfolding on_database
  cleanup now clock = on_database (Retained.cleanup (or_clock now clock) default_retention)

  -- OnceproofService.activate_restored_backup
  unfoldable pub activate_restored_backup : ℕ → String → Tx (Runtime Text) (Unit {0})
  unfolding on_database
  activate_restored_backup now event_id =
      on_database (Retained.activate_restored_backup now event_id)
