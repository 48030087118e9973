-- ===== src/Cli/Commands.antt =====
-- The commands of src/onceproof/cli.py that work on an instance, up to the printing. Each reads the
-- configuration and the keyring anew; `opens` stands for `Store(path)`.
use onceproof.Base.{
  ℕ, String, Bool, not, ◌&&◌, Option, none, some, List, ◌==◌, select, if◌then◌else◌,
}
use onceproof.Errors.{Result, ok, err, value_error, key_error}
use onceproof.Model.Json.{Value, text, bool, null, arr, end, field, contains}
use onceproof.Store.Tx.{Tx, ◌>>=◌, ◌>>◌, gets, modify, pure, raise_when, lift}
use onceproof.Store.Rows.{ClientRecord}
use onceproof.Store.Clients.{client}
use onceproof.Store.Reports.{
  Connection, role_name, credentials_for_client, referenced_hash_kids, status, insert_texts,
}
use onceproof.Keyring.Payload.{Payload}
use onceproof.Keyring.Ring.{Replacement, rotate}
use onceproof.Service.Runtime.{Library, Runtime, returning, on_ring}
use onceproof.Service.Clients.{ClientArguments, ClientDraws, create_client}
use onceproof.Service.Upkeep.{
  RotationArguments, RotationDraws, rotate_credential, revoke_client, cleanup,
  activate_restored_backup,
}
use onceproof.Service.Ready.{ready}
use onceproof.Service.{retire_hash_key}
use onceproof.Files.{Files, load_keyring}
use onceproof.Cli.Payloads.{
  credentials_payload, rotated_payload, key_ids, texts, inspected, status_line, removed_value,
  status_value,
}
use onceproof.Config.{InstanceConfig, Parsers, load_config}

-- The instance that a command is given by `--config`: its files, what `Store(path)` raises if it
-- does, the connection, and what `PRAGMA integrity_check` says.
pub record Instance (Text : Type 0) : Type 0 where
  pub files : Files Text
  pub parsers : Parsers
  pub config : String
  pub opens : Result (Unit {0})
  pub connection : Connection
  pub integrity : String

-- `_write_secret_json`, by what it returns or raises.
abbrev Writer : Type 0
Writer = String → Value → Result (Unit {0})

-- `_credentials_target`
unfoldable pub credentials_target : {Text : Type 0} → Files Text → String → Result String
credentials_target files value =
    let path = files.resolve value in
    if value == "-"
    then err (value_error "credentials_output_must_be_file")
    else if files.exists path
    then err (value_error "credentials_output_exists")
    else if not (files.is_dir (files.parent path))
    then err (value_error "credentials_output_parent_missing")
    else ok path

abbrev text_or_null : Option String → Value
text_or_null none = null
text_or_null (some s) = text s

abbrev found_client : String → Option (Result ClientRecord) → Result ClientRecord
found_client id none = err (key_error id)
found_client id (some r) = r

-- The text of a file where the file can be read.
abbrev pub when_readable : {Text : Type 0} → Option Text → Text → Option Text
when_readable none now = none
when_readable (some t) now = some now

module _ {Text : Type 0} (lib : Library Text) (instance_ : Instance Text) where
  -- The keyring file of the instance, where it can be read, is the file of the state.
  abbrev pub disk : Runtime Text → Files Text
  disk w = record instance_.files {
    read = λ path. when_readable (instance_.files.read path) w.ring.file;
  }

  abbrev pub configured : Tx (Runtime Text) InstanceConfig
  configured =
      lift (λ w. load_config lib.json lib.base64 (disk w) instance_.parsers instance_.config)

  abbrev pub hold : Payload → Runtime Text → Runtime Text
  hold p w = record w { ring = record w.ring { memory = p } }

  -- `_service`: the keyring of the file and the store of the path
  unfoldable pub open_service : InstanceConfig → Tx (Runtime Text) (Unit {0})
  unfolding ◌>>=◌ load_keyring
  open_service c = do
    p ← lift (λ w. load_keyring lib.json lib.base64 (disk w) c.keyring_path)
    modify (hold p)
    returning instance_.opens

  unfoldable pub service : Tx (Runtime Text) InstanceConfig
  unfolding load_config open_service
  service = do c ← configured; open_service c; pure c

  -- `_client_create`
  unfoldable pub client_create :
      String → Writer → ClientArguments → ClientDraws → Tx (Runtime Text) Value
  unfolding service credentials_target create_client
  client_create out write args draws = do
    target ← returning (credentials_target instance_.files out)
    service
    c ← create_client lib args (some (λ made. write target (credentials_payload made))) draws
    pure (
        status_line "created"
          (field "client_id" (text c.client_id) (field "credentials_path" (text target) end)))

  -- `_client_rotate`
  unfoldable pub client_rotate :
      String → Writer → RotationArguments → RotationDraws → Tx (Runtime Text) Value
  unfolding service credentials_target rotate_credential
  client_rotate out write args draws = do
    target ← returning (credentials_target instance_.files out)
    service
    r ← rotate_credential lib args (some (λ made. write target (rotated_payload made))) draws
    pure (
        status_line "rotated" (
          field "client_id" (text r.client_id) (
            field "credential_id" (text r.credential_id) (
              field "role" (text (role_name r.role))
                (field "credentials_path" (text target) end)))))

  -- `_client_revoke`
  unfoldable pub client_revoke : Bool → String → ℕ → String → Tx (Runtime Text) Value
  unfolding service revoke_client
  client_revoke confirmed client_id now event_id = do
    raise_when (not confirmed) (value_error "revocation_confirmation_required")
    service
    changed ← revoke_client (text client_id) now event_id
    pure (
        status_line (if changed then "revoked" else "already_revoked")
          (field "client_id" (text client_id) end))

  -- `_client_inspect`
  unfoldable pub client_inspect : String → Tx (Runtime Text) Value
  unfolding service client credentials_for_client inspected
  client_inspect id = do
    service
    c ← lift (λ w. found_client id (client lib.json id w.database))
    cs ← gets (λ w. credentials_for_client c.client_id w.database)
    pure (inspected c cs)

  -- `_cleanup`
  unfoldable pub run_cleanup : ℕ → Tx (Runtime Text) Value
  unfolding service cleanup
  run_cleanup now = do
    service
    removed ← cleanup none now
    pure (status_line "cleaned" (field "removed" (removed_value removed) end))

  -- `_db_activate_restore`, under the lock of the instance
  unfoldable pub activate_restore : Bool → ℕ → String → Tx (Runtime Text) Value
  unfolding service activate_restored_backup
  activate_restore confirmed now event_id = do
    raise_when (not confirmed) (value_error "restore_activation_confirmation_required")
    service
    activate_restored_backup now event_id
    pure (status_line "activated" (field "prior_authority" (text "revoked") end))

  -- `_key_retire`, under the lock of the instance
  unfoldable pub key_retire : String → Replacement → Tx (Runtime Text) Value
  unfolding service on_ring retire_hash_key
  key_retire kid outcome = do
    service
    db ← gets (λ w. w.database)
    on_ring (retire_hash_key lib.json lib.base64 db kid outcome)
    pure (status_line "retired" (field "hash_kid" (text kid) end))

  -- `_check`
  unfoldable pub check : Tx (Runtime Text) Value
  unfolding service ready
  check = do
    c ← service
    is_ready ← lift (λ w. ready lib.hashing w.ring.memory instance_.connection w.database)
    raise_when (not is_ready) (value_error "instance_not_ready")
    kid ← gets (λ w. w.ring.memory.current_kid)
    pure (
        status_line "ready"
          (field "database_path" (text c.database_path) (field "current_hash_kid" (text kid) end)))

  -- `_key_rotate`, under the lock of the instance; null while every identifier drawn is in use.
  unfoldable pub key_rotate : List String → List ℕ → Replacement → Tx (Runtime Text) Value
  unfolding load_config load_keyring on_ring rotate
  key_rotate draws bytes outcome = do
    c ← configured
    p ← lift (λ w. load_keyring lib.json lib.base64 (disk w) c.keyring_path)
    modify (hold p)
    kid ← on_ring (rotate lib.json lib.base64 draws bytes outcome)
    pure (status_line "rotated" (field "current_hash_kid" (text_or_null kid) end))

  -- `_key_inspect`
  unfoldable pub key_inspect : Tx (Runtime Text) Value
  unfolding load_config load_keyring insert_texts
  key_inspect = do
    c ← configured
    p ← lift (λ w. load_keyring lib.json lib.base64 (disk w) c.keyring_path)
    pure (
        status_line "ok" (
          field "current_hash_kid" (text p.current_kid)
            (field "hash_kids" (arr (texts (key_ids p.keys))) end)))

  -- `_db_integrity`
  unfoldable pub db_integrity : Tx (Runtime Text) Value
  unfolding service
  db_integrity = do
    service
    pure (
        status_line (if instance_.integrity == "ok" then "ok" else "failed")
          (field "integrity" (text instance_.integrity) end))

  -- `_doctor`
  unfoldable pub doctor : Tx (Runtime Text) Value
  unfolding service ready insert_texts referenced_hash_kids status select
  doctor = do
    service
    referenced ← gets (λ w. referenced_hash_kids w.database)
    available ← gets (λ w. key_ids w.ring.memory.keys)
    is_ready ← lift (λ w. ready lib.hashing w.ring.memory instance_.connection w.database)
    let healthy = is_ready && instance_.integrity == "ok"
    database ← gets (λ w. status instance_.connection w.database)
    kid ← gets (λ w. w.ring.memory.current_kid)
    pure (
        status_line (if healthy then "healthy" else "unhealthy") (
          field "ready" (bool healthy) (
            field "integrity" (text instance_.integrity) (
              field "database" (status_value database) (
                field "current_hash_kid" (text kid) (
                  field "available_hash_kids" (arr (texts available)) (
                    field "referenced_hash_kids" (arr (texts referenced)) (
                      field "missing_hash_kids"
                        (arr (texts (select (λ k. not (contains k available)) referenced)))
                        end))))))))
