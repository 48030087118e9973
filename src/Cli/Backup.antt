-- ===== src/Cli/Backup.antt =====
-- `_verify_backup_directory` of src/onceproof/cli.py: what a backup has to pass.
use Prim.Native.String
use Prim.Native.String.{◌++◌}
use onceproof.Base.{
  String, not, ◌&&◌, ◌||◌, Option, none, some, [], ◌∷◌, ◌==◌, eqb, ltb, if◌then◌else◌,
}
use onceproof.Errors.{Result, ok, err, value_error, type_error, raise_if, ◌>>=◌, ◌>>◌}
use onceproof.Model.Json.{Value, text, obj, Fields, end, field, get, same_keys, Codec}
use onceproof.Store.Rows.{Database}
use onceproof.Store.Shared.{is_restore_required}
use onceproof.Store.Reports.{referenced_hash_key_checks}
use onceproof.Keyring.Payload.{Payload, is_version_one}
use onceproof.Keyring.Ring.{duplicate}
use onceproof.Service.Inputs.{all_chars}
use onceproof.Service.Runtime.{Library}
use onceproof.Service.Ready.{all_match}
use onceproof.Files.{Files, load_keyring}
use onceproof.Cli.Payloads.{status_line}

-- The file of the ledger: what `Store(path)` opens or raises, and what `PRAGMA integrity_check`
-- says of it.
pub record Ledger (Text : Type 0) : Type 0 where
  pub opened : Result (Database Text)
  pub integrity : String

-- _BACKUP_DATABASE_NAME, _BACKUP_KEYRING_NAME, _BACKUP_MANIFEST_NAME
abbrev pub database_name : String
database_name = "onceproof.sqlite3"

abbrev pub keyring_name : String
keyring_name = "keyring.json"

abbrev pub manifest_name : String
manifest_name = "manifest.json"

-- `_manifest_without_duplicates`, over the document
abbrev pub distinct_manifest : Value → Option String → Result Value
distinct_manifest v none = ok v
distinct_manifest v (some k) = err (value_error ("duplicate_backup_manifest_field:" ++ k))

abbrev pub parsed_manifest : Option Value → Result Value
parsed_manifest none = err (value_error "backup_manifest_unreadable")
parsed_manifest (some v) = distinct_manifest v (duplicate v)

abbrev pub read_manifest : {Text : Type 0} → Codec Text → Option Text → Result Value
read_manifest json none = err (value_error "backup_manifest_unreadable")
read_manifest json (some t) = parsed_manifest (json.loads t)

abbrev pub manifest_fields : Value → Result Fields
manifest_fields (obj fs) =
    if same_keys fs ("format" ∷ "database" ∷ "keyring" ∷ []) && is_version_one (get "format" fs)
    then ok fs
    else err (value_error "backup_manifest_invalid")
manifest_fields _ = err (value_error "backup_manifest_invalid")

-- The digest of an entry of the manifest that has the right form.
abbrev pub named_digest : String → Option Value → Option Value → Option String
named_digest expected (some (text name)) (some (text digest)) =
    if name == expected && eqb (String.count digest) 64 then some digest else none
named_digest expected _ _ = none

abbrev pub entry_digest : String → Option Value → Option String
entry_digest expected (some (obj fs)) =
    if same_keys fs ("name" ∷ "sha256" ∷ [])
    then named_digest expected (get "name" fs) (get "sha256" fs)
    else none
entry_digest expected _ = none

module _ {Text : Type 0} (files : Files Text) where
  -- `hmac.compare_digest` raises TypeError for a text that is not ASCII.
  unfoldable pub digest_matches : String → String → Option String → Result (Unit {0})
  unfolding all_chars
  digest_matches name path none = err (value_error "backup_manifest_invalid")
  digest_matches name path (some digest) =
      raise_if (files.is_symlink path || not (files.is_file path))
        (value_error "backup_manifest_invalid")
      >> raise_if (not (all_chars (λ n. ltb n 128) digest)) type_error
      >> raise_if (not (files.sha256 path == digest))
          (value_error ("backup_checksum_mismatch:" ++ name))

  -- One turn of the loop over the two files.
  unfoldable pub verify_entry : Fields → String → String → String → Result (Unit {0})
  unfolding digest_matches
  verify_entry manifest name expected path =
      digest_matches name path (entry_digest expected (get name manifest))

  -- The manifest and the two files that it names.
  unfoldable pub verify_files : Codec Text → String → Result (Unit {0})
  unfolding verify_entry
  verify_files json path =
      raise_if (files.is_symlink path || not (files.is_dir path))
        (value_error "backup_directory_not_regular")
      >> (read_manifest json (files.read (files.child path manifest_name))
          >>= manifest_fields
          >>= λ manifest.
              verify_entry manifest "database" database_name (files.child path database_name)
              >> verify_entry manifest "keyring" keyring_name (files.child path keyring_name))

module _ {Text : Type 0} (lib : Library Text) where
  -- The seal and the keys of the pair.
  unfoldable pub verify_pair : Payload → String → Database Text → Result (Unit {0})
  unfolding referenced_hash_key_checks is_restore_required all_match
  verify_pair p integrity db =
      raise_if (not (integrity == "ok") || not (is_restore_required db))
        (value_error "backup_not_recovery_sealed")
      >> (referenced_hash_key_checks db >>= all_match lib.hashing p >>= λ match.
          raise_if (not match) (value_error "backup_keyring_mismatch"))

  -- `_verify_backup_directory`
  unfoldable pub verify_backup : Files Text → Ledger Text → String → Result (Unit {0})
  unfolding verify_files load_keyring verify_pair
  verify_backup files ledger path =
      verify_files files lib.json path
      >> (load_keyring lib.json lib.base64 files (files.child path keyring_name) >>= λ p.
          ledger.opened >>= verify_pair p ledger.integrity)

  -- `_db_verify_backup`
  unfoldable pub db_verify_backup : Files Text → Ledger Text → String → Result Value
  unfolding verify_backup
  db_verify_backup files ledger input =
      let path = files.resolve input in
      verify_backup files ledger path
      >> ok (
          status_line "valid" (
            field "database_backup_path" (text (files.child path database_name)) (
              field "keyring_backup_path" (text (files.child path keyring_name))
                (field "manifest_path" (text (files.child path manifest_name)) end))))
