-- ===== src/Cli/Recoverable.antt =====
-- A backup that passes its verification can be restored.
use onceproof.Base.{
  String, ◌≡◌, refl, arith, true, false, not, ◌||◌, Option, none, some, ◌==◌, eq_sound,
}
use onceproof.Errors.{ok, raise_if, ◌>>=◌, >>=-eq_ok, then-passed, raise_if-passed, raise_if-ok}
use onceproof.Model.Json.{text, obj, Fields, get}
use onceproof.Store.Rows.{Database}
use onceproof.Store.Shared.{is_restore_required}
use onceproof.Store.Reports.{referenced_hash_key_checks}
use onceproof.Keyring.Payload.{Payload}
use onceproof.Service.Runtime.{Library}
use onceproof.Service.Ready.{all_match}
use onceproof.Service.KeysHeld.{AllHeld, checks-AllHeld}
use onceproof.Files.{Files, load_keyring}
use onceproof.Cli.Backup.{
  Ledger, database_name, keyring_name, manifest_name, read_manifest, manifest_fields, entry_digest,
  digest_matches, verify_entry, verify_files, verify_pair, verify_backup,
}
use onceproof.Cli.Manifest.{entry_digest-some, read_manifest-loads}

-- A file is regular, and has the digest that the manifest names for it: the item is an object with its
-- name and the digest.
pub record IsIntact {Text : Type 0} (files : Files Text) (manifest : Fields)
    (name expected path : String) : Type 0 where
  pub entry : Fields
  pub digest : String
  pub regular : (files.is_symlink path || not (files.is_file path)) ≡ false
  pub item : get name manifest ≡ some (obj entry)
  pub named : get "name" entry ≡ some (text expected)
  pub recorded : get "sha256" entry ≡ some (text digest)
  pub same : files.sha256 path ≡ digest

module _ {Text : Type 0} (files : Files Text) where
  digest-steps :
      (name path : String) (o : Option String)
      → digest_matches files name path o ≡ ok tt
      → (digest : String) × (o ≡ some digest)
        × ((files.is_symlink path || not (files.is_file path)) ≡ false)
        × (files.sha256 path ≡ digest)
  unfolding digest_matches
  digest-steps name path none h = absurd (ground arith)
  digest-steps name path (some digest) h =
      let (h₁, same) = then-passed _ (raise_if (not (files.sha256 path == digest)) _) tt h in
      let (regular, _) = raise_if-passed _ _ _ tt h₁ in
      let equal = raise_if-ok (not (files.sha256 path == digest)) _ same in
      (digest, refl, regular, eq_sound (files.sha256 path) digest (ground arith))

  verify_entry-IsIntact :
      (manifest : Fields) (name expected path : String)
      → verify_entry files manifest name expected path ≡ ok tt
      → IsIntact files manifest name expected path
  unfolding verify_entry
  verify_entry-IsIntact manifest name expected path h =
      let (digest, recorded, regular, same) =
        digest-steps name path (entry_digest expected (get name manifest)) h in
      let (entry, item, named, sha) =
        entry_digest-some expected (get name manifest) digest recorded in
      record {
        entry = entry;
        digest = digest;
        regular = regular;
        item = item;
        named = named;
        recorded = sha;
        same = same;
      }

-- The ledger and the keyring of the directory, both as the file `manifest.json` has them; the ledger is sealed,
-- and the keyring holds the keys of all its credentials and proofs.
pub record IsRecoverable {Text : Type 0} (lib : Library Text) (files : Files Text)
    (ledger : Ledger Text) (path : String) : Type 0 where
  pub manifest : Fields
  pub ring : Payload
  pub document : Text
  pub db : Database Text
  pub manifest_read : files.read (files.child path "manifest.json") ≡ some document
  pub manifest_loads : lib.json.loads document ≡ some (obj manifest)
  pub intact_database :
      IsIntact files manifest "database" "onceproof.sqlite3" (files.child path "onceproof.sqlite3")
  pub intact_keyring :
      IsIntact files manifest "keyring" "keyring.json" (files.child path "keyring.json")
  pub ring_loads :
      load_keyring lib.json lib.base64 files (files.child path "keyring.json") ≡ ok ring
  pub opens : ledger.opened ≡ ok db
  pub sealed : is_restore_required db ≡ true
  pub keys : AllHeld lib.hashing ring db

module _ {Text : Type 0} (lib : Library Text) where
  verify_pair-passed :
      (p : Payload) (integrity : String) (db : Database Text)
      → verify_pair lib p integrity db ≡ ok tt
      → (is_restore_required db ≡ true) × AllHeld lib.hashing p db
  unfolding verify_pair
  verify_pair-passed p integrity db h =
      let (sealed, rest) =
        raise_if-passed (not (integrity == "ok") || not (is_restore_required db)) _ _ tt h in
      let (match, found, last) =
        >>=-eq_ok (referenced_hash_key_checks db >>= all_match lib.hashing p) _ rest in
      let (checks, e, m) =
        >>=-eq_ok (referenced_hash_key_checks db) (all_match lib.hashing p) found in
      let all = raise_if-ok (not match) _ last in
      (ground arith, checks-AllHeld lib.hashing p db checks e (ground arith))

  -- A backup directory that `_verify_backup_directory` accepts holds a ledger and a keyring that are
  -- regular files with the digests that the file `manifest.json` there records for them; the ledger is sealed until it is activated, and
  -- the keyring is loaded and has, for every credential and every proof of the ledger, the root key
  -- that passes the check registered for it.
  pub verify_backup-IsRecoverable :
      (files : Files Text) (ledger : Ledger Text) (path : String)
      → verify_backup lib files ledger path ≡ ok tt
      → IsRecoverable lib files ledger path
  unfolding verify_backup verify_files
  verify_backup-IsRecoverable files ledger path h =
      let (checked, rest) = then-passed (verify_files files lib.json path) _ tt h in
      let (_, named) =
        then-passed (raise_if (files.is_symlink path || not (files.is_dir path)) _) _ tt checked in
      let (manifest, found, entries) =
        >>=-eq_ok
          (read_manifest lib.json (files.read (files.child path manifest_name)) >>= manifest_fields)
          _ named in
      let (first, second) =
        then-passed
          (verify_entry files manifest "database" database_name (files.child path database_name)) _
          tt entries in
      let (p, loads, h₁) =
        >>=-eq_ok (load_keyring lib.json lib.base64 files (files.child path keyring_name)) _ rest in
      let (db, opens, h₂) = >>=-eq_ok ledger.opened _ h₁ in
      let (sealed, keys) = verify_pair-passed p ledger.integrity db h₂ in
      let (document, is_read, loaded) =
        read_manifest-loads lib.json (files.read (files.child path manifest_name)) manifest found in
      record {
        manifest = manifest;
        document = document;
        manifest_read = is_read;
        manifest_loads = loaded;
        ring = p;
        db = db;
        intact_database =
            verify_entry-IsIntact files manifest "database" database_name
              (files.child path database_name) first;
        intact_keyring =
            verify_entry-IsIntact files manifest "keyring" keyring_name
              (files.child path keyring_name) second;
        ring_loads = loads;
        opens = opens;
        sealed = sealed;
        keys = keys;
      }
