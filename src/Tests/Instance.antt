-- ===== src/Tests/Instance.antt =====
-- A service that is ready, the files of an instance, and a backup of it.
use onceproof.Base.{
  String, ◌≡◌, refl, Bool, true, false, select, find, some, [], ◌==◌, if◌then◌else◌,
}
use onceproof.Base.Int.{pos}
use onceproof.Errors.{ok}
use onceproof.Model.Json.{Value, text, int, bool, obj, end, field, plain_codec, sort_keys}
use onceproof.Store.Shared.{is_restore_required}
use onceproof.Store.Maintenance.{sealed_copy, put_maintenance}
use onceproof.Store.Reports as Ledger
use onceproof.Store.Reports.{
  Connection, assert_complete_schema, required_tables, required_indexes, missing, join_names,
  insert_text, insert_texts, checks_of, referenced_hash_kids, referenced_hash_key_checks,
}
use onceproof.Keyring.Payload.{serialized_payload}
use onceproof.Service.Ready.{all_match, ready}
use onceproof.Service.KeysHeld.{AllHeld, ready-AllHeld}
use onceproof.Http.Headers.{lowers_to}
use onceproof.Files.{Files, load_keyring}
use onceproof.Config.{
  Parsers, InstanceConfig, strict_int, strict_bool, strict_text, unknown_fields, missing_fields,
  is_loopback_host, validate_parent, validate_config, config_values, validate_keyring,
  validate_instance, config_of, load_config,
}
use onceproof.Config.Safe.{IsSafe, load_config-IsSafe}
use onceproof.Cli.Backup as Copy
use onceproof.Cli.Backup.{digest_matches, verify_entry, verify_files, verify_pair, verify_backup}
use onceproof.Cli.Recoverable.{IsRecoverable, verify_backup-IsRecoverable}
use onceproof.Tests.Documents.{one_key}
use onceproof.Cli.Commands.{Instance, open_service, service, check, client_revoke}
use onceproof.Cli.Checked.{Checked, check-Checked}
use onceproof.Cli.Revoked.{client_revoke-cut_off}
use onceproof.Errors.{is_ok}
use onceproof.Store.Issue.{issue_proof}
use onceproof.Store.Consume.{consume_proof}
use onceproof.Store.OnceOnly.{is_verified}
use onceproof.Service.Runtime.{Runtime}
use onceproof.Service.Upkeep.{revoke_client}
use onceproof.Tests.Ledger.{keyed, draws}
use onceproof.Tests.EndToEnd.{record_of, issued-IsConsistent}
use onceproof.Tests.Shop.{hashing, lib, held, issued, serve}

abbrev connection : Connection
connection = record {
  user_version = 1;
  foreign_keys = 1;
  synchronous = 3;
  journal_mode = "delete";
  secure_delete = 1;
  tables = required_tables;
  indexes = required_indexes;
  takes_write_lock = true;
}

-- What the reports and the checks of the keys use, open.
unfoldable look : Value → Bool
unfolding serve select find missing join_names assert_complete_schema insert_text insert_texts
    checks_of referenced_hash_kids referenced_hash_key_checks is_restore_required Ledger.ready
    all_match ready lowers_to load_keyring strict_int strict_bool strict_text unknown_fields
    missing_fields is_loopback_host validate_parent validate_config config_values validate_keyring
    validate_instance config_of load_config digest_matches verify_entry verify_files verify_pair
    verify_backup sealed_copy put_maintenance open_service service check client_revoke revoke_client
look v = true

ready-AllHeld_example :
    (is_restore_required issued.database ≡ false) × AllHeld hashing held issued.database
unfolding look
ready-AllHeld_example = ready-AllHeld hashing held issued.database connection refl

abbrev sha : String
sha = "0123456789abcdef0123456789abcdef0123456789abcdef0123456789abcdef"

abbrev entry : String → Value
entry name = obj (field "name" (text name) (field "sha256" (text sha) end))

abbrev manifest : Value
manifest = obj (
    field "format" (int (pos 1))
      (field "database" (entry Copy.database_name) (field "keyring" (entry Copy.keyring_name) end)))

-- A directory "d": the parts of a path are put together without a separator.
abbrev files : Files Value
files = record {
  is_posix = true;
  exists = λ path. true;
  is_symlink = λ path. false;
  is_file = λ path. true;
  is_dir = λ path. true;
  mode = λ path. some 448;
  parent = λ path. "d";
  resolve = λ path. path;
  child = λ base name. name;
  read = λ path. some (
      if path == Copy.manifest_name then manifest else sort_keys (serialized_payload one_key held));
  sha256 = λ path. sha;
}

abbrev toml : Value
toml = obj (
    field "version" (int (pos 1)) (
      field "database" (text "onceproof.sqlite3") (
        field "keyring" (text "keyring.json") (
          field "host" (text "127.0.0.1") (
            field "port" (int (pos 8787)) (
              field "max_request_bytes" (int (pos 16384))
                (field "allow_public_bind" (bool false) end)))))))

abbrev parsers : Parsers
parsers = record { toml = λ path. some toml; is_loopback = λ host. host == "127.0.0.1" }

abbrev config : InstanceConfig
config = record {
  config_path = "onceproof.toml";
  database_path = "onceproof.sqlite3";
  keyring_path = "keyring.json";
  host = "127.0.0.1";
  port = 8787;
  max_request_bytes = 16384;
  allow_public_bind = false;
}

load_config-IsSafe_example : IsSafe plain_codec one_key files parsers config
unfolding look
load_config-IsSafe_example =
    load_config-IsSafe plain_codec one_key files parsers "onceproof.toml" config refl

abbrev ledger : Copy.Ledger Value
ledger = record { opened = ok (sealed_copy issued.database); integrity = "ok" }

verify_backup-IsRecoverable_example : IsRecoverable lib files ledger "d"
unfolding look
verify_backup-IsRecoverable_example = verify_backup-IsRecoverable lib files ledger "d" refl

abbrev instance_ : Instance Value
instance_ = record {
  files = files;
  parsers = parsers;
  config = "onceproof.toml";
  opens = ok tt;
  connection = connection;
  integrity = "ok";
}

check-Checked_example : Checked lib instance_ issued (check lib instance_ issued).1
unfolding look
check-Checked_example = check-Checked lib instance_ issued (check lib instance_ issued).1 _ refl

abbrev revoked : Runtime Value
revoked = (client_revoke lib instance_ true "opc_1" 1030 "ae_8" issued).1

client_revoke-cut_off_example :
    (true ≡ true)
    × (is_verified (consume_proof plain_codec keyed 1050 (draws "vr_4" "ae_10") revoked.database).0
        ≡ false)
    × (is_ok (issue_proof record_of "sd" 1050 "ae_11" revoked.database).0 ≡ false)
unfolding look
client_revoke-cut_off_example =
    client_revoke-cut_off lib instance_ true "opc_1" "ae_8" 1030 issued revoked _
      issued-IsConsistent refl [] 1050 keyed (draws "vr_4" "ae_10") record_of "sd" "ae_11" refl refl
