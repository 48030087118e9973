-- ===== src/Config.antt =====
-- `load_config` of src/onceproof/config.py, with its checks on the values and on the files.
pub mod Safe
use Prim.Native.Char.{code}
use Prim.Native.String.{◌++◌}
use onceproof.Base.{
  ℕ, String, Bool, true, false, not, ◌&&◌, ◌||◌, Option, none, some, List, [], ◌∷◌, ◌==◌, leb, eqb,
  select, if◌then◌else◌,
}
use onceproof.Base.Int.{pos}
use onceproof.Errors.{Error, Result, ok, err, value_error, raise_if, map_ok, ◌>>=◌, ◌>>◌}
use onceproof.Model.Json.{
  Value, text, int, bool, null, obj, Fields, end, field, get, contains, has_key, Codec,
}
use onceproof.Store.Reports.{insert_texts, join_names}
use onceproof.Keyring.Payload.{Base64, Payload, is_version_one}
use onceproof.Service.Inputs.{all_chars}
use onceproof.Http.Headers.{lowers_to}
use onceproof.Files.{Files, others_may_write, others_may_access, refuse_mode, load_keyring}

-- `tomllib.load` of a file, and `ipaddress.ip_address(…).is_loopback`, which is false where it
-- raises. `none` is an OSError or a TOMLDecodeError.
pub record Parsers : Type 0 where
  pub toml : String → Option Value
  pub is_loopback : String → Bool

pub record InstanceConfig : Type 0 where
  pub config_path : String
  pub database_path : String
  pub keyring_path : String
  pub host : String
  pub port : ℕ
  pub max_request_bytes : ℕ
  pub allow_public_bind : Bool

abbrev pub config_fields : List String
config_fields =
    "version" ∷ "database" ∷ "keyring" ∷ "host" ∷ "port" ∷ "max_request_bytes" ∷ "allow_public_bind"
    ∷ []

abbrev pub int_or_error : String → Option ℕ → Result ℕ
int_or_error name none = err (value_error ("invalid_" ++ name))
int_or_error name (some n) = ok n

abbrev pub within : ℕ → ℕ → Value → Option ℕ
within low high (int (pos n)) = if leb low n && leb n high then some n else none
within low high _ = none

-- `_strict_int`, for bounds that are not negative
unfoldable pub strict_int : Value → String → ℕ → ℕ → Result ℕ
strict_int value name low high = int_or_error name (within low high value)

-- `_strict_bool`
unfoldable pub strict_bool : Value → String → Result Bool
strict_bool (bool b) name = ok b
strict_bool _ name = err (value_error ("invalid_" ++ name))

-- `_strict_text`
unfoldable pub strict_text : Value → String → Result String
unfolding all_chars
strict_text (text s) name =
    if s == "" || not (all_chars (λ n. not (eqb n 0)) s)
    then err (value_error ("invalid_" ++ name))
    else ok s
strict_text _ name = err (value_error ("invalid_" ++ name))

abbrev keys_of : Fields → List String
keys_of end = []
keys_of (field k v fs) = k ∷ keys_of fs

-- sorted(set(raw) - _CONFIG_FIELDS)
unfoldable pub unknown_fields : Fields → List String
unfolding insert_texts select
unknown_fields raw = insert_texts (select (λ k. not (contains k config_fields)) (keys_of raw)) []

-- sorted(_CONFIG_FIELDS - set(raw))
unfoldable pub missing_fields : Fields → List String
unfolding insert_texts select
missing_fields raw = insert_texts (select (λ k. not (has_key k raw)) config_fields) []

abbrev pub complain : String → List String → Result (Unit {0})
complain problem [] = ok tt
complain problem (name ∷ names) =
    err (value_error (problem ++ ":" ++ join_names "," (name ∷ names)))

abbrev pub value_at : String → Fields → Value
value_at k fs = or_null (get k fs)
  where
    or_null : Option Value → Value
    or_null none = null
    or_null (some v) = v

abbrev pub table_of : Option Value → Result Fields
table_of none = err (value_error "unreadable_config")
table_of (some (obj fs)) = ok fs
table_of (some _) = err (value_error "invalid_config")

-- `_is_loopback_host`
unfoldable pub is_loopback_host : Parsers → String → Bool
unfolding lowers_to
is_loopback_host parsers host = lowers_to host "localhost" || parsers.is_loopback host

module _ {Text : Type 0} (files : Files Text) where
  -- `_validate_parent_integrity`
  unfoldable pub validate_parent : String → String → Result (Unit {0})
  validate_parent path name =
      refuse_mode files.is_posix (files.mode (files.parent path)) others_may_write
        (value_error (name ++ "_parent_permissions_too_open"))

  -- `_validate_config_file` and its parent, for a path that exists
  unfoldable pub validate_config : String → Result (Unit {0})
  unfolding validate_parent
  validate_config path =
      raise_if (files.is_symlink path || not (files.is_file path))
        (value_error "config_not_regular")
      >> refuse_mode files.is_posix (files.mode path) others_may_write
          (value_error "config_permissions_too_open")
      >> validate_parent path "config"

  -- len({config_path, database_path.resolve(), keyring_path.resolve()}) != 3
  abbrev pub collide : InstanceConfig → Bool
  collide c =
      c.config_path == files.resolve c.database_path
      || c.config_path == files.resolve c.keyring_path
      || files.resolve c.database_path == files.resolve c.keyring_path

  -- The values of the table, each checked by its type and its bounds.
  unfoldable pub config_values : String → Fields → Result InstanceConfig
  unfolding strict_text strict_int strict_bool
  config_values config_path raw =
      let base = files.parent config_path in
      strict_text (value_at "database" raw) "database" >>= λ database.
      strict_text (value_at "keyring" raw) "keyring" >>= λ keyring.
      strict_text (value_at "host" raw) "host" >>= λ host.
      strict_int (value_at "port" raw) "port" 1 65535 >>= λ port.
      strict_int (value_at "max_request_bytes" raw) "max_request_bytes" 1024 1048576 >>= λ limit.
      strict_bool (value_at "allow_public_bind" raw) "allow_public_bind" >>= λ public_bind.
      ok (record {
        config_path = config_path;
        database_path = files.child base database;
        keyring_path = files.child base keyring;
        host = host;
        port = port;
        max_request_bytes = limit;
        allow_public_bind = public_bind;
      })

module _ {Text : Type 0} (json : Codec Text) (b64 : Base64) (files : Files Text) where
  -- `_validate_keyring_file`
  unfoldable pub validate_keyring : String → Result Payload
  unfolding load_keyring
  validate_keyring path =
      raise_if (not (files.exists path)) (value_error "keyring_missing")
      >> raise_if (files.is_symlink path || not (files.is_file path))
          (value_error "keyring_not_regular")
      >> refuse_mode files.is_posix (files.mode path) others_may_access
          (value_error "keyring_permissions_too_open")
      >> load_keyring json b64 files path

module _ {Text : Type 0} (json : Codec Text) (b64 : Base64) (files : Files Text)
    (parsers : Parsers) where
  -- The checks across the values.
  unfoldable pub validate_instance : InstanceConfig → Result (Unit {0})
  unfolding is_loopback_host validate_parent validate_keyring
  validate_instance c =
      raise_if (collide files c) (value_error "config_path_collision")
      >> raise_if (not (is_loopback_host parsers c.host) && not c.allow_public_bind)
          (value_error "public_bind_not_allowed")
      >> validate_parent files c.database_path "database"
      >> validate_parent files c.keyring_path "keyring"
      >> map_ok (λ p. tt) (validate_keyring json b64 files c.keyring_path)

  unfoldable pub config_of : String → Fields → Result InstanceConfig
  unfolding unknown_fields missing_fields join_names config_values validate_instance
  config_of config_path raw =
      complain "unknown_config_fields" (unknown_fields raw)
      >> complain "missing_config_fields" (missing_fields raw)
      >> raise_if (not (is_version_one (get "version" raw)))
          (value_error "unsupported_config_version")
      >> (config_values files config_path raw >>= λ c. validate_instance c >> ok c)

  -- `load_config`, for an absolute path
  unfoldable pub load_config : String → Result InstanceConfig
  unfolding validate_config config_of
  load_config path =
      let checked = validate_config files path in
      let loaded =
        table_of (parsers.toml (files.resolve path)) >>= config_of (files.resolve path) in
      (if files.exists path then checked else ok tt) >> loaded
