-- ===== src/Files.antt =====
-- What the code asks of the file system: a snapshot, in which a path is the text of an absolute
-- path. `KeyRing.load` of src/onceproof/keyring.py reads it.
use Prim.Native.Nat.{◌%◌, ◌/◌}
use onceproof.Base.{true, false, ℕ, String, Bool, not, ◌||◌, Option, none, some, eqb}
use onceproof.Errors.{◌>>=◌, Error, ok, err, Result, value_error, os_error, raise_if, ◌>>◌}
use onceproof.Model.Json.{Codec}
use onceproof.Keyring.Payload.{Base64, Payload}
use onceproof.Keyring.Ring.{read_payload}

-- `os.name != "nt"`, the tests of a Path, the mode bits that `S_IMODE`
-- gives (none where `stat` is an OSError), `path.parent`,
-- `path.resolve()`, `(base / path).absolute()` or the path itself where it is absolute, the text of
-- a file (none is an OSError), and the SHA-256 of its bytes.
pub record Files (Text : Type 0) : Type 0 where
  pub is_posix : Bool
  pub exists : String → Bool
  pub is_symlink : String → Bool
  pub is_file : String → Bool
  pub is_dir : String → Bool
  pub mode : String → Option ℕ
  pub parent : String → String
  pub resolve : String → String
  pub child : String → String → String
  pub read : String → Option Text
  pub sha256 : String → String

-- mode & (S_IWGRP | S_IWOTH)
abbrev pub others_may_write : ℕ → Bool
others_may_write mode = eqb (mode / 16 % 2) 1 || eqb (mode / 2 % 2) 1

-- mode & (S_IRWXG | S_IRWXO)
abbrev pub others_may_access : ℕ → Bool
others_may_access mode = not (eqb (mode % 64) 0)

abbrev stat_or_error : Option ℕ → Result ℕ
stat_or_error none = err os_error
stat_or_error (some mode) = ok mode

-- A refusal by the mode of a path, where modes are looked at.
abbrev pub refuse_mode : Bool → Option ℕ → (ℕ → Bool) → Error → Result (Unit {0})
refuse_mode false found test e = ok tt
refuse_mode true found test e = stat_or_error found >>= λ mode. raise_if (test mode) e

-- The two modes are read before either is tested.
abbrev pub check_modes : Bool → Option ℕ → Option ℕ → Result (Unit {0})
check_modes false found beside = ok tt
check_modes true found beside = stat_or_error found >>= λ mode.
    stat_or_error beside >>= λ parent_mode.
    raise_if (others_may_access mode) (value_error "keyring_permissions_too_open")
    >> raise_if (others_may_write parent_mode) (value_error "keyring_parent_permissions_too_open")

abbrev read_or_error : {Text : Type 0} → Codec Text → Base64 → Option Text → Result Payload
read_or_error json b64 none = err (value_error "unreadable_keyring")
read_or_error json b64 (some t) = read_payload json b64 t

-- KeyRing.load
unfoldable pub load_keyring :
    {Text : Type 0} → Codec Text → Base64 → Files Text → String → Result Payload
unfolding read_payload
load_keyring json b64 files path =
    raise_if (files.is_symlink path || not (files.is_file path)) (value_error "keyring_not_regular")
    >> check_modes files.is_posix (files.mode path) (files.mode (files.parent path))
    >> read_or_error json b64 (files.read (files.resolve path))
