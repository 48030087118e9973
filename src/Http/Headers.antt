-- ===== src/Http/Headers.antt =====
-- The headers of a request: `_header_values`, `_bearer_secret`, `_idempotency_key` and
-- `_content_type_is_json` of src/onceproof/http.py, with `_RequestError` and `_strict_object`. Bytes
-- are a text with one character, of a code below 256, for each byte.
use Prim.Native.Char.{Char, code}
use onceproof.Base.{
  ℕ, ◌+◌, String, Bool, true, false, not, ◌&&◌, ◌||◌, Option, none, some, List, [], ◌∷◌, ◌==◌, ltb,
  eqb, if◌then◌else◌, map,
}
use onceproof.Errors.{Error}
use onceproof.Model.Json.{Value, obj, Fields, end, field, contains, has_key}
use onceproof.Keyring.Ring.{same_bytes}
use onceproof.Crypto.{ascii}
use onceproof.Service.Inputs.{all_chars, is_space, between}

-- What a handler raises: a `_RequestError` with its status and code, or another exception.
pub data Failure : Type 0 where
  request_error : ℕ → String → Failure
  raised : Error → Failure

pub data Outcome {ℓ} (A : Type ℓ) : Type ℓ where
  done : A → Outcome A
  failed : Failure → Outcome A

pub record Header : Type 0 where
  pub key : String
  pub value : String

-- The parts of the scope that are read. A method is a text of ASCII.
pub record Scope : Type 0 where
  pub method : String
  pub path : String
  pub query_string : String
  pub headers : List Header

abbrev lower_code : ℕ → ℕ
lower_code n = if between 65 90 n then n + 32 else n

-- `a.lower() == b`, for a text of ASCII
unfoldable pub lowers_to : String → String → Bool
unfolding same_bytes
lowers_to a b = same_bytes (map lower_code (ascii a)) (ascii b)

-- `_header_values`
unfoldable pub header_values : String → List Header → List String
unfolding lowers_to
header_values name [] = []
header_values name (h ∷ hs) =
    let rest = header_values name hs in if lowers_to h.key name then h.value ∷ rest else rest

abbrev is_ascii : ℕ → Bool
is_ascii n = ltb n 128

-- value.partition(" "): the scheme, and what follows the first space if there is one
abbrev pub with_char : Char → String × Option String → String × Option String
with_char c (scheme, rest) = (String.◌∷◌ c scheme, rest)

unfoldable pub partition_space : String → String × Option String
partition_space String.[] = ("", none)
partition_space (String.◌∷◌ c s) =
    let rest = partition_space s in if eqb (code c) 32 then ("", some s) else with_char c rest

-- s.lstrip(" ")
unfoldable pub lstrip_spaces : String → String
lstrip_spaces String.[] = ""
lstrip_spaces (String.◌∷◌ c s) =
    let rest = lstrip_spaces s in if eqb (code c) 32 then rest else String.◌∷◌ c s

abbrev rejected_credential : {A : Type 0} → Outcome A
rejected_credential = failed (request_error 401 "credential_rejected")

abbrev pub secret_or_rejected : String → Outcome String
secret_or_rejected secret =
    if secret == "" || not (all_chars (λ n. not (is_space n)) secret)
    then rejected_credential
    else done secret

abbrev pub secret_of_parts : String × Option String → Outcome String
secret_of_parts (scheme, none) = rejected_credential
secret_of_parts (scheme, some remainder) =
    let secret = secret_or_rejected (lstrip_spaces remainder) in
    if lowers_to scheme "bearer" then secret else rejected_credential

abbrev pub secret_of_values : List String → Outcome String
secret_of_values (value ∷ []) =
    let secret = secret_of_parts (partition_space value) in
    if all_chars is_ascii value then secret else rejected_credential
secret_of_values _ = rejected_credential

-- `_bearer_secret`
unfoldable pub bearer_secret : List Header → Outcome String
unfolding header_values partition_space lstrip_spaces all_chars lowers_to
bearer_secret headers = secret_of_values (header_values "authorization" headers)

abbrev key_of_values : List String → Outcome (Option String)
key_of_values [] = done none
key_of_values (value ∷ []) =
    if all_chars is_ascii value
    then done (some value)
    else failed (request_error 400 "invalid_idempotency_key")
key_of_values _ = failed (request_error 400 "duplicate_idempotency_key")

-- `_idempotency_key`
unfoldable pub idempotency_key : List Header → Outcome (Option String)
unfolding header_values all_chars
idempotency_key headers = key_of_values (header_values "idempotency-key" headers)

-- The bytes before the first `;`.
abbrev before_semicolon : List ℕ → List ℕ
before_semicolon [] = []
before_semicolon (b ∷ bs) = let rest = before_semicolon bs in if eqb b 59 then [] else b ∷ rest

-- bytes.strip()
abbrev is_blank : ℕ → Bool
is_blank b = between 9 13 b || eqb b 32

abbrev strip_left : List ℕ → List ℕ
strip_left [] = []
strip_left (b ∷ bs) = let rest = strip_left bs in if is_blank b then rest else b ∷ bs

abbrev keep_unless_blank : ℕ → List ℕ → List ℕ
keep_unless_blank b [] = if is_blank b then [] else b ∷ []
keep_unless_blank b rest = b ∷ rest

abbrev strip_right : List ℕ → List ℕ
strip_right [] = []
strip_right (b ∷ bs) = keep_unless_blank b (strip_right bs)

abbrev is_json_type : List String → Bool
is_json_type (value ∷ []) =
    same_bytes (map lower_code (strip_right (strip_left (before_semicolon (ascii value)))))
      (ascii "application/json")
is_json_type _ = false

-- `_content_type_is_json`
unfoldable pub content_type_is_json : List Header → Bool
unfolding header_values same_bytes
content_type_is_json headers = is_json_type (header_values "content-type" headers)

abbrev pub all_allowed : List String → Fields → Bool
all_allowed allowed end = true
all_allowed allowed (field k v fs) = contains k allowed && all_allowed allowed fs

abbrev pub all_present : List String → Fields → Bool
all_present [] fs = true
all_present (k ∷ ks) fs = has_key k fs && all_present ks fs

-- `_strict_object`
unfoldable pub strict_object : Value → List String → List String → Outcome Fields
strict_object (obj fs) allowed needed =
    if not (all_allowed allowed fs)
    then failed (request_error 400 "unknown_fields")
    else if not (all_present needed fs)
    then failed (request_error 400 "missing_fields")
    else done fs
strict_object _ allowed needed = failed (request_error 400 "json_object_required")
