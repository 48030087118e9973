-- ===== src/Service/Inputs.antt =====
-- What the service accepts as an argument: `_text`, `_purpose`, `_audience`, `_idempotency_key` and
-- `_request_fingerprint` of src/onceproof/service.py. An argument is a value of Python; `null` is
-- None. A test on a character is one on its code.
use Prim.Native.Char.{code}
use Prim.Native.String
use Prim.Native.String.{◌++◌}
use onceproof.Base.{
  ℕ, String, Bool, true, false, not, ◌&&◌, ◌||◌, Option, none, some, List, ◌==◌, ltb, leb, eqb,
  if◌then◌else◌,
}
use onceproof.Errors.{Result, ok, err, value_error, ◌>>=◌}
use onceproof.Model.Json.{Value, text, obj, end, field}
use onceproof.Crypto.{Hashing}

abbrev pub between : ℕ → ℕ → ℕ → Bool
between low high n = leb low n && leb n high

unfoldable pub all_chars : (ℕ → Bool) → String → Bool
all_chars p String.[] = true
all_chars p (String.◌∷◌ c s) = p (code c) && all_chars p s

abbrev pub is_printable : ℕ → Bool
is_printable n = not (ltb n 32)

abbrev accepted_text : String → ℕ → Bool
accepted_text s maximum = not (s == "") && leb (String.count s) maximum && all_chars is_printable s

-- `_text`, with the message `invalid_` and the field
unfoldable pub checked_text : Value → String → ℕ → Result String
unfolding all_chars
checked_text (text s) name maximum =
    if accepted_text s maximum then ok s else err (value_error ("invalid_" ++ name))
checked_text _ name maximum = err (value_error ("invalid_" ++ name))

-- [A-Za-z0-9]
abbrev pub is_alphanumeric : ℕ → Bool
is_alphanumeric n = between 65 90 n || between 97 122 n || between 48 57 n

-- [A-Za-z0-9._:-]
abbrev pub is_word_char : ℕ → Bool
is_word_char n = is_alphanumeric n || eqb n 46 || eqb n 95 || eqb n 58 || eqb n 45

-- A full match of ^[A-Za-z0-9][A-Za-z0-9._:-]{0,127}$
unfoldable pub is_word : String → Bool
unfolding all_chars
is_word String.[] = false
is_word (String.◌∷◌ c s) =
    is_alphanumeric (code c) && leb (String.count s) 127 && all_chars is_word_char s

-- `_purpose`
unfoldable pub checked_purpose : Value → Result String
unfolding is_word
checked_purpose (text s) = if is_word s then ok s else err (value_error "invalid_purpose")
checked_purpose _ = err (value_error "invalid_purpose")

-- The characters of \s, those for which `str.isspace` holds.
abbrev pub is_space : ℕ → Bool
is_space n =
    between 9 13 n
    || between 28 32 n
    || eqb n 133
    || eqb n 160
    || eqb n 5760
    || between 8192 8202 n
    || eqb n 8232
    || eqb n 8233
    || eqb n 8239
    || eqb n 8287
    || eqb n 12288

abbrev is_delimiter : ℕ → Bool
is_delimiter n = eqb n 47 || eqb n 63 || eqb n 35

abbrev no_space : ℕ → Bool
no_space n = not (is_space n)

-- [^/?#\s]* and then (?:[/?#]\S*)?
unfoldable pub is_authority : String → Bool
unfolding all_chars
is_authority String.[] = true
is_authority (String.◌∷◌ c s) =
    let rest = is_authority s in
    let path = all_chars no_space s in
    if is_space (code c) then false else if is_delimiter (code c) then path else rest

abbrev starts_authority : String → Bool
starts_authority String.[] = false
starts_authority (String.◌∷◌ c s) = not (is_delimiter (code c)) && is_authority (String.◌∷◌ c s)

abbrev is_name : String → Bool
is_name s = not (s == "") && all_chars no_space s

-- What follows a prefix.
unfoldable pub after_prefix : String → String → Option String
after_prefix String.[] s = some s
after_prefix (String.◌∷◌ c p) String.[] = none
after_prefix (String.◌∷◌ c p) (String.◌∷◌ d s) =
    let rest = after_prefix p s in if eqb (code c) (code d) then rest else none

abbrev holds_of : Option String → (String → Bool) → Bool
holds_of none p = false
holds_of (some s) p = p s

-- A full match of ^(?:https://[^/?#\s]+(?:[/?#]\S*)?|urn:\S+)$
unfoldable pub is_audience : String → Bool
unfolding all_chars is_authority after_prefix
is_audience s =
    holds_of (after_prefix "https://" s) starts_authority
    || holds_of (after_prefix "urn:" s) is_name

-- `_audience`
unfoldable pub checked_audience : Value → Result String
unfolding checked_text is_audience
checked_audience value = checked_text value "audience" 512 >>= λ audience.
    if is_audience audience then ok audience else err (value_error "invalid_audience")

-- `_idempotency_key`
unfoldable pub checked_idempotency_key : Value → Result (Option String)
unfolding is_word
checked_idempotency_key Value.null = ok none
checked_idempotency_key (text s) =
    if is_word s then ok (some s) else err (value_error "invalid_idempotency_key")
checked_idempotency_key _ = err (value_error "invalid_idempotency_key")

abbrev pub fingerprint_payload : String → String → String → String → Value
fingerprint_payload proof_sha256 subject purpose audience = obj (
    field "proof_sha256" (text proof_sha256) (
      field "subject" (text subject)
        (field "purpose" (text purpose) (field "audience" (text audience) end))))

-- `_request_fingerprint`; `canonical` is `json.dumps(…, separators=(",", ":"), sort_keys=True)`,
-- encoded.
unfoldable pub request_fingerprint :
    Hashing → (Value → List ℕ) → String → String → String → String → String
request_fingerprint h canonical proof subject purpose audience =
    h.sha256 (canonical (fingerprint_payload (h.sha256 (h.encode proof)) subject purpose audience))
