-- ===== src/Keyring/Payload.antt =====
-- What a keyring file holds: `_encode_key`, `_decode_key`, `_serialized_payload`, `_parse_payload`
-- and `_read_payload`. A key is the list of its bytes. The module `base64` is a parameter.
use Prim.Native.Char.{code}
use Prim.Native.Nat.{◌%◌}
use Prim.Native.String.{count, ◌++◌}
use onceproof.Base.{
  ℕ, zero, suc, ◌-◌, String, Bool, false, not, ◌&&◌, ◌||◌, Option, none, some, List, [], ◌∷◌, ◌==◌,
  starts_with, eqb, if◌then◌else◌,
}
use onceproof.Base.Int.{pos}
use onceproof.Errors.{Result, ok, err, value_error}
use onceproof.Model.Json.{Value, text, int, obj, Fields, end, field, get, same_keys}

-- `base64.urlsafe_b64encode`, and `base64.b64decode(…, altchars=b"-_", validate=True)`, which is
-- none where it raises.
pub record Base64 : Type 0 where
  pub urlsafe_b64encode : List ℕ → String
  pub b64decode : String → Option (List ℕ)

-- s.rstrip("=")
unfoldable pub rstrip : String → String
rstrip String.[] = ""
rstrip (String.◌∷◌ c s) =
    let rest = rstrip s in if rest == "" && eqb (code c) 61 then "" else String.◌∷◌ c rest

-- "=" * n
unfoldable pub padding : ℕ → String
padding zero = ""
padding (suc n) = "=" ++ padding n

unfoldable pub byte_count : List ℕ → ℕ
byte_count [] = 0
byte_count (b ∷ bs) = suc (byte_count bs)

-- One entry of the dict of keys.
pub record Key : Type 0 where
  pub kid : String
  pub bytes : List ℕ

-- A dict of keys, in the order of its items, and the key in use.
pub record Payload : Type 0 where
  pub current_kid : String
  pub keys : List Key

abbrev checked_length : Option (List ℕ) → Result (List ℕ)
checked_length none = err (value_error "invalid_key_encoding")
checked_length (some key) =
    if eqb (byte_count key) 32 then ok key else err (value_error "invalid_key_length")

-- `_encode_key`
unfoldable pub encode_key : Base64 → List ℕ → String
unfolding rstrip
encode_key b64 key = rstrip (b64.urlsafe_b64encode key)

-- `_decode_key`; `-n % 4` is `(4 - n % 4) % 4`.
unfoldable pub decode_key : Base64 → String → Result (List ℕ)
unfolding padding byte_count
decode_key b64 value = checked_length (b64.b64decode (value ++ padding ((4 - count value % 4) % 4)))

abbrev pub kid_is : String → Key → Bool
kid_is kid k = k.kid == kid

-- The dict of encoded keys; `json.dumps` sorts it.
unfoldable pub encoded_keys : Base64 → List Key → Fields
encoded_keys b64 [] = end
encoded_keys b64 (k ∷ ks) = field k.kid (text (encode_key b64 k.bytes)) (encoded_keys b64 ks)

-- `_serialized_payload`, before it is dumped
unfoldable pub serialized_payload : Base64 → Payload → Value
serialized_payload b64 p = obj (
    field "version" (int (pos 1))
      (field "current_kid" (text p.current_kid) (field "keys" (obj (encoded_keys b64 p.keys)) end)))

abbrev cons_key : String → List ℕ → Result (List Key) → Result (List Key)
cons_key kid bytes (ok ks) = ok (record { kid = kid; bytes = bytes } ∷ ks)
cons_key kid bytes (err e) = err e

-- `isinstance(encoded_key, str)`, and its key
abbrev pub key_of : Base64 → Value → Result (List ℕ)
key_of b64 (text s) = decode_key b64 s
key_of b64 _ = err (value_error "invalid_key_encoding")

abbrev pub key_then : String → Result (List ℕ) → Result (List Key) → Result (List Key)
key_then kid (ok bytes) rest = cons_key kid bytes rest
key_then kid (err e) rest = err e

-- The loop of `_parse_payload`: the first bad entry raises.
unfoldable pub parse_keys : Base64 → Fields → Result (List Key)
parse_keys b64 end = ok []
parse_keys b64 (field kid v fs) =
    let rest = parse_keys b64 fs in
    if not (starts_with kid "hk_")
    then err (value_error "invalid_kid")
    else key_then kid (key_of b64 v) rest

unfoldable pub has_kid : String → List Key → Bool
has_kid kid [] = false
has_kid kid (k ∷ ks) = k.kid == kid || has_kid kid ks

abbrev pub with_current : String → Result (List Key) → Result Payload
with_current kid (err e) = err e
with_current kid (ok keys) =
    if has_kid kid keys
    then ok (record { current_kid = kid; keys = keys })
    else err (value_error "current_key_missing")

abbrev pub is_version_one : Option Value → Bool
is_version_one (some (int (pos n))) = eqb n 1
is_version_one (some (Value.bool b)) = b
is_version_one (some (Value.real s)) = s == "1.0"
is_version_one _ = false

-- The checks of `_parse_payload` on the values of the three fields.
unfoldable pub parse_fields : Base64 → Option Value → Option Value → Result Payload
unfolding parse_keys has_kid
parse_fields b64 (some (text kid)) (some (obj (field k v fs))) =
    if starts_with kid "hk_"
    then with_current kid (parse_keys b64 (field k v fs))
    else err (value_error "invalid_current_kid")
parse_fields b64 (some (text kid)) keys =
    if starts_with kid "hk_"
    then err (value_error "empty_keyring")
    else err (value_error "invalid_current_kid")
parse_fields b64 _ keys = err (value_error "invalid_current_kid")

-- `_parse_payload`
unfoldable pub parse_payload : Base64 → Value → Result Payload
parse_payload b64 (obj fs) =
    let rest = parse_fields b64 (get "current_kid" fs) (get "keys" fs) in
    if not (same_keys fs ("version" ∷ "current_kid" ∷ "keys" ∷ []))
    then err (value_error "invalid_keyring_shape")
    else if not (is_version_one (get "version" fs))
    then err (value_error "unsupported_keyring_version")
    else rest
parse_payload b64 _ = err (value_error "invalid_keyring_shape")
