-- ===== src/Keyring/Shape.antt =====
-- What a keyring file that is read has: a key in use that is there, and keys of the right form.
use onceproof.Base.{
  ℕ, String, subst, ◌≡◌, refl, Bool, true, false, not, Option, some, List, [], ◌∷◌, arith,
  starts_with, if◌then◌else◌, All,
}
use onceproof.Errors.{Error, Result, ok, err, value_error}
use onceproof.Model.Json.{Value, Fields, field, get, same_keys, Codec}
use onceproof.Keyring.Payload.{
  Base64, Key, Payload, has_kid, byte_count, key_of, key_then, decode_key, parse_keys, with_current,
  is_version_one, parse_fields, parse_payload,
}
use onceproof.Keyring.Ring.{read_payload, parsed, document}

-- An identifier with its prefix, and 32 bytes.
pub record IsRootKey (k : Key) : Type 0 where
  pub named : starts_with k.kid "hk_" ≡ true
  pub long : byte_count k.bytes ≡ 32

pub record IsKeyRing (p : Payload) : Type 0 where
  pub current : has_kid p.current_kid p.keys ≡ true
  pub keys : All IsRootKey p.keys

decode_key-length :
    (b64 : Base64) (s : String) (bytes : List ℕ)
    → decode_key b64 s ≡ ok bytes
    → byte_count bytes ≡ 32
unfolding decode_key
decode_key-length b64 s bytes h = ground arith

key_of-length :
    (b64 : Base64) (v : Value) (bytes : List ℕ) → key_of b64 v ≡ ok bytes → byte_count bytes ≡ 32
key_of-length b64 (Value.text s) bytes h = decode_key-length b64 s bytes h
key_of-length b64 _ bytes h = cc

abbrev AllRootKeys : Result (List Key) → Type 0
AllRootKeys (ok ks) = All IsRootKey ks
AllRootKeys (err e) = Unit

abbrev KeyRingIfOk : Result Payload → Type 0
KeyRingIfOk (ok p) = IsKeyRing p
KeyRingIfOk (err e) = Unit

-- One turn of the loop.
add_key :
    (kid : String) (named : Bool) (bytes : Result (List ℕ)) (rest : Result (List Key))
    → starts_with kid "hk_" ≡ named
    → ((b : List ℕ) → bytes ≡ ok b → byte_count b ≡ 32)
    → AllRootKeys rest
    → AllRootKeys (if not named then err (value_error "invalid_kid") else key_then kid bytes rest)
add_key kid false bytes rest e long good = tt
add_key kid true (err x) rest e long good = tt
add_key kid true (ok b) (err x) e long good = tt
add_key kid true (ok b) (ok ks) e long good = (record { named = e; long = long b refl }, good)

parse_keys-AllRootKeys : (b64 : Base64) (fs : Fields) → AllRootKeys (parse_keys b64 fs)
unfolding parse_keys
parse_keys-AllRootKeys b64 Fields.end = tt
parse_keys-AllRootKeys b64 (Fields.field kid v fs) =
    add_key kid (starts_with kid "hk_") (key_of b64 v) (parse_keys b64 fs) refl
      (key_of-length b64 v) (parse_keys-AllRootKeys b64 fs)

choose_current :
    (kid : String) (keys : List Key) (there : Bool)
    → has_kid kid keys ≡ there
    → All IsRootKey keys
    → KeyRingIfOk (
        if there
        then ok (record { current_kid = kid; keys = keys })
        else err (value_error "current_key_missing"))
choose_current kid keys false e good = tt
choose_current kid keys true e good = record { current = e; keys = good }

with_current-IsKeyRing :
    (kid : String) (keys : Result (List Key))
    → AllRootKeys keys
    → KeyRingIfOk (with_current kid keys)
with_current-IsKeyRing kid (err e) good = tt
with_current-IsKeyRing kid (ok keys) good = choose_current kid keys (has_kid kid keys) refl good

parse_fields-IsKeyRing :
    (b64 : Base64) (a b : Option Value) (p : Payload) → parse_fields b64 a b ≡ ok p → IsKeyRing p
unfolding parse_fields
parse_fields-IsKeyRing b64 (some (Value.text kid)) (some (Value.obj (Fields.field k v fs))) p h =
    let e : with_current kid (parse_keys b64 (field k v fs)) ≡ ok p = ground arith in
    subst KeyRingIfOk e (
      with_current-IsKeyRing kid (parse_keys b64 (field k v fs))
        (parse_keys-AllRootKeys b64 (field k v fs)))
parse_fields-IsKeyRing b64 (some (Value.text kid)) _ p h = absurd (ground arith)
parse_fields-IsKeyRing b64 _ _ p h = cc

past_guards :
    (a b : Bool) (x y : Error) (r : Result Payload) (p : Payload)
    → (if a then err x else if b then err y else r) ≡ ok p
    → r ≡ ok p
past_guards true b x y r p h = cc
past_guards false true x y r p h = cc
past_guards false false x y r p h = h

parse_payload-IsKeyRing :
    (b64 : Base64) (v : Value) (p : Payload) → parse_payload b64 v ≡ ok p → IsKeyRing p
unfolding parse_payload
parse_payload-IsKeyRing b64 (Value.obj fs) p e =
    parse_fields-IsKeyRing b64 (get "current_kid" fs) (get "keys" fs) p (
      past_guards (not (same_keys fs ("version" ∷ "current_kid" ∷ "keys" ∷ [])))
        (not (is_version_one (get "version" fs))) (value_error "invalid_keyring_shape")
        (value_error "unsupported_keyring_version")
        (parse_fields b64 (get "current_kid" fs) (get "keys" fs)) p e)
parse_payload-IsKeyRing b64 _ p e = cc

parsed-IsKeyRing :
    (b64 : Base64) (d : Result Value) (p : Payload) → parsed b64 d ≡ ok p → IsKeyRing p
parsed-IsKeyRing b64 (ok v) p e = parse_payload-IsKeyRing b64 v p e
parsed-IsKeyRing b64 (err x) p e = cc

-- A keyring file that is read gives a payload whose key in use is one of its keys, and whose keys
-- all have an identifier with the prefix `hk_` and 32 bytes.
pub read_payload-IsKeyRing :
    {Text : Type 0} (json : Codec Text) (b64 : Base64) (t : Text) (p : Payload)
    → read_payload json b64 t ≡ ok p
    → IsKeyRing p
unfolding read_payload
read_payload-IsKeyRing json b64 t p h = parsed-IsKeyRing b64 (document (json.loads t)) p h
