-- ===== src/Keyring/Lookup.antt =====
-- What the keys of a ring are after one is added or taken out.
use onceproof.Base.{
  ℕ, String, ◌≡◌, refl, false, not, none, some, List, [], ◌∷◌, ◌==◌, arith, eq_iff, find, select,
  if◌then◌else◌, Option, Bool-cases, inl, inr,
}
use onceproof.Model.Json.{Value, text, obj, Fields, get}
use onceproof.Keyring.Payload.{
  Base64, Key, Payload, kid_is, has_kid, encode_key, encoded_keys, serialized_payload,
}
use onceproof.Keyring.Ring.{put_last, with_new_key, without_key, key_bytes, key_for}

-- The ring without one key: its current key and all its others are as they were.
pub record IsWithout (kid : String) (p q : Payload) : Type 0 where
  pub current : q.current_kid ≡ p.current_kid
  pub lookup : (j : String) → key_for q j ≡ (if j == kid then none else key_for p j)

-- The ring with one more key, which is the current one: all others are as they were.
pub record IsExtended (kid : String) (bytes : List ℕ) (p q : Payload) : Type 0 where
  pub current : q.current_kid ≡ kid
  pub lookup : (j : String) → key_for q j ≡ (if j == kid then some bytes else key_for p j)

find-without_key :
    (kid j : String) (keys : List Key)
    → find (kid_is j) (select (λ k. not (kid_is kid k)) keys)
      ≡ (if j == kid then none else find (kid_is j) keys)
unfolding find select
find-without_key kid j [] = ground arith
find-without_key kid j (k ∷ keys) =
    ground (arith, eq_iff k.kid kid, eq_iff k.kid j, eq_iff j kid, find-without_key kid j keys)

find-put_last :
    (new : Key) (j : String) (keys : List Key)
    → has_kid new.kid keys ≡ false
    → find (kid_is j) (put_last new keys)
      ≡ (if j == new.kid then some new else find (kid_is j) keys)
unfolding find put_last has_kid
find-put_last new j [] free = ground (arith, eq_iff j new.kid, eq_iff new.kid j)
find-put_last new j (k ∷ keys) free =
    ground (arith, eq_iff k.kid new.kid, eq_iff k.kid j, eq_iff j new.kid, find-put_last new j keys)

pub without_key-IsWithout : (kid : String) (p : Payload) → IsWithout kid p (without_key p kid)
unfolding key_for
without_key-IsWithout kid p = record {
  current = refl;
  lookup = λ j. rw (find-without_key kid j p.keys) (ground arith);
}

pub with_new_key-IsExtended :
    (kid : String) (bytes : List ℕ) (p : Payload)
    → has_kid kid p.keys ≡ false
    → IsExtended kid bytes p (with_new_key p kid bytes)
unfolding key_for
with_new_key-IsExtended kid bytes p free = record {
  current = refl;
  lookup =
      λ j. rw (find-put_last (record { kid = kid; bytes = bytes }) j p.keys free) (ground arith);
}

-- The value that a key is written as, where there is one.
abbrev pub written : Base64 → Option (List ℕ) → Option Value
written b64 none = none
written b64 (some bytes) = some (text (encode_key b64 bytes))

-- The document has the current key of the ring, and each of its keys under its identifier.
pub record IsWritten (b64 : Base64) (document : Value) (p : Payload) : Type 0 where
  pub fields : Fields
  pub items : Fields
  pub is_object : document ≡ obj fields
  pub current : get "current_kid" fields ≡ some (text p.current_kid)
  pub keys : get "keys" fields ≡ some (obj items)
  pub item : (j : String) → get j items ≡ written b64 (key_for p j)

get-encoded_keys :
    (b64 : Base64) (j : String) (keys : List Key)
    → get j (encoded_keys b64 keys) ≡ written b64 (key_bytes (find (kid_is j) keys))
unfolding encoded_keys find
get-encoded_keys b64 j [] = refl
get-encoded_keys b64 j (k ∷ keys) = elim (Bool-cases (k.kid == j)) [
  | inl same ↦ rw same refl
  | inr other ↦ rw other (get-encoded_keys b64 j keys)
]

pub serialized_payload-IsWritten :
    (b64 : Base64) (p : Payload) → IsWritten b64 (serialized_payload b64 p) p
unfolding serialized_payload key_for
serialized_payload-IsWritten b64 p = record {
  fields = _;
  items = encoded_keys b64 p.keys;
  is_object = refl;
  current = refl;
  keys = refl;
  item = λ j. get-encoded_keys b64 j p.keys;
}
