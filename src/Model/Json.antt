-- ===== src/Model/Json.antt =====
-- The values that `json.loads` builds and `json.dumps` writes. Python's dict is the list of its
-- items; `real` is a float by its text. The module `json` itself is not part of the repository: a
-- codec is a parameter, and what it is relied on for is `RoundTrips`.
use Prim.Native.String.{compare}
use Prim.Native.Nat.{Ordering}
use onceproof.Base.{
  String, ◌≡◌, refl, Bool, true, false, ◌&&◌, not, Option, none, some, List, [], ◌∷◌, ◌==◌,
  if◌then◌else◌,
}
use onceproof.Base.Int.{ℤ}

mutual
  pub data Value : Type 0 where
    null : Value
    bool : Bool → Value
    int : ℤ → Value
    real : String → Value
    text : String → Value
    arr : Items → Value
    obj : Fields → Value

  pub data Items : Type 0 where
    nil : Items
    item : Value → Items → Items

  pub data Fields : Type 0 where
    end : Fields
    field : String → Value → Fields → Fields

-- `d.get(key)`
abbrev pub get : String → Fields → Option Value
get k end = none
get k (field j v fs) = if j == k then some v else get k fs

-- `key in d`
abbrev pub has_key : String → Fields → Bool
has_key k end = false
has_key k (field j v fs) = if j == k then true else has_key k fs

abbrev pub contains : String → List String → Bool
contains k [] = false
contains k (j ∷ ks) = if j == k then true else contains k ks

abbrev keys_in : List String → Fields → Bool
keys_in ks end = true
keys_in ks (field j v fs) = contains j ks && keys_in ks fs

abbrev has_all : List String → Fields → Bool
has_all [] fs = true
has_all (k ∷ ks) fs = has_key k fs && has_all ks fs

-- `set(d) == keys`
abbrev pub same_keys : Fields → List String → Bool
same_keys fs ks = keys_in ks fs && has_all ks fs

-- `sort_keys=True`: the items of every dict in the order of their keys.
abbrev insert_field : String → Value → Fields → Fields
insert_field k v end = field k v end
insert_field k v (field j w fs) = elim (compare k j) [
  | Ordering.gt ↦ field j w (insert_field k v fs)
  | _ ↦ field k v (field j w fs)
]

abbrev mutual
  pub sort_keys : Value → Value
  sort_keys null = null
  sort_keys (bool b) = bool b
  sort_keys (int n) = int n
  sort_keys (real s) = real s
  sort_keys (text s) = text s
  sort_keys (arr xs) = arr (sort_items xs)
  sort_keys (obj fs) = obj (sort_fields fs)

  sort_items : Items → Items
  sort_items nil = nil
  sort_items (item x xs) = item (sort_keys x) (sort_items xs)

  sort_fields : Fields → Fields
  sort_fields end = end
  sort_fields (field k v fs) = insert_field k (sort_keys v) (sort_fields fs)

-- No dict of the value holds a key twice, as is so of every Python value.
abbrev mutual
  pub has_distinct_keys : Value → Bool
  has_distinct_keys null = true
  has_distinct_keys (bool b) = true
  has_distinct_keys (int n) = true
  has_distinct_keys (real s) = true
  has_distinct_keys (text s) = true
  has_distinct_keys (arr xs) = distinct_items xs
  has_distinct_keys (obj fs) = distinct_fields fs

  distinct_items : Items → Bool
  distinct_items nil = true
  distinct_items (item x xs) = has_distinct_keys x && distinct_items xs

  distinct_fields : Fields → Bool
  distinct_fields end = true
  distinct_fields (field k v fs) = not (has_key k fs) && has_distinct_keys v && distinct_fields fs

-- `json.dumps(value, sort_keys=True)` and `json.loads`, over the texts of a column; `none` is a
-- `JSONDecodeError`.
pub record Codec (Text : Type 0) : Type 0 where
  pub dumps : Value → Text
  pub loads : Text → Option Value

-- What the code relies on: a value that was written is read back, with its keys in order.
pub record RoundTrips {Text : Type 0} (json : Codec Text) : Type 0 where
  pub loads-dumps :
      (v : Value) → has_distinct_keys v ≡ true → json.loads (json.dumps v) ≡ some (sort_keys v)

-- A codec with this property: its texts are values in order.
abbrev pub plain_codec : Codec Value
plain_codec = record { dumps = sort_keys; loads = some }

pub plain_codec-RoundTrips : RoundTrips plain_codec
plain_codec-RoundTrips = record { loads-dumps = λ v h. refl }
