-- ===== src/Http/Parsed.antt =====
-- What a body that was read holds.
use onceproof.Base.{
  ℕ, String, ◌≡◌, refl, ap, sym, ◌∙◌, true, Bool-cases, inl, inr, some, List, [], ◌∷◌, ◌==◌, arith,
}
use onceproof.Model.Json.{Value, obj, Fields, end, field, get, has_key}
use onceproof.Http.Headers.{Outcome, done, failed, Header, all_present, strict_object}
use onceproof.Http.Body.{
  Loaded, loaded, undecodable, repeated_first, raises, Message, Wire, receive_body,
  distinct_document, object_in, parse_body, read_json,
}

pub get-has_key :
    (k : String) (fs : Fields) → has_key k fs ≡ true → (v : Value) × (get k fs ≡ some v)
get-has_key k end h = absurd (ground arith)
get-has_key k (field j v fs) h = elim (Bool-cases (j == k)) [
  | inl same ↦ (v, rw same refl)
  | inr other ↦ let (u, found) = get-has_key k fs (ground arith) in (u, rw other found)
]

strict_object-present :
    (v : Value) (allowed needed : List String) (fs : Fields)
    → strict_object v allowed needed ≡ done fs
    → (v ≡ obj fs) × (all_present needed fs ≡ true)
unfolding strict_object
strict_object-present (obj gs) allowed needed fs h =
    let same : gs ≡ fs = ground arith in
    (ap obj same, ap (all_present needed) (sym same) ∙ ground arith)
strict_object-present Value.null allowed needed fs h = absurd (ground arith)
strict_object-present (Value.bool b) allowed needed fs h = absurd (ground arith)
strict_object-present (Value.int i) allowed needed fs h = absurd (ground arith)
strict_object-present (Value.real r) allowed needed fs h = absurd (ground arith)
strict_object-present (Value.text s) allowed needed fs h = absurd (ground arith)
strict_object-present (Value.arr xs) allowed needed fs h = absurd (ground arith)

distinct_document-done : (o : Loaded) (v : Value) → distinct_document o ≡ done v → o ≡ loaded v
distinct_document-done undecodable v h = absurd (ground arith)
distinct_document-done repeated_first v h = absurd (ground arith)
distinct_document-done (raises e) v h = absurd (ground arith)
distinct_document-done (loaded u) v h = ground arith

object_in-done :
    (allowed needed : List String) (o : Outcome Value) (fs : Fields)
    → object_in allowed needed o ≡ done fs
    → (o ≡ done (obj fs)) × (all_present needed fs ≡ true)
object_in-done allowed needed (failed e) fs h = absurd (ground arith)
object_in-done allowed needed (done v) fs h =
    let (same, present) = strict_object-present v allowed needed fs h in (ap done same, present)

-- The body is the JSON text of an object that has all keys that were needed.
pub record Parsed (wire : Wire) (limit : ℕ) (needed : List String) (messages : List Message)
    (payload : Fields) : Type 0 where
  pub bytes : List ℕ
  pub received : receive_body limit [] messages ≡ done bytes
  pub read : wire.loads bytes ≡ loaded (obj payload)
  pub present : all_present needed payload ≡ true

parse_body-Parsed :
    (wire : Wire) (limit : ℕ) (allowed needed : List String) (messages : List Message) (fs : Fields)
    (o : Outcome (List ℕ))
    → receive_body limit [] messages ≡ o
    → parse_body wire allowed needed o ≡ done fs
    → Parsed wire limit needed messages fs
parse_body-Parsed wire limit allowed needed messages fs (failed e) r h = absurd (ground arith)
parse_body-Parsed wire limit allowed needed messages fs (done []) r h = absurd (ground arith)
parse_body-Parsed wire limit allowed needed messages fs (done (b ∷ bs)) r h =
    let (document, present) =
      object_in-done allowed needed (distinct_document (wire.loads (b ∷ bs))) fs h in
    record {
      bytes = b ∷ bs;
      received = r;
      read = distinct_document-done (wire.loads (b ∷ bs)) (obj fs) document;
      present = present;
    }

pub read_json-Parsed :
    (wire : Wire) (limit : ℕ) (allowed needed : List String) (headers : List Header)
    (messages : List Message) (fs : Fields)
    → read_json wire limit allowed needed headers messages ≡ done fs
    → Parsed wire limit needed messages fs
unfolding read_json
read_json-Parsed wire limit allowed needed headers messages fs h =
    parse_body-Parsed wire limit allowed needed messages fs (receive_body limit [] messages) refl
      (ground arith)
