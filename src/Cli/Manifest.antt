-- ===== src/Cli/Manifest.antt =====
-- What a manifest of a backup that was accepted holds.
use onceproof.Base.{String, ◌≡◌, refl, ap, ◌∙◌, arith, Option, none, some, eq_sound}
use onceproof.Errors.{ok, ◌>>=◌, >>=-eq_ok}
use onceproof.Model.Json.{Value, text, obj, Fields, get, Codec}
use onceproof.Keyring.Ring.{duplicate}
use onceproof.Cli.Backup.{
  distinct_manifest, parsed_manifest, read_manifest, manifest_fields, named_digest, entry_digest,
}

named_digest-some :
    (expected : String) (name sha : Option Value) (digest : String)
    → named_digest expected name sha ≡ some digest
    → (name ≡ some (text expected)) × (sha ≡ some (text digest))
named_digest-some expected (some (text n)) (some (text s)) digest h =
    (ap (λ x. some (text x)) (eq_sound n expected (ground arith)), ground arith)
named_digest-some expected none sha digest h = absurd (ground arith)
named_digest-some expected (some (text n)) none digest h = absurd (ground arith)
named_digest-some expected (some (text n)) (some Value.null) digest h = absurd (ground arith)
named_digest-some expected (some (text n)) (some (Value.bool b)) digest h = absurd (ground arith)
named_digest-some expected (some (text n)) (some (Value.int i)) digest h = absurd (ground arith)
named_digest-some expected (some (text n)) (some (Value.real r)) digest h = absurd (ground arith)
named_digest-some expected (some (text n)) (some (Value.arr xs)) digest h = absurd (ground arith)
named_digest-some expected (some (text n)) (some (Value.obj gs)) digest h = absurd (ground arith)
named_digest-some expected (some Value.null) sha digest h = absurd (ground arith)
named_digest-some expected (some (Value.bool b)) sha digest h = absurd (ground arith)
named_digest-some expected (some (Value.int i)) sha digest h = absurd (ground arith)
named_digest-some expected (some (Value.real r)) sha digest h = absurd (ground arith)
named_digest-some expected (some (Value.arr xs)) sha digest h = absurd (ground arith)
named_digest-some expected (some (Value.obj gs)) sha digest h = absurd (ground arith)

pub entry_digest-some :
    (expected : String) (o : Option Value) (digest : String)
    → entry_digest expected o ≡ some digest
    → (entry : Fields) × (o ≡ some (obj entry))
      × (get "name" entry ≡ some (text expected))
      × (get "sha256" entry ≡ some (text digest))
entry_digest-some expected (some (obj fs)) digest h =
    let (name, sha) =
      named_digest-some expected (get "name" fs) (get "sha256" fs) digest (ground arith) in
    (fs, refl, name, sha)
entry_digest-some expected none digest h = absurd (ground arith)
entry_digest-some expected (some Value.null) digest h = absurd (ground arith)
entry_digest-some expected (some (Value.bool b)) digest h = absurd (ground arith)
entry_digest-some expected (some (Value.int i)) digest h = absurd (ground arith)
entry_digest-some expected (some (Value.real r)) digest h = absurd (ground arith)
entry_digest-some expected (some (Value.arr xs)) digest h = absurd (ground arith)
entry_digest-some expected (some (Value.text s)) digest h = absurd (ground arith)

distinct_manifest-ok : (u v : Value) (d : Option String) → distinct_manifest u d ≡ ok v → u ≡ v
distinct_manifest-ok u v none h = ground arith
distinct_manifest-ok u v (some k) h = absurd (ground arith)

parsed_manifest-ok : (o : Option Value) (v : Value) → parsed_manifest o ≡ ok v → o ≡ some v
parsed_manifest-ok none v h = absurd (ground arith)
parsed_manifest-ok (some u) v h = ap some (distinct_manifest-ok u v (duplicate u) h)

manifest_fields-ok : (v : Value) (fs : Fields) → manifest_fields v ≡ ok fs → v ≡ obj fs
manifest_fields-ok (obj gs) fs h = ground arith
manifest_fields-ok Value.null fs h = absurd (ground arith)
manifest_fields-ok (Value.bool b) fs h = absurd (ground arith)
manifest_fields-ok (Value.int i) fs h = absurd (ground arith)
manifest_fields-ok (Value.real r) fs h = absurd (ground arith)
manifest_fields-ok (Value.arr xs) fs h = absurd (ground arith)
manifest_fields-ok (Value.text s) fs h = absurd (ground arith)

-- The text of a manifest that was read, and the object in it.
pub read_manifest-loads :
    {Text : Type 0} (json : Codec Text) (o : Option Text) (manifest : Fields)
    → (read_manifest json o >>= manifest_fields) ≡ ok manifest
    → (t : Text) × (o ≡ some t) × (json.loads t ≡ some (obj manifest))
read_manifest-loads json none manifest h = absurd (ground arith)
read_manifest-loads json (some t) manifest h =
    let (v, read, fields) = >>=-eq_ok (parsed_manifest (json.loads t)) manifest_fields h in
    (
      t,
      refl,
      parsed_manifest-ok (json.loads t) v read ∙ ap some (manifest_fields-ok v manifest fields),
    )
