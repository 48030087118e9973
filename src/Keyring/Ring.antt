-- ===== src/Keyring/Ring.antt =====
-- `class KeyRing`: the keys that a process holds beside the file that it read them from. The file
-- is replaced by a rename, whose outcome the file system decides.
use Prim.Native.String.{◌++◌}
use onceproof.Base.{
  ℕ, String, Bool, true, false, not, ◌&&◌, ◌||◌, Option, none, some, List, [], ◌∷◌, ◌==◌, eqb,
  if◌then◌else◌, select, find,
}
use onceproof.Errors.{Result, ok, err, value_error, key_error, commit_uncertain, os_error}
use onceproof.Model.Json.{Value, Items, nil, item, Fields, end, field, contains, Codec}
use onceproof.Store.Tx.{Tx, ◌>>=◌, ◌>>◌, gets, pure, raise_when, lift}
use onceproof.Keyring.Payload.{
  Base64, Key, Payload, kid_is, has_kid, serialized_payload, parse_payload,
}

-- What `_replace_atomically` comes to: the file is replaced; it is not, and an OSError is raised; or
-- it is replaced, and KeyringCommitUncertain is raised, since a sync failed.
pub data Replacement : Type 0 where
  replaced failed unsynced : Replacement

-- The file, and the fields `_current_kid` and `_keys`.
pub record World (Text : Type 0) : Type 0 where
  pub file : Text
  pub memory : Payload

unfoldable pub same_bytes : List ℕ → List ℕ → Bool
same_bytes [] [] = true
same_bytes (a ∷ as') (b ∷ bs) = eqb a b && same_bytes as' bs
same_bytes _ _ = false

-- Some key of the dict has this identifier and these bytes.
unfoldable pub holds : List Key → Key → Bool
unfolding same_bytes
holds [] k = false
holds (x ∷ xs) k = (x.kid == k.kid && same_bytes x.bytes k.bytes) || holds xs k

unfoldable pub all_held : List Key → List Key → Bool
unfolding holds
all_held [] other = true
all_held (k ∷ ks) other = holds other k && all_held ks other

-- Equality of dicts.
abbrev pub same_keys_held : List Key → List Key → Bool
same_keys_held a b = all_held a b && all_held b a

-- The first of the identifiers drawn that is not in use: the loop of `_new_kid`, for the draws that
-- it makes.
unfoldable pub new_kid : List Key → List String → Option String
new_kid keys [] = none
new_kid keys (d ∷ ds) = let rest = new_kid keys ds in if has_kid d keys then rest else some d

-- A key that occurs twice in a dict of the document; `object_pairs_hook` sees the inner dicts first.
abbrev or_first : Option String → Option String → Option String
or_first none b = b
or_first (some a) b = some a

abbrev repeated : List String → Fields → Option String
repeated seen end = none
repeated seen (field k v fs) =
    let rest = repeated (k ∷ seen) fs in if contains k seen then some k else rest

abbrev mutual
  pub duplicate : Value → Option String
  duplicate (Value.arr xs) = duplicate_items xs
  duplicate (Value.obj fs) = or_first (duplicate_fields fs) (repeated [] fs)
  duplicate _ = none

  duplicate_items : Items → Option String
  duplicate_items nil = none
  duplicate_items (item x xs) = or_first (duplicate x) (duplicate_items xs)

  duplicate_fields : Fields → Option String
  duplicate_fields end = none
  duplicate_fields (field k v fs) = or_first (duplicate v) (duplicate_fields fs)

-- `_object_without_duplicates`, over the whole document
abbrev without_duplicates : Value → Option String → Result Value
without_duplicates v none = ok v
without_duplicates v (some k) = err (value_error ("duplicate_keyring_field:" ++ k))

abbrev pub document : Option Value → Result Value
document none = err (value_error "unreadable_keyring")
document (some v) = without_duplicates v (duplicate v)

abbrev pub parsed : Base64 → Result Value → Result Payload
parsed b64 (ok v) = parse_payload b64 v
parsed b64 (err e) = err e

-- `_read_payload`, on the text of the file
unfoldable pub read_payload : {Text : Type 0} → Codec Text → Base64 → Text → Result Payload
read_payload json b64 t = parsed b64 (document (json.loads t))

abbrev pub has_changed : Payload → Payload → Bool
has_changed disk held =
    not (disk.current_kid == held.current_kid) || not (same_keys_held disk.keys held.keys)

abbrev pub key_bytes : Option Key → Option (List ℕ)
key_bytes none = none
key_bytes (some k) = some k.bytes

-- A new key of a dict comes last.
unfoldable pub put_last : Key → List Key → List Key
put_last k [] = k ∷ []
put_last k (x ∷ xs) = x ∷ put_last k xs

-- What `_replace_atomically` raised, once the file has been read again.
abbrev pub raised : Replacement → Result (Unit {0})
raised Replacement.replaced = ok tt
raised Replacement.failed = err os_error
raised Replacement.unsynced = err commit_uncertain

abbrev pub with_new_key : Payload → String → List ℕ → Payload
with_new_key p kid bytes = record {
  current_kid = kid;
  keys = put_last (record { kid = kid; bytes = bytes }) p.keys;
}

abbrev pub is_used : Option (String → Bool) → String → Bool
is_used none kid = false
is_used (some f) kid = f kid

abbrev pub without_key : Payload → String → Payload
without_key p kid = record p { keys = select (λ k. not (kid_is kid k)) p.keys }

module _ {Text : Type 0} (json : Codec Text) (b64 : Base64) where
  -- The check that opens `stable`, `rotate`, `retire` and `backup_with`.
  unfoldable pub require_generation : Tx (World Text) (Unit {0})
  require_generation = do
    disk ← lift (λ w. read_payload json b64 w.file)
    held ← gets (λ w. w.memory)
    raise_when (has_changed disk held) (value_error "keyring_changed_on_disk")

  -- The file after `_replace_atomically`.
  abbrev pub file_after : Replacement → Payload → Text → Text
  file_after Replacement.failed p t = t
  file_after _ p t = json.dumps (serialized_payload b64 p)

  abbrev pub reload : Replacement → World Text → Result Payload → Result (Unit {0}) × World Text
  reload outcome w (ok p) = (raised outcome, record w { memory = p })
  reload outcome w (err e) = (err commit_uncertain, w)

  -- KeyRing._replace_and_reload
  unfoldable pub replace_and_reload : Replacement → Payload → Tx (World Text) (Unit {0})
  replace_and_reload outcome p w =
      let w' : World Text = record w { file = file_after outcome p w.file } in
      reload outcome w' (read_payload json b64 w'.file)

  abbrev pub rotate_to :
      Replacement → List ℕ → Payload → Option String → Tx (World Text) (Option String)
  rotate_to outcome bytes p none = pure none
  rotate_to outcome bytes p (some kid) = do
    replace_and_reload outcome (with_new_key p kid bytes)
    pure (some kid)

  -- KeyRing.rotate, with the identifiers and the bytes that the random source gave; it is none while
  -- every identifier drawn so far is in use.
  unfoldable pub rotate : List String → List ℕ → Replacement → Tx (World Text) (Option String)
  rotate draws bytes outcome = do
    require_generation
    held ← gets (λ w. w.memory)
    rotate_to outcome bytes held (new_kid held.keys draws)

  -- KeyRing.retire
  unfoldable pub retire : String → Option (String → Bool) → Replacement → Tx (World Text) (Unit {0})
  retire kid in_use outcome = do
    require_generation
    held ← gets (λ w. w.memory)
    raise_when (kid == held.current_kid) (value_error "cannot_retire_current_key")
    raise_when (not (has_kid kid held.keys)) (key_error kid)
    raise_when (is_used in_use kid) (value_error "key_still_in_use")
    replace_and_reload outcome (without_key held kid)

-- KeyRing.key_for
unfoldable pub key_for : Payload → String → Option (List ℕ)
key_for p kid = key_bytes (find (kid_is kid) p.keys)

-- The key in use, which the dict of keys holds.
abbrev key_or_error : String → Option (List ℕ) → Result (List ℕ)
key_or_error kid none = err (key_error kid)
key_or_error kid (some key) = ok key

-- KeyRing.current_key
unfoldable pub current_key : Payload → Result (List ℕ)
unfolding key_for
current_key p = key_or_error p.current_kid (key_for p p.current_kid)
