-- ===== src/Keyring/InStep.antt =====
-- The keys in memory and the file stay in step.
use onceproof.Base.{
  ℕ, String, ◌≡◌, refl, ap, subst, Bool, true, false, Option, none, some, List, [], ◌∷◌, ◌==◌,
  arith,
}
use onceproof.Errors.{Result, ok, err}
use onceproof.Model.Json.{Codec}
use onceproof.Store.Tx.{◌>>=◌}
use onceproof.Store.Keeps.{>>=-eq_ok}
use onceproof.Keyring.Payload.{Base64, Key, Payload, has_kid, serialized_payload}
use onceproof.Keyring.Ring.{
  Replacement, World, new_kid, read_payload, require_generation, file_after, reload,
  replace_and_reload, with_new_key, rotate_to, rotate, is_used, without_key, retire,
}
use onceproof.Keyring.Lookup.{
  IsWithout, IsExtended, IsWritten, without_key-IsWithout, with_new_key-IsExtended,
  serialized_payload-IsWritten,
}

-- An identifier that is drawn for a new key is not in use.
new_kid-IsNew :
    (keys : List Key) (draws : List String) (kid : String)
    → new_kid keys draws ≡ some kid
    → has_kid kid keys ≡ false
unfolding new_kid
new_kid-IsNew keys [] kid h = cc
new_kid-IsNew keys (d ∷ ds) kid h = ground (arith, new_kid-IsNew keys ds kid)

module _ {Text : Type 0} (json : Codec Text) (b64 : Base64) where
  -- The process holds what the file says.
  abbrev pub IsInStep : World Text → Type 0
  IsInStep w = read_payload json b64 w.file ≡ ok w.memory

  generation_state : (w w' : World Text) → require_generation json b64 w ≡ (ok tt, w') → w' ≡ w
  unfolding require_generation ◌>>=◌
  generation_state w w' h = ground arith

  retire-steps :
      (kid : String) (in_use : Option (String → Bool)) (outcome : Replacement) (w w' : World Text)
      → retire json b64 kid in_use outcome w ≡ (ok tt, w')
      → ((kid == w.memory.current_kid) ≡ false)
        × (has_kid kid w.memory.keys ≡ true)
        × (is_used in_use kid ≡ false)
        × (replace_and_reload json b64 outcome (without_key w.memory kid) w ≡ (ok tt, w'))
  unfolding retire require_generation ◌>>=◌
  retire-steps kid in_use outcome w w' h = (ground arith, ground arith, ground arith, ground arith)

  by_outcome :
      (outcome : Replacement) (p : Payload) (w w' : World Text) (read : Result Payload)
      → read_payload json b64 (file_after json b64 outcome p w.file) ≡ read
      → reload json b64 outcome (record w { file = file_after json b64 outcome p w.file }) read
        ≡ (ok tt, w')
      → (outcome ≡ Replacement.replaced)
        × (w'.file ≡ json.dumps (serialized_payload b64 p))
        × IsInStep w'
  by_outcome Replacement.replaced p w w' (ok m) e h = (refl, ground arith, cc)
  by_outcome Replacement.failed p w w' (ok m) e h = cc
  by_outcome Replacement.unsynced p w w' (ok m) e h = cc
  by_outcome outcome p w w' (err x) e h = cc

  reloaded :
      (outcome : Replacement) (p : Payload) (w w' : World Text)
      → replace_and_reload json b64 outcome p w ≡ (ok tt, w')
      → (outcome ≡ Replacement.replaced)
        × (w'.file ≡ json.dumps (serialized_payload b64 p))
        × IsInStep w'
  unfolding replace_and_reload
  reloaded outcome p w w' h =
      by_outcome outcome p w w' (read_payload json b64 (file_after json b64 outcome p w.file)) refl
        h

  -- A key that is retired was not the current one, was held, and was not in use by the ledger. The file
  -- was written from a ring that has the same current key, no key under the identifier, and under
  -- every other identifier what was held; the document has its current key and each of its keys; and
  -- the process holds what the file says.
  pub retire-IsInStep :
      (kid : String) (in_use : Option (String → Bool)) (outcome : Replacement) (w w' : World Text)
      → retire json b64 kid in_use outcome w ≡ (ok tt, w')
      → ((kid == w.memory.current_kid) ≡ false)
        × (has_kid kid w.memory.keys ≡ true)
        × (is_used in_use kid ≡ false)
        × (w'.file ≡ json.dumps (serialized_payload b64 (without_key w.memory kid)))
        × IsWithout kid w.memory (without_key w.memory kid)
        × IsWritten b64
            (serialized_payload b64 (without_key w.memory kid))
            (without_key w.memory kid)
        × IsInStep w'
  retire-IsInStep kid in_use outcome w w' h =
      let (other, held, unused, rest) = retire-steps kid in_use outcome w w' h in
      let (_, file, step) = reloaded outcome (without_key w.memory kid) w w' rest in
      (
        other,
        held,
        unused,
        file,
        without_key-IsWithout kid w.memory,
        serialized_payload-IsWritten b64 (without_key w.memory kid),
        step,
      )

  rotate_to-steps :
      (outcome : Replacement) (bytes : List ℕ) (p : Payload) (o : Option String) (w w' : World Text)
      (kid : String)
      → rotate_to json b64 outcome bytes p o w ≡ (ok (some kid), w')
      → (o ≡ some kid)
        × (replace_and_reload json b64 outcome (with_new_key p kid bytes) w ≡ (ok tt, w'))
  unfolding ◌>>=◌
  rotate_to-steps outcome bytes p none w w' kid h = cc
  rotate_to-steps outcome bytes p (some d) w w' kid h =
      let (_, w₁, first, last) =
        >>=-eq_ok (replace_and_reload json b64 outcome (with_new_key p d bytes)) _ w h in
      let same : d ≡ kid = ground arith in
      let end_state : w₁ ≡ w' = ground arith in
      (
        ap some same,
        subst (λ x. replace_and_reload json b64 outcome (with_new_key p x bytes) w ≡ (ok tt, w'))
            same
            (subst
              (λ x. replace_and_reload json b64 outcome (with_new_key p d bytes) w ≡ (ok tt, x))
              end_state first),
      )

  rotate-steps :
      (draws : List String) (bytes : List ℕ) (outcome : Replacement) (w w' : World Text)
      (kid : String)
      → rotate json b64 draws bytes outcome w ≡ (ok (some kid), w')
      → rotate_to json b64 outcome bytes w.memory (new_kid w.memory.keys draws) w
        ≡ (ok (some kid), w')
  unfolding rotate require_generation ◌>>=◌
  rotate-steps draws bytes outcome w w' kid h = ground arith

  -- A rotation that returns an identifier has drawn one that was not in use. The file was written from
  -- a ring whose current key is the new one, which has the bytes that were drawn, and which has under
  -- every other identifier what was held; the document has its current key and each of its keys; and
  -- the process holds what the file says.
  pub rotate-IsInStep :
      (draws : List String) (bytes : List ℕ) (outcome : Replacement) (w w' : World Text)
      (kid : String)
      → rotate json b64 draws bytes outcome w ≡ (ok (some kid), w')
      → (has_kid kid w.memory.keys ≡ false)
        × (w'.file ≡ json.dumps (serialized_payload b64 (with_new_key w.memory kid bytes)))
        × IsExtended kid bytes w.memory (with_new_key w.memory kid bytes)
        × IsWritten b64
            (serialized_payload b64 (with_new_key w.memory kid bytes))
            (with_new_key w.memory kid bytes)
        × IsInStep w'
  rotate-IsInStep draws bytes outcome w w' kid h =
      let (drawn, rest) =
        rotate_to-steps outcome bytes w.memory _ w w' kid
          (rotate-steps draws bytes outcome w w' kid h) in
      let (_, file, step) = reloaded outcome (with_new_key w.memory kid bytes) w w' rest in
      let free = new_kid-IsNew w.memory.keys draws kid drawn in
      (
        free,
        file,
        with_new_key-IsExtended kid bytes w.memory free,
        serialized_payload-IsWritten b64 (with_new_key w.memory kid bytes),
        step,
      )
