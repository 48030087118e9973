-- ===== src/Tests/Documents.antt =====
-- A persisted result, and a keyring file.
use onceproof.Base.{ℕ, ◌==◌, if◌then◌else◌, ◌≡◌, refl, Bool, true, false, some, none, List, [], ◌∷◌}
use onceproof.Errors.{ok}
use onceproof.Model.Json.{Value, plain_codec, sort_keys}
use onceproof.Model.Codec.{to_dict, from_dict}
use onceproof.Model.RoundTrip.{IsPersistable, from_dict-to_dict, from_dict-IsPersistable}
use onceproof.Keyring.Payload.{
  Base64, Payload, rstrip, padding, byte_count, decode_key, has_kid, encode_key, encoded_keys,
  parse_keys, parse_fields, parse_payload, serialized_payload,
}
use onceproof.Keyring.Ring.{
  Replacement, World, put_last, same_bytes, holds, all_held, new_kid, read_payload,
  require_generation, replace_and_reload, is_used, with_new_key, without_key, rotate, retire,
}
use onceproof.Store.Tx.{◌>>=◌}
use onceproof.Base.{select}
use onceproof.Keyring.Shape.{IsKeyRing, read_payload-IsKeyRing}
use onceproof.Keyring.Lookup.{IsWithout, IsExtended, IsWritten}
use onceproof.Keyring.InStep.{IsInStep, retire-IsInStep, rotate-IsInStep}
use onceproof.Tests.Ledger.{answer}
use onceproof.Tests.Decisions.{answer-IsPersistable}

from_dict-to_dict_example : from_dict (sort_keys (to_dict answer)) ≡ ok answer
from_dict-to_dict_example = from_dict-to_dict answer answer-IsPersistable

from_dict-IsPersistable_example : IsPersistable answer
from_dict-IsPersistable_example =
    from_dict-IsPersistable (sort_keys (to_dict answer)) answer
      (from_dict-to_dict answer answer-IsPersistable)

abbrev zeros : List ℕ
zeros =
    0 ∷ 0 ∷ 0 ∷ 0 ∷ 0 ∷ 0 ∷ 0 ∷ 0 ∷ 0 ∷ 0 ∷ 0 ∷ 0 ∷ 0 ∷ 0 ∷ 0 ∷ 0 ∷ 0 ∷ 0 ∷ 0 ∷ 0 ∷ 0 ∷ 0 ∷ 0 ∷ 0
    ∷ 0 ∷ 0 ∷ 0 ∷ 0 ∷ 0 ∷ 0 ∷ 0 ∷ 0 ∷ []

-- An encoding that knows one key.
abbrev pub one_key : Base64
one_key = record {
  urlsafe_b64encode = λ bytes. "AAA=";
  b64decode = λ s. if s == "AAA=" then some zeros else none;
}

abbrev pub two_keys : Payload
two_keys = record {
  current_kid = "hk_2";
  keys = record { kid = "hk_1"; bytes = zeros } ∷ record { kid = "hk_2"; bytes = zeros } ∷ [];
}

abbrev world : World Value
world = record { file = sort_keys (serialized_payload one_key two_keys); memory = two_keys }

-- The operations of the keyring, open.
unfoldable pub open_ring : Value → Bool
unfolding rstrip padding byte_count encode_key decode_key encoded_keys serialized_payload parse_keys
    has_kid parse_fields parse_payload same_bytes holds all_held new_kid put_last read_payload
    require_generation replace_and_reload rotate retire select ◌>>=◌
open_ring v = true

read_payload-IsKeyRing_example : IsKeyRing two_keys
unfolding open_ring
read_payload-IsKeyRing_example = read_payload-IsKeyRing plain_codec one_key world.file two_keys refl

abbrev one_left : World Value
one_left = (retire plain_codec one_key "hk_1" (some (λ kid. false)) Replacement.replaced world).1

retire-IsInStep_example :
    (("hk_1" == "hk_2") ≡ false)
    × (has_kid "hk_1" two_keys.keys ≡ true)
    × (is_used (some (λ kid. false)) "hk_1" ≡ false)
    × (one_left.file ≡ plain_codec.dumps (serialized_payload one_key (without_key two_keys "hk_1")))
    × IsWithout "hk_1" two_keys (without_key two_keys "hk_1")
    × IsWritten one_key
        (serialized_payload one_key (without_key two_keys "hk_1"))
        (without_key two_keys "hk_1")
    × IsInStep plain_codec one_key one_left
unfolding open_ring
retire-IsInStep_example =
    retire-IsInStep plain_codec one_key "hk_1" (some (λ kid. false)) Replacement.replaced world
      one_left refl

abbrev three_keys : World Value
three_keys = (rotate plain_codec one_key ("hk_1" ∷ "hk_3" ∷ []) zeros Replacement.replaced world).1

rotate-IsInStep_example :
    (has_kid "hk_3" two_keys.keys ≡ false)
    × (three_keys.file
        ≡ plain_codec.dumps (serialized_payload one_key (with_new_key two_keys "hk_3" zeros)))
    × IsExtended "hk_3" zeros two_keys (with_new_key two_keys "hk_3" zeros)
    × IsWritten one_key
        (serialized_payload one_key (with_new_key two_keys "hk_3" zeros))
        (with_new_key two_keys "hk_3" zeros)
    × IsInStep plain_codec one_key three_keys
unfolding open_ring
rotate-IsInStep_example =
    rotate-IsInStep plain_codec one_key ("hk_1" ∷ "hk_3" ∷ []) zeros Replacement.replaced world
      three_keys "hk_3" refl
