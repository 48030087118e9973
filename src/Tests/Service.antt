-- ===== src/Tests/Service.antt =====
-- A key that the opened ledger does not use is retired.
use onceproof.Base.{◌≡◌, refl, All}
use onceproof.Model.Json.{Value, plain_codec, sort_keys}
use onceproof.Store.Maintenance.{hash_key_is_in_use}
use onceproof.Keyring.Payload.{Payload, serialized_payload}
use onceproof.Keyring.Ring.{Replacement, World, without_key, key_for}
use onceproof.Service.{retire_hash_key}
use onceproof.Service.Keys.{retire_hash_key-key_for}
use onceproof.Tests.Ledger.{play, opened}
use onceproof.Tests.Documents.{one_key, two_keys, open_ring}

abbrev held : Payload
held = record two_keys { current_kid = "hk_1" }

abbrev before : World Value
before = record { file = sort_keys (serialized_payload one_key held); memory = held }

abbrev after : World Value
after = (retire_hash_key plain_codec one_key opened "hk_2" Replacement.replaced before).1

retire_hash_key-key_for_example :
    (after.file ≡ plain_codec.dumps (serialized_payload one_key (without_key held "hk_2")))
    × All
        (λ c. key_for (without_key held "hk_2") c.hash_kid ≡ key_for held c.hash_kid)
        opened.credentials
    × All
        (λ p. key_for (without_key held "hk_2") p.hash_kid ≡ key_for held p.hash_kid)
        opened.proofs
unfolding open_ring play retire_hash_key hash_key_is_in_use
retire_hash_key-key_for_example =
    retire_hash_key-key_for plain_codec one_key opened "hk_2" Replacement.replaced before after refl
