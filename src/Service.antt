-- ===== src/Service.antt =====
-- `class OnceproofService` of src/onceproof/service.py, where the ledger and the keyring meet:
-- `retire_hash_key`.
pub mod Keys
pub mod KeysHeld
pub mod Secrets
pub mod Inputs
pub mod Runtime
pub mod Issue
pub mod Verify
pub mod Clients
pub mod Upkeep
pub mod Ready
pub mod SecretNames
pub mod Authentication
pub mod Frames
pub mod Verified
pub mod Issuing
pub mod Redeemable
pub mod EndToEnd
pub mod Minted
pub mod Registered
use onceproof.Base.{String, some}
use onceproof.Model.Json.{Codec}
use onceproof.Store.Tx.{Tx}
use onceproof.Store.Rows.{Database}
use onceproof.Store.Maintenance.{hash_key_is_in_use}
use onceproof.Keyring.Payload.{Base64}
use onceproof.Keyring.Ring.{Replacement, World, retire}

-- OnceproofService.retire_hash_key, on the ledger that `hash_key_is_in_use` reads
unfoldable pub retire_hash_key :
    {Text : Type 0}
    → Codec Text
    → Base64
    → Database Text
    → String
    → Replacement
    → Tx (World Text) (Unit {0})
retire_hash_key json b64 db kid outcome =
    retire json b64 kid (some (λ k. hash_key_is_in_use k db)) outcome
