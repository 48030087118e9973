-- ===== src/Service/Clients.antt =====
-- `OnceproofService.create_client` of src/onceproof/service.py.
use Prim.Native.String.{◌++◌}
use onceproof.Base.{ℕ, String, Option, none, some, List, [], ◌∷◌, if◌then◌else◌}
use onceproof.Errors.{Result, ok, err, value_error, map_ok}
use onceproof.Model.Json.{Value, contains}
use onceproof.Store.Tx.{Tx, ◌>>=◌, ◌>>◌, gets, pure}
use onceproof.Store.Rows.{issuance, verification, CredentialRecord}
use onceproof.Store.Clients as Ledger
use onceproof.Store.Clients.{NewClient}
use onceproof.Keyring.Ring.{current_key, require_generation}
use onceproof.Crypto.{key_check}
use onceproof.Service.Secrets.{CredentialDraw, new_credential}
use onceproof.Service.Inputs.{checked_text, checked_audience}
use onceproof.Service.Issue.{int_to}
use onceproof.Service.Runtime.{Library, Runtime, returning, on_database, on_ring}

-- The records of src/onceproof/model.py that a caller is given.
pub record ClientCredentials : Type 0 where
  pub client_id : String
  pub issuance_credential_id : String
  pub issuance_secret : String
  pub verification_credential_id : String
  pub verification_secret : String

-- `credential_sink`, by what it returns or raises.
abbrev pub Sink : Type 0 → Type 0
Sink Credentials = Option (Credentials → Result (Unit {0}))

abbrev pub hand_over : {C S : Type 0} → Sink C → C → Tx S (Unit {0})
hand_over none c = pure tt
hand_over (some sink) c = returning (sink c)

pub record ClientArguments : Type 0 where
  pub name : Value
  pub allowed_audiences : List Value
  pub proof_ttl_seconds : Value
  pub issue_limit_per_minute : Value
  pub verify_limit_per_minute : Value

-- What the call draws and reads of the clock; `client_hex` is token_hex(12).
pub record ClientDraws : Type 0 where
  pub client_hex : String
  pub issuance : CredentialDraw
  pub verification : CredentialDraw
  pub now : ℕ
  pub event_id : String

abbrev add_audience : List String → String → Result (List String) → Result (List String)
add_audience seen a rest = if contains a seen then rest else map_ok (λ as'. a ∷ as') rest

abbrev and_then : {A B : Type 0} → Result A → (A → Result B) → Result B
and_then (ok a) f = f a
and_then (err e) f = err e

-- tuple(dict.fromkeys(_audience(value) for value in allowed_audiences)): each once, in order
unfoldable pub distinct_audiences : List String → List Value → Result (List String)
unfolding checked_audience
distinct_audiences seen [] = ok []
distinct_audiences seen (v ∷ vs) =
    and_then (checked_audience v) (λ a. add_audience seen a (distinct_audiences (a ∷ seen) vs))

abbrev checked_audiences : List Value → Result (List String)
checked_audiences [] = err (value_error "invalid_allowed_audiences")
checked_audiences (v ∷ vs) = distinct_audiences [] (v ∷ vs)

abbrev or_value_error : String → Option ℕ → Result ℕ
or_value_error name none = err (value_error ("invalid_" ++ name))
or_value_error name (some n) = ok n

-- The checks on an int argument, from 1 to a bound.
abbrev pub checked_int : String → ℕ → Value → Result ℕ
checked_int name maximum value = or_value_error name (int_to maximum value)

-- What passed the checks of `create_client`.
pub record ClientInput : Type 0 where
  pub name : String
  pub audiences : List String
  pub proof_ttl_seconds : ℕ
  pub issue_limit_per_minute : ℕ
  pub verify_limit_per_minute : ℕ

abbrev pub new_client :
    ClientInput → String → CredentialRecord → CredentialRecord → String → NewClient
new_client input client_id issuing verifying check = record {
  client_id = client_id;
  name = input.name;
  allowed_audiences = input.audiences;
  proof_ttl_seconds = input.proof_ttl_seconds;
  issue_limit_per_minute = input.issue_limit_per_minute;
  verify_limit_per_minute = input.verify_limit_per_minute;
  issuance_credential = issuing;
  verification_credential = verifying;
  hash_key_check = check;
}

abbrev pub client_credentials :
    String → CredentialRecord × String → CredentialRecord × String → ClientCredentials
client_credentials client_id issuing verifying = record {
  client_id = client_id;
  issuance_credential_id = issuing.0.credential_id;
  issuance_secret = issuing.1;
  verification_credential_id = verifying.0.credential_id;
  verification_secret = verifying.1;
}

module _ {Text : Type 0} where
  unfoldable pub client_input : ClientArguments → Tx (Runtime Text) ClientInput
  unfolding checked_text distinct_audiences
  client_input args = do
    name ← returning (checked_text args.name "name" 128)
    audiences ← returning (checked_audiences args.allowed_audiences)
    ttl ← returning (checked_int "proof_ttl_seconds" 3600 args.proof_ttl_seconds)
    issue ← returning (checked_int "issue_limit_per_minute" 100000 args.issue_limit_per_minute)
    verify ← returning (checked_int "verify_limit_per_minute" 100000 args.verify_limit_per_minute)
    pure (record {
      name = name;
      audiences = audiences;
      proof_ttl_seconds = ttl;
      issue_limit_per_minute = issue;
      verify_limit_per_minute = verify;
    })

module _ {Text : Type 0} (lib : Library Text) where
  -- The part of `create_client` under the keyring's lock.
  unfoldable pub register :
      ClientInput → Sink ClientCredentials → ClientDraws → Tx (Runtime Text) ClientCredentials
  unfolding on_database on_ring new_credential current_key key_check
  register input sink draws = do
    on_ring (require_generation lib.json lib.base64)
    let client_id = "opc_" ++ draws.client_hex
    p ← gets (λ w. w.ring.memory)
    issuing ← returning (new_credential lib.hashing issuance client_id p draws.issuance)
    verifying ← returning (new_credential lib.hashing verification client_id p draws.verification)
    let credentials = client_credentials client_id issuing verifying
    hand_over sink credentials
    root_key ← returning (current_key p)
    check ← returning (key_check lib.hashing root_key)
    on_database (
        Ledger.create_client lib.json (new_client input client_id issuing.0 verifying.0 check)
          draws.now draws.event_id)
    pure credentials

  -- OnceproofService.create_client
  unfoldable pub create_client :
      ClientArguments → Sink ClientCredentials → ClientDraws → Tx (Runtime Text) ClientCredentials
  create_client args sink draws = do input ← client_input args; register input sink draws
