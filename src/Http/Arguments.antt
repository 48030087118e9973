-- ===== src/Http/Arguments.antt =====
-- The arguments that `_verify` gives to the service.
use onceproof.Base.{ℕ, String, ◌≡◌, refl, arith, Option, none, some, List, ◌⊎◌, inl, inr}
use onceproof.Model.Json.{Value, text, null, Fields, get}
use onceproof.Service.Verify.{VerifyArguments}
use onceproof.Http.Headers.{done, Scope, idempotency_key}
use onceproof.Http.Body.{Message, Wire, read_json}
use onceproof.Http.Handler.{item_of, key_value, verify_fields}
use onceproof.Http.Parsed.{Parsed, get-has_key, read_json-Parsed}

-- What `_verify` hands to the service of a request: the items of the object in its body, and the
-- idempotency key of its header, or None.
pub record IsArgumentsOf (wire : Wire) (limit : ℕ) (scope : Scope) (messages : List Message)
    (secret : String) (args : VerifyArguments) : Type 0 where
  pub payload : Fields
  pub key : Option String
  pub body : Parsed wire limit verify_fields messages payload
  pub secret_of : args.verification_secret ≡ text secret
  pub proof : get "proof" payload ≡ some args.proof
  pub purpose : get "purpose" payload ≡ some args.purpose
  pub audience : get "audience" payload ≡ some args.audience
  pub subject : get "subject" payload ≡ some args.subject
  pub header : idempotency_key scope.headers ≡ done key
  pub key_of :
      ((key ≡ none) × (args.idempotency_key ≡ null))
      ⊎ ((k : String) × (key ≡ some k) × (args.idempotency_key ≡ text k))

item_of-get :
    (k : String) (fs : Fields)
    → ((v : Value) × (get k fs ≡ some v))
    → get k fs ≡ some (item_of k fs)
item_of-get k fs (v, found) = rw found refl

key_value-cases :
    (key : Option String)
    → ((key ≡ none) × (key_value key ≡ null))
      ⊎ ((k : String) × (key ≡ some k) × (key_value key ≡ text k))
key_value-cases none = inl (refl, refl)
key_value-cases (some k) = inr (k, refl, refl)

pub arguments-IsArgumentsOf :
    (wire : Wire) (limit : ℕ) (scope : Scope) (messages : List Message) (secret : String)
    (payload : Fields) (key : Option String)
    → read_json wire limit verify_fields verify_fields scope.headers messages ≡ done payload
    → idempotency_key scope.headers ≡ done key
    → IsArgumentsOf wire limit scope messages secret (record {
      verification_secret = text secret;
      proof = item_of "proof" payload;
      purpose = item_of "purpose" payload;
      audience = item_of "audience" payload;
      subject = item_of "subject" payload;
      idempotency_key = key_value key;
    })
arguments-IsArgumentsOf wire limit scope messages secret payload key read header =
    let parsed =
      read_json-Parsed wire limit verify_fields verify_fields scope.headers messages payload read in
    record {
      payload = payload;
      key = key;
      body = parsed;
      secret_of = refl;
      proof =
          item_of-get "proof" payload
            (get-has_key "proof" payload (ground (arith, parsed.present)));
      purpose =
          item_of-get "purpose" payload
            (get-has_key "purpose" payload (ground (arith, parsed.present)));
      audience =
          item_of-get "audience" payload
            (get-has_key "audience" payload (ground (arith, parsed.present)));
      subject =
          item_of-get "subject" payload
            (get-has_key "subject" payload (ground (arith, parsed.present)));
      header = header;
      key_of = key_value-cases key;
    }
