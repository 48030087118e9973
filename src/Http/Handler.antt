-- ===== src/Http/Handler.antt =====
-- The routes of `OnceproofApp` (src/onceproof/http.py): `_http`, `_issue` and `_verify`, and the
-- fields of a response.
mod Responses
unfoldable pub use Responses.*
use onceproof.Base.{
  ℕ, String, Bool, true, false, not, ◌&&◌, ◌||◌, Option, none, some, List, [], ◌∷◌, ◌==◌, leb,
  if◌then◌else◌,
}
use onceproof.Base.Int.{pos}
use onceproof.Errors.{Error, Result, ok, err, permission_error}
use onceproof.Model.{IssuedProof, VerificationResult}
use onceproof.Model.Json.{Value, text, int, null, real, Fields, get}
use onceproof.Model.Codec.{to_dict}
use onceproof.Store.Tx.{Tx}
use onceproof.Store.Reports.{Connection}
use onceproof.Service.Runtime.{Library, Runtime, credential_is_accepted}
use onceproof.Service.Issue.{IssueArguments, IssueDraws, int_to, issue_proof}
use onceproof.Service.Verify.{VerifyArguments, VerifyDraws, verify_proof}
use onceproof.Service.Ready.{ready}
use onceproof.Http.Headers.{
  Failure, request_error, raised, Outcome, done, failed, Scope, Header, bearer_secret,
  idempotency_key, lowers_to,
}
use onceproof.Http.Body.{Wire, Message, read_json}

-- What the environment gives to one request: the messages, the readings of the clock and what the
-- service draws, and the connection of a readiness probe.
pub record Exchange : Type 0 where
  pub messages : List Message
  pub checked_at : ℕ
  pub issue : IssueDraws
  pub verify : VerifyDraws
  pub connection : Connection

-- A handler: it may raise, and the state comes back either way.
abbrev pub Http : Type 0 → Type 0 → Type 0
Http Text A = Runtime Text → Outcome A × Runtime Text

module _ {Text A : Type 0} where
  unfoldable pub pure : A → Http Text A
  pure a w = (done a, w)

  -- A step that reads no state.
  unfoldable pub from : Outcome A → Http Text A
  from o w = (o, w)

  abbrev pub outcome : Result A × Runtime Text → Outcome A × Runtime Text
  outcome (ok a, w) = (done a, w)
  outcome (err e, w) = (failed (raised e), w)

  -- A call of the service.
  unfoldable pub service : Tx (Runtime Text) A → Http Text A
  service m w = outcome (m w)

module _ {Text A B : Type 0} where
  abbrev pub continue : Outcome A × Runtime Text → (A → Http Text B) → Outcome B × Runtime Text
  continue (done a, w) f = f a w
  continue (failed e, w) f = (failed e, w)

  infixl 10 ◌>>=◌
  -- Opening the bind opens the steps above.
  unfoldable pub ◌>>=◌ : Http Text A → (A → Http Text B) → Http Text B
  unfolding pure from service
  ◌>>=◌ m f w = continue (m w) f

  infixl 10 ◌>>◌
  abbrev pub ◌>>◌ : Http Text A → Http Text B → Http Text B
  m >> k = m >>= λ _. k

abbrev pub issue_fields : List String
issue_fields = "subject" ∷ "purpose" ∷ "audience" ∷ "ttl_seconds" ∷ []

abbrev pub issue_required : List String
issue_required = "subject" ∷ "purpose" ∷ "audience" ∷ []

abbrev pub verify_fields : List String
verify_fields = "proof" ∷ "subject" ∷ "purpose" ∷ "audience" ∷ []

-- payload[key], for a key that the object was checked to have
abbrev pub item_of : String → Fields → Value
item_of k fs = or_null (get k fs)
  where
    or_null : Option Value → Value
    or_null none = null
    or_null (some v) = v

-- A float with no fraction is read as an int.
abbrev as_integer : Wire → Value → Value
as_integer wire (real s) = or_float (wire.integer s)
  where
    or_float : Option Value → Value
    or_float none = real s
    or_float (some v) = v
as_integer wire v = v

abbrev when_int : Value → Option ℕ → Outcome Value
when_int v none = failed (request_error 400 "invalid_ttl_seconds")
when_int v (some n) = done v

-- The argument ttl_seconds; None where the object has none.
abbrev pub ttl_of : Wire → Option Value → Outcome Value
ttl_of wire none = done null
ttl_of wire (some v) = when_int (as_integer wire v) (int_to 3600 (as_integer wire v))

abbrev pub key_value : Option String → Value
key_value none = null
key_value (some key) = text key

abbrev pub required_true : Bool → Outcome (Unit {0})
required_true true = done tt
required_true false = failed (raised (permission_error "credential_rejected"))

abbrev pub unless_reason : Option String → VerificationResult → Outcome VerificationResult
unless_reason none r = done r
unless_reason (some reason) r =
    if reason == "credential_rejected"
    then failed (raised (permission_error "credential_rejected"))
    else done r

abbrev unless_rejected : VerificationResult → Outcome VerificationResult
unless_rejected r = unless_reason r.reason r

module _ {Text : Type 0} (lib : Library Text) where
  -- The header's secret, which a credential of the role must have.
  unfoldable pub authenticated : String → Scope → ℕ → Http Text String
  unfolding ◌>>=◌ bearer_secret
  authenticated role scope now = do
    secret ← from (bearer_secret scope.headers)
    accepted ← service (λ w. (credential_is_accepted lib (text secret) role now w, w))
    from (required_true accepted)
    pure secret

module _ {Text : Type 0} (lib : Library Text) (wire : Wire) (limit : ℕ) where
  -- OnceproofApp._issue
  unfoldable pub issue : Scope → Exchange → Http Text Response
  unfolding authenticated read_json issue_proof
  issue scope x = do
    secret ← authenticated lib "issuance" scope x.checked_at
    payload ← from (read_json wire limit issue_fields issue_required scope.headers x.messages)
    ttl ← from (ttl_of wire (get "ttl_seconds" payload))
    issued ← service (
        issue_proof lib
          (record {
            issuance_secret = text secret;
            subject = item_of "subject" payload;
            purpose = item_of "purpose" payload;
            audience = item_of "audience" payload;
            ttl_seconds = ttl;
          })
          x.issue)
    pure (response 201 (issued_to_dict issued) [])

  -- OnceproofApp._verify
  unfoldable pub verify : Scope → Exchange → Http Text Response
  unfolding authenticated read_json idempotency_key verify_proof to_dict
  verify scope x = do
    secret ← authenticated lib "verification" scope x.checked_at
    key ← from (idempotency_key scope.headers)
    payload ← from (read_json wire limit verify_fields verify_fields scope.headers x.messages)
    result ← service (
        verify_proof lib
          (record {
            verification_secret = text secret;
            proof = item_of "proof" payload;
            purpose = item_of "purpose" payload;
            audience = item_of "audience" payload;
            subject = item_of "subject" payload;
            idempotency_key = key_value key;
          })
          x.verify)
    accepted ← from (unless_rejected result)
    pure (response 200 (to_dict accepted) [])
