-- ===== src/Model/RoundTrip.antt =====
-- What `to_dict` writes, `from_dict` reads back; and what `from_dict` accepts is well formed.
use onceproof.Base.{
  String, ◌<◌, ◌≡◌, ◌⊎◌, inl, inr, true, false, Option, none, some, ◌==◌, is_some, arith, eq_sound,
  eq_self, eq_iff,
}
use onceproof.Errors.{ok, >>=-eq_ok}
use onceproof.Model.Records.{ProofClaims, VerificationWitness, VerificationResult}
use onceproof.Model.Json.{Value, Fields, sort_keys, has_distinct_keys}
use onceproof.Model.Codec.{
  claims_to_dict, witness_to_dict, to_dict, claims_from_dict, witness_from_dict, from_dict,
  accepted_from_dict, rejected_from_dict, contains_reason, same_text_sound, expected_state, text_at,
  time_at, optional_text_at, optional_reason_at, checked_result, persisted_object, item_at,
}

abbrev NonEmpty : String → Type 0
NonEmpty s = (s == "") ≡ false

abbrev NonEmptyIfAny : Option String → Type 0
NonEmptyIfAny none = Unit
NonEmptyIfAny (some s) = NonEmpty s

abbrev KnownReason : Option String → Type 0
KnownReason none = Unit
KnownReason (some s) = contains_reason s ≡ true

-- Claims that a persisted result may carry.
pub record IsValidClaims (c : ProofClaims) : Type 0 where
  pub client : NonEmpty c.client_id
  pub subject : NonEmpty c.subject
  pub purpose : NonEmpty c.purpose
  pub audience : NonEmpty c.audience
  pub lifetime : c.issued_at < c.expires_at

pub record IsValidWitness (w : VerificationWitness) : Type 0 where
  pub state : NonEmpty w.state
  pub verification : NonEmpty w.verification_id
  pub tag : NonEmptyIfAny w.proof_tag
  pub client : NonEmptyIfAny w.client_id
  pub reason : KnownReason w.reason

pub claims_from-to :
    (c : ProofClaims) → IsValidClaims c → claims_from_dict (sort_keys (claims_to_dict c)) ≡ ok c
unfolding claims_from_dict claims_to_dict text_at time_at
claims_from-to c h = ground arith

pub witness_from-to :
    (w : VerificationWitness)
    → IsValidWitness w
    → witness_from_dict (sort_keys (witness_to_dict w)) ≡ ok w
unfolding witness_from_dict witness_to_dict text_at time_at optional_text_at optional_reason_at
witness_from-to w h = ground arith

text_at-NonEmpty : (fs : Fields) (k s : String) → text_at fs k ≡ ok s → NonEmpty s
unfolding text_at
text_at-NonEmpty fs k s h = ground arith

optional_text_at-NonEmpty :
    (fs : Fields) (k : String) (o : Option String) → optional_text_at fs k ≡ ok o → NonEmptyIfAny o
unfolding optional_text_at
optional_text_at-NonEmpty fs k o h = ground arith

optional_reason_at-KnownReason :
    (fs : Fields) (k : String) (o : Option String) → optional_reason_at fs k ≡ ok o → KnownReason o
unfolding optional_reason_at
optional_reason_at-KnownReason fs k o h = ground arith

pub claims_from_dict-IsValidClaims :
    (v : Value) (c : ProofClaims) → claims_from_dict v ≡ ok c → IsValidClaims c
unfolding claims_from_dict
claims_from_dict-IsValidClaims v c h = grind (arith, text_at-NonEmpty)

pub witness_from_dict-IsValidWitness :
    (v : Value) (w : VerificationWitness) → witness_from_dict v ≡ ok w → IsValidWitness w
unfolding witness_from_dict
witness_from_dict-IsValidWitness v w h =
    grind (arith, text_at-NonEmpty, optional_text_at-NonEmpty, optional_reason_at-KnownReason)

-- An accepted result: the one state, a tag, no reason, and the client of its claims.
pub record IsAccepted (r : VerificationResult) (c : ProofClaims) : Type 0 where
  pub verified : r.verified ≡ true
  pub claims : r.claims ≡ some c
  pub no_reason : r.reason ≡ none
  pub state : r.witness.state ≡ "verified_once"
  pub tagged : is_some r.witness.proof_tag ≡ true
  pub client : r.witness.client_id ≡ some c.client_id
  pub no_witness_reason : r.witness.reason ≡ none
  pub valid_claims : IsValidClaims c
  pub valid_witness : IsValidWitness r.witness

-- A rejection: no claims, one known reason, and the state that belongs to it.
pub record IsRejected (r : VerificationResult) (reason : String) : Type 0 where
  pub not_verified : r.verified ≡ false
  pub no_claims : r.claims ≡ none
  pub has_reason : r.reason ≡ some reason
  pub known : contains_reason reason ≡ true
  pub state : r.witness.state ≡ expected_state reason
  pub witness_reason : r.witness.reason ≡ some reason
  pub valid_witness : IsValidWitness r.witness

-- The results that the store may persist.
abbrev pub IsPersistable : VerificationResult → Type 0
IsPersistable r = ((c : ProofClaims) × IsAccepted r c) ⊎ ((reason : String) × IsRejected r reason)

accepted-to_dict :
    (r : VerificationResult) (c : ProofClaims)
    → IsAccepted r c
    → from_dict (sort_keys (to_dict r)) ≡ ok r
unfolding from_dict to_dict checked_result
accepted-to_dict r c h =
    simp
      (
        h.verified,
        h.claims,
        h.no_reason,
        claims_from-to c h.valid_claims,
        witness_from-to r.witness h.valid_witness,
      )
      (ground (arith, eq_self c.client_id, eq_iff r.witness.state "verified_once"))

rejected-to_dict :
    (r : VerificationResult) (reason : String)
    → IsRejected r reason
    → from_dict (sort_keys (to_dict r)) ≡ ok r
unfolding from_dict to_dict checked_result
rejected-to_dict r reason h =
    simp (h.not_verified, h.no_claims, h.has_reason, witness_from-to r.witness h.valid_witness)
      (ground (arith, eq_self reason, eq_self (expected_state reason)))

-- Every result that is well formed is read back as it was written, with its keys in order.
pub from_dict-to_dict :
    (r : VerificationResult) → IsPersistable r → from_dict (sort_keys (to_dict r)) ≡ ok r
from_dict-to_dict r (inl (c, h)) = accepted-to_dict r c h
from_dict-to_dict r (inr (reason, h)) = rejected-to_dict r reason h

accepted_from_dict-IsAccepted :
    (w : VerificationWitness) (reason claims : Value) (r : VerificationResult)
    → IsValidWitness w
    → accepted_from_dict w reason claims ≡ ok r
    → IsPersistable r
unfolding accepted_from_dict
accepted_from_dict-IsAccepted w reason claims r hw h =
    let (c, hc, rest) = >>=-eq_ok (claims_from_dict claims) _ h in
    inl (
      c,
      ground (
        arith,
        claims_from_dict-IsValidClaims claims c hc,
        same_text_sound w.client_id (some c.client_id),
        eq_sound w.state "verified_once",
      ),
    )

rejected_from_dict-IsRejected :
    (w : VerificationWitness) (reason claims : Value) (r : VerificationResult)
    → IsValidWitness w
    → rejected_from_dict w reason claims ≡ ok r
    → IsPersistable r
unfolding rejected_from_dict
rejected_from_dict-IsRejected w (Value.text reason) claims r hw h = inr (
  reason,
  ground (arith, same_text_sound w.reason (some reason), eq_sound w.state (expected_state reason)),
)
rejected_from_dict-IsRejected w _ claims r hw h = ground arith

checked_result-IsPersistable :
    (verified witness reason claims : Value) (r : VerificationResult)
    → checked_result verified witness reason claims ≡ ok r
    → IsPersistable r
unfolding checked_result
checked_result-IsPersistable (Value.bool true) witness reason claims r h =
    let (w, hw, rest) = >>=-eq_ok (witness_from_dict witness) _ h in
    accepted_from_dict-IsAccepted w reason claims r (witness_from_dict-IsValidWitness witness w hw)
      rest
checked_result-IsPersistable (Value.bool false) witness reason claims r h =
    let (w, hw, rest) = >>=-eq_ok (witness_from_dict witness) _ h in
    rejected_from_dict-IsRejected w reason claims r (witness_from_dict-IsValidWitness witness w hw)
      rest
checked_result-IsPersistable _ witness reason claims r h = cc

-- A result that `from_dict` returns, from any value, is well formed: either it is accepted, with
-- valid claims, a tag and the client of its claims, or it is a rejection with a known reason and the
-- state that belongs to it.
pub from_dict-IsPersistable :
    (v : Value) (r : VerificationResult) → from_dict v ≡ ok r → IsPersistable r
unfolding from_dict
from_dict-IsPersistable v r h =
    let (fs, _, h₁) = >>=-eq_ok (persisted_object v _) _ h in
    let (verified, _, h₂) = >>=-eq_ok (item_at fs "verified") _ h₁ in
    let (witness, _, h₃) = >>=-eq_ok (item_at fs "witness") _ h₂ in
    let (reason, _, h₄) = >>=-eq_ok (item_at fs "reason") _ h₃ in
    let (claims, _, h₅) = >>=-eq_ok (item_at fs "claims") _ h₄ in
    checked_result-IsPersistable verified witness reason claims r h₅

-- No key is written twice.
pub to_dict-has_distinct_keys : (r : VerificationResult) → has_distinct_keys (to_dict r) ≡ true
unfolding to_dict claims_to_dict witness_to_dict
to_dict-has_distinct_keys r = ground arith
