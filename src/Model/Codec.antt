-- ===== src/Model/Codec.antt =====
-- `to_dict` and `from_dict` of src/onceproof/model.py.
use onceproof.Base.{
  ℕ, String, Bool, true, false, Option, none, some, List, [], ◌∷◌, ◌==◌, ◌||◌, not, leb,
  if◌then◌else◌, is_some, is_none, ◌≡◌, refl, ap, eq_sound,
}
use onceproof.Base.Int.{pos}
use onceproof.Errors.{
  Error, Result, ok, err, raise_if, value_error, type_error, key_error, ◌>>=◌, ◌>>◌,
}
use onceproof.Model.Records.{ProofClaims, VerificationWitness, VerificationResult}
use onceproof.Model.Json.{
  Value, null, bool, int, text, arr, obj, Fields, end, field, get, contains, same_keys,
}

abbrev claim_fields : List String
claim_fields = "client_id" ∷ "subject" ∷ "purpose" ∷ "audience" ∷ "issued_at" ∷ "expires_at" ∷ []

abbrev witness_fields : List String
witness_fields =
    "state" ∷ "verification_id" ∷ "proof_tag" ∷ "client_id" ∷ "decided_at" ∷ "reason" ∷ []

abbrev result_fields : List String
result_fields = "verified" ∷ "reason" ∷ "witness" ∷ "claims" ∷ []

abbrev pub rejection_reasons : List String
rejection_reasons =
    "credential_rejected" ∷ "invalid" ∷ "expired" ∷ "already_consumed" ∷ "binding_mismatch" ∷ []

unfoldable pub contains_reason : String → Bool
contains_reason s = contains s rejection_reasons

-- ValueError("invalid_persisted_verification")
abbrev pub invalid_persisted : Error
invalid_persisted = value_error "invalid_persisted_verification"

abbrev text_or_null : Option String → Value
text_or_null none = null
text_or_null (some s) = text s

-- ProofClaims.to_dict
unfoldable pub claims_to_dict : ProofClaims → Value
claims_to_dict c = obj (
    field "client_id" (text c.client_id) (
      field "subject" (text c.subject) (
        field "purpose" (text c.purpose) (
          field "audience" (text c.audience) (
            field "issued_at" (int (pos c.issued_at))
              (field "expires_at" (int (pos c.expires_at)) end))))))

abbrev claims_or_null : Option ProofClaims → Value
claims_or_null none = null
claims_or_null (some c) = claims_to_dict c

-- VerificationWitness.to_dict
unfoldable pub witness_to_dict : VerificationWitness → Value
witness_to_dict w = obj (
    field "state" (text w.state) (
      field "verification_id" (text w.verification_id) (
        field "proof_tag" (text_or_null w.proof_tag) (
          field "client_id" (text_or_null w.client_id) (
            field "decided_at" (int (pos w.decided_at))
              (field "reason" (text_or_null w.reason) end))))))

-- VerificationResult.to_dict
unfoldable pub to_dict : VerificationResult → Value
to_dict r = obj (
    field "verified" (bool r.verified) (
      field "reason" (text_or_null r.reason) (
        field "witness" (witness_to_dict r.witness)
          (field "claims" (claims_or_null r.claims) end))))

unfoldable pub persisted_object : Value → List String → Result Fields
persisted_object (obj fs) keys = if same_keys fs keys then ok fs else err invalid_persisted
persisted_object _ keys = err invalid_persisted

unfoldable pub persisted_text : Value → Result String
persisted_text (text s) = if s == "" then err invalid_persisted else ok s
persisted_text _ = err invalid_persisted

unfoldable pub persisted_time : Value → Result ℕ
persisted_time (int (pos n)) = ok n
persisted_time _ = err invalid_persisted

-- `record[key]`
unfoldable pub item_at : Fields → String → Result Value
item_at fs k = elim (get k fs) [ none ↦ err (key_error k) | some v ↦ ok v ]

-- `proof_tag` and `client_id` of a witness: None or a text that is not empty.
unfoldable pub optional_text : Value → Result (Option String)
optional_text null = ok none
optional_text (text s) = if s == "" then err invalid_persisted else ok (some s)
optional_text _ = err invalid_persisted

-- `value in _REJECTION_REASONS`; a list or a dict has no hash.
unfoldable pub is_rejection_reason : Value → Result Bool
is_rejection_reason (text s) = ok (contains_reason s)
is_rejection_reason (arr xs) = err type_error
is_rejection_reason (obj fs) = err type_error
is_rejection_reason _ = ok false

-- The `reason` of a witness: None or one of the rejection reasons.
unfoldable pub optional_reason : Value → Result (Option String)
unfolding is_rejection_reason
optional_reason null = ok none
optional_reason (text s) = if contains_reason s then ok (some s) else err invalid_persisted
optional_reason v = do known ← is_rejection_reason v; err invalid_persisted

-- `_persisted_text(record[key])` and so on: the key is there, once `persisted_object` has passed.
unfoldable pub text_at : Fields → String → Result String
unfolding item_at persisted_text
text_at fs k = do v ← item_at fs k; persisted_text v

unfoldable pub time_at : Fields → String → Result ℕ
unfolding item_at persisted_time
time_at fs k = do v ← item_at fs k; persisted_time v

unfoldable pub optional_text_at : Fields → String → Result (Option String)
unfolding item_at optional_text
optional_text_at fs k = do v ← item_at fs k; optional_text v

unfoldable pub optional_reason_at : Fields → String → Result (Option String)
unfolding item_at optional_reason
optional_reason_at fs k = do v ← item_at fs k; optional_reason v

-- ProofClaims.from_dict
unfoldable pub claims_from_dict : Value → Result ProofClaims
unfolding persisted_object
claims_from_dict value = do
  fs ← persisted_object value claim_fields
  issued_at ← time_at fs "issued_at"
  expires_at ← time_at fs "expires_at"
  raise_if (leb expires_at issued_at) invalid_persisted
  client_id ← text_at fs "client_id"
  subject ← text_at fs "subject"
  purpose ← text_at fs "purpose"
  audience ← text_at fs "audience"
  ok (record {
    client_id = client_id;
    subject = subject;
    purpose = purpose;
    audience = audience;
    issued_at = issued_at;
    expires_at = expires_at;
  })

-- VerificationWitness.from_dict
unfoldable pub witness_from_dict : Value → Result VerificationWitness
unfolding persisted_object
witness_from_dict value = do
  fs ← persisted_object value witness_fields
  proof_tag ← optional_text_at fs "proof_tag"
  client_id ← optional_text_at fs "client_id"
  reason ← optional_reason_at fs "reason"
  state ← text_at fs "state"
  verification_id ← text_at fs "verification_id"
  decided_at ← time_at fs "decided_at"
  ok (record {
    state = state;
    verification_id = verification_id;
    proof_tag = proof_tag;
    client_id = client_id;
    decided_at = decided_at;
    reason = reason;
  })

abbrev pub same_text : Option String → Option String → Bool
same_text none none = true
same_text (some a) (some b) = a == b
same_text _ _ = false

-- The state that a rejection with this reason has.
unfoldable pub expected_state : String → String
expected_state reason = if reason == "already_consumed" then "replay_rejected" else "rejected"

abbrev is_null : Value → Bool
is_null null = true
is_null _ = false

-- The checks on a result that says it was verified.
unfoldable pub accepted_from_dict : VerificationWitness → Value → Value → Result VerificationResult
accepted_from_dict witness reason claims_value = do
  claims ← claims_from_dict claims_value
  raise_if
      (not (is_null reason)
        || not (witness.state == "verified_once")
        || is_some witness.reason
        || is_none witness.proof_tag
        || not (same_text witness.client_id (some claims.client_id)))
      invalid_persisted
  ok (record { verified = true; reason = none; witness = witness; claims = some claims })

-- The checks on a rejection, for a reason that is a text.
abbrev rejected_with : VerificationWitness → String → Value → Result VerificationResult
rejected_with witness reason claims_value = do
  raise_if
      (not (contains_reason reason)
        || not (is_null claims_value)
        || not (same_text witness.reason (some reason)))
      invalid_persisted
  raise_if (not (witness.state == expected_state reason)) invalid_persisted
  ok (record { verified = false; reason = some reason; witness = witness; claims = none })

-- The checks on a result that says it was not verified.
unfoldable pub rejected_from_dict : VerificationWitness → Value → Value → Result VerificationResult
unfolding is_rejection_reason
rejected_from_dict witness (text reason) claims_value = rejected_with witness reason claims_value
rejected_from_dict witness value claims_value = do
  known ← is_rejection_reason value
  err invalid_persisted

-- The rest of `VerificationResult.from_dict`, by the value of `verified`.
unfoldable pub checked_result : Value → Value → Value → Value → Result VerificationResult
unfolding accepted_from_dict rejected_from_dict
checked_result (bool true) witness_value reason claims_value = do
  witness ← witness_from_dict witness_value
  accepted_from_dict witness reason claims_value
checked_result (bool false) witness_value reason claims_value = do
  witness ← witness_from_dict witness_value
  rejected_from_dict witness reason claims_value
checked_result _ witness_value reason claims_value = err invalid_persisted

-- VerificationResult.from_dict
unfoldable pub from_dict : Value → Result VerificationResult
unfolding persisted_object item_at
from_dict value = do
  fs ← persisted_object value result_fields
  verified_value ← item_at fs "verified"
  witness_value ← item_at fs "witness"
  reason ← item_at fs "reason"
  claims_value ← item_at fs "claims"
  checked_result verified_value witness_value reason claims_value

pub same_text_sound : (a b : Option String) → same_text a b ≡ true → a ≡ b
same_text_sound none none h = refl
same_text_sound none (some b) h = cc
same_text_sound (some a) none h = cc
same_text_sound (some a) (some b) h = ap some (eq_sound a b h)
