-- ===== src/Http/Handler/Responses.antt =====
-- The responses of src/onceproof/http.py: the body and the headers that a route adds, and the
-- response to an exception. The headers that `_json_response` gives to every response are left out.
use onceproof.Base.{ℕ, String, List, [], ◌∷◌, ◌==◌, starts_with, eqb, if◌then◌else◌}
use onceproof.Base.Int.{pos}
use onceproof.Errors.{
  rate_limited, store_corrupt, restore_required, permission_error, value_error, integrity_error,
}
use onceproof.Model.{ProofReceipt, IssuedProof}
use onceproof.Model.Json.{Value, text, int, obj, end, field}
use onceproof.Http.Headers.{Failure, request_error, raised}

pub data HeaderLine : Type 0 where
  -- `allow` and `www-authenticate` with a text, `retry-after` with a number
  allow www_authenticate : String → HeaderLine
  retry_after : ℕ → HeaderLine

pub record Response : Type 0 where
  pub status : ℕ
  pub body : Value
  pub extra_headers : List HeaderLine

abbrev pub response : ℕ → Value → List HeaderLine → Response
response status body headers = record { status = status; body = body; extra_headers = headers }

abbrev pub error_body : String → Value
error_body code = obj (field "error" (text code) end)

-- ProofReceipt.to_dict
abbrev receipt_to_dict : ProofReceipt → Value
receipt_to_dict r = obj (
    field "state" (text r.state) (
      field "proof_tag" (text r.proof_tag) (
        field "client_id" (text r.client_id) (
          field "subject" (text r.subject) (
            field "purpose" (text r.purpose) (
              field "audience" (text r.audience) (
                field "issued_at" (int (pos r.issued_at))
                  (field "expires_at" (int (pos r.expires_at)) end))))))))

-- IssuedProof.to_dict
unfoldable pub issued_to_dict : IssuedProof → Value
issued_to_dict p =
    obj (field "proof" (text p.proof) (field "receipt" (receipt_to_dict p.receipt) end))

abbrev pub challenge : List HeaderLine
challenge = www_authenticate "Bearer realm=\"onceproof\"" ∷ []

abbrev value_response : String → Response
value_response code =
    if code == "audience_not_allowed"
    then response 403 (error_body code) []
    else if code == "idempotency_conflict"
    then response 409 (error_body code) []
    else response 400 (error_body (if starts_with code "invalid_" then code else "invalid_request"))
        []

-- The `except` clauses of `_http`, in their order.
unfoldable pub error_response : Failure → Response
error_response (request_error status code) =
    response status (error_body code) (if eqb status 401 then challenge else [])
error_response (raised (permission_error m)) =
    response 401 (error_body "credential_rejected") challenge
error_response (raised (rate_limited n)) =
    response 429
      (obj (field "error" (text "rate_limited") (field "retry_after_seconds" (int (pos n)) end)))
      (retry_after n ∷ [])
error_response (raised (value_error code)) = value_response code
error_response (raised integrity_error) = response 503 (error_body "store_unavailable") []
error_response (raised restore_required) = response 503 (error_body "store_unavailable") []
error_response (raised store_corrupt) = response 503 (error_body "store_unavailable") []
error_response (raised _) = response 500 (error_body "internal_error") []
