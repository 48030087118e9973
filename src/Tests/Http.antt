-- ===== src/Tests/Http.antt =====
-- Requests to the registered client's service.
use onceproof.Base.{
  String, ◌≡◌, ◌≢◌, refl, arith, Bool, true, false, none, some, List, [], ◌∷◌, ◌++◌,
}
use onceproof.Errors.{ok}
use onceproof.Model.{VerificationResult}
use onceproof.Model.Json.{Value, text, obj, end, field}
use onceproof.Model.Codec.{to_dict}
use onceproof.Service.Runtime.{Runtime, credential_is_accepted}
use onceproof.Service.Verify.{VerifyArguments, verify_proof}
use onceproof.Keyring.Payload.{byte_count}
use onceproof.Keyring.Ring.{same_bytes}
use onceproof.Http.Headers.{
  Scope, done, failed, request_error, bearer_secret, header_values, partition_space, lstrip_spaces,
  lowers_to, idempotency_key, content_type_is_json, strict_object,
}
use onceproof.Http.Body.{loaded, Wire, Message, receive_body, read_json}
use onceproof.Http.Handler.{Exchange, response, authenticated, issue, verify, error_response, ◌>>=◌}
use onceproof.Http.Routes.{http, route, serve_route}
use onceproof.Http.Unauthenticated.{not_accepted, unauthorized, http-Unauthenticated}
use onceproof.Http.Arguments.{IsArgumentsOf}
use onceproof.Http.Answers.{verify-verify_proof}
use onceproof.Http.Challenge.{IsFaithful, http-IsFaithful}
use onceproof.Http.InFlight.{Serving, here, then_step, begins, arrive}
use onceproof.Http.Bounded.{idle, IsCounted, Reaches-IsCounted}
use onceproof.Http.Framing.{all_bytes, receive_body-decided}
use onceproof.Tests.Shop.{lib, serve, issued, issue_draws}
use onceproof.Tests.Calls.{verify_draws, answer}

-- The operations of the boundary, open.
unfoldable pub exchange : Value → Bool
unfolding serve header_values partition_space lstrip_spaces lowers_to bearer_secret idempotency_key
    content_type_is_json strict_object receive_body read_json authenticated issue verify
    error_response http route serve_route byte_count same_bytes ◌>>=◌
exchange v = true

abbrev document : Value
document = obj (
    field "proof" (text "op1.hk_1.cc") (
      field "subject" (text "user")
        (field "purpose" (text "login") (field "audience" (text "urn:shop") end))))

abbrev wire : Wire
wire = record { loads = λ bytes. loaded document; integer = λ s. none }

abbrev post : String → Scope
post secret = record {
  method = "POST";
  path = "/v1/verifications";
  query_string = "";
  headers =
      record { key = "Authorization"; value = secret }
      ∷ record { key = "content-type"; value = "application/json; charset=utf-8" }
      ∷ [];
}

abbrev environment : Exchange
environment = record {
  messages = Message.chunk (123 ∷ []) true ∷ Message.chunk (125 ∷ []) false ∷ [];
  checked_at = 1015;
  issue = issue_draws;
  verify = verify_draws;
  connection = record {
    user_version = 1;
    foreign_keys = 1;
    synchronous = 3;
    journal_mode = "delete";
    secure_delete = 1;
    tables = [];
    indexes = [];
    takes_write_lock = true;
  };
}

http-Unauthenticated_example :
    http lib wire 100 (post "Bearer opi1.ic_1.aa") environment issued ≡ (unauthorized, issued)
unfolding exchange
http-Unauthenticated_example =
    http-Unauthenticated lib wire 100 (post "Bearer opi1.ic_1.aa") environment issued "verification"
      refl (not_accepted "opi1.ic_1.aa" refl refl)

abbrev after : Runtime Value
after = (verify lib wire 100 (post "Bearer  opv1.vc_1.bb") environment issued).1

first_answer :
    (verify lib wire 100 (post "Bearer  opv1.vc_1.bb") environment issued).0
    ≡ done (response 200 (to_dict answer) [])
unfolding exchange
first_answer = refl

verify-verify_proof_example :
    (args : VerifyArguments) × (result : VerificationResult) × (secret : String) × (bearer_secret
        (post "Bearer  opv1.vc_1.bb").headers
      ≡ done secret)
    × (credential_is_accepted lib (text secret) "verification" 1015 issued ≡ ok true)
    × IsArgumentsOf wire 100 (post "Bearer  opv1.vc_1.bb") environment.messages secret args
    × (verify_proof lib args verify_draws issued ≡ (ok result, after))
    × (result.reason ≢ some "credential_rejected")
    × (response 200 (to_dict answer) [] ≡ response 200 (to_dict result) [])
verify-verify_proof_example =
    verify-verify_proof lib wire 100 (post "Bearer  opv1.vc_1.bb") environment issued after
      (response 200 (to_dict answer) []) (λ i. (first_answer i, after))

http-IsFaithful_example :
    IsFaithful (http lib wire 100 (post "Basic opv1.vc_1.bb") environment issued).0
http-IsFaithful_example =
    http-IsFaithful lib wire 100 (post "Basic opv1.vc_1.bb") environment issued

abbrev one_request : Serving
one_request = (arrive "/v1/proofs" idle).1

Reaches-IsCounted_example : IsCounted one_request
Reaches-IsCounted_example =
    Reaches-IsCounted one_request (then_step idle one_request here (begins "/v1/proofs"))

abbrev long : List Message
long = Message.chunk (1 ∷ 2 ∷ []) true ∷ Message.chunk (3 ∷ []) true ∷ []

receive_body-decided_example :
    (receive_body 2 [] (long ++ Message.other ∷ []) ≡ receive_body 2 [] long)
    × (receive_body 2 [] long ≢ failed (request_error 408 "request_timeout"))
unfolding exchange all_bytes
receive_body-decided_example =
    receive_body-decided 2 [] long (Message.other ∷ []) (omega arith) (omega arith)
