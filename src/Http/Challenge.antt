-- ===== src/Http/Challenge.antt =====
-- A response asks for a credential exactly when it is a 401.
use onceproof.Base.{
  ℕ, ◌≡◌, refl, arith, Bool, true, false, List, [], ◌∷◌, ◌==◌, eqb, Bool-cases, inl, inr,
}
use onceproof.Errors.{Error}
use onceproof.Service.Runtime.{Library, Runtime}
use onceproof.Http.Headers.{Failure, request_error, raised, Outcome, done, failed, Scope}
use onceproof.Http.Body.{Wire}
use onceproof.Http.Handler.{
  Exchange, Response, HeaderLine, www_authenticate, error_response, issue, verify,
}
use onceproof.Http.Routes.{Route, route, serve_route, http, answered, ready_response, service_ready}
use onceproof.Http.Answers.{verify-verify_proof, issue-issue_proof}

unfoldable pub has_challenge : List HeaderLine → Bool
has_challenge [] = false
has_challenge (www_authenticate s ∷ hs) = true
has_challenge (_ ∷ hs) = has_challenge hs

abbrev pub IsFaithful : Response → Type 0
IsFaithful r = has_challenge r.extra_headers ≡ eqb r.status 401

error_response-IsFaithful : (e : Failure) → IsFaithful (error_response e)
unfolding error_response has_challenge
error_response-IsFaithful (request_error status code) = ground arith
error_response-IsFaithful (raised (Error.permission_error m)) = refl
error_response-IsFaithful (raised (Error.rate_limited n)) = refl
error_response-IsFaithful (raised (Error.value_error code)) = ground arith
error_response-IsFaithful (raised (Error.key_error code)) = refl
error_response-IsFaithful (raised Error.integrity_error) = refl
error_response-IsFaithful (raised Error.restore_required) = refl
error_response-IsFaithful (raised Error.store_corrupt) = refl
error_response-IsFaithful (raised Error.commit_uncertain) = refl
error_response-IsFaithful (raised Error.type_error) = refl
error_response-IsFaithful (raised Error.os_error) = refl
error_response-IsFaithful (raised Error.file_exists) = refl
error_response-IsFaithful (raised Error.recursion_error) = refl

answered-IsFaithful :
    {Text : Type 0} (o : Outcome Response) (w : Runtime Text)
    → ((r : Response) → o ≡ done r → IsFaithful r)
    → IsFaithful (answered (o, w)).0
answered-IsFaithful (done r) w good = good r refl
answered-IsFaithful (failed e) w good = error_response-IsFaithful e

ready-IsFaithful : (b : Bool) → IsFaithful (ready_response b)
unfolding has_challenge
ready-IsFaithful true = refl
ready-IsFaithful false = refl

module _ {Text : Type 0} (lib : Library Text) (wire : Wire) (limit : ℕ) (scope : Scope)
    (x : Exchange) (w : Runtime Text) where
  issued-IsFaithful : (r : Response) → (issue lib wire limit scope x w).0 ≡ done r → IsFaithful r
  unfolding has_challenge
  issued-IsFaithful r e =
      let w' = (issue lib wire limit scope x w).1 in
      let answer = issue-issue_proof lib wire limit scope x w w' r (λ i. (e i, w')) in
      rw answer.7 refl

  verified-IsFaithful : (r : Response) → (verify lib wire limit scope x w).0 ≡ done r → IsFaithful r
  unfolding has_challenge
  verified-IsFaithful r e =
      let w' = (verify lib wire limit scope x w).1 in
      let answer = verify-verify_proof lib wire limit scope x w w' r (λ i. (e i, w')) in
      rw answer.8 refl

  routed-IsFaithful : (r : Route) → IsFaithful (serve_route lib wire limit r scope x w).0
  unfolding serve_route has_challenge
  routed-IsFaithful Route.health = refl
  routed-IsFaithful Route.readiness = ready-IsFaithful (service_ready lib x.connection w)
  routed-IsFaithful Route.issue_route =
      answered-IsFaithful (issue lib wire limit scope x w).0 (issue lib wire limit scope x w).1
        issued-IsFaithful
  routed-IsFaithful Route.verify_route =
      answered-IsFaithful (verify lib wire limit scope x w).0 (verify lib wire limit scope x w).1
        verified-IsFaithful
  routed-IsFaithful Route.not_allowed = refl
  routed-IsFaithful Route.not_found = refl

  -- Whatever the request and the state, the response has a `www-authenticate` header exactly when
  -- its status is 401.
  pub http-IsFaithful : IsFaithful (http lib wire limit scope x w).0
  unfolding http has_challenge
  http-IsFaithful = elim (Bool-cases (scope.query_string == "")) [
    | inl plain ↦ rw plain (routed-IsFaithful (route scope.method scope.path))
    | inr query ↦ rw query refl
  ]
