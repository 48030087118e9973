-- ===== src/Http/Unauthenticated.antt =====
-- A command without an accepted credential is refused before its body is read.
use onceproof.Base.{
  ℕ, String, ◌≡◌, refl, subst, arith, Bool-cases, inl, inr, if◌then◌else◌, false, Option, none,
  some, List, [], ◌∷◌, ◌==◌,
}
use onceproof.Errors.{ok, permission_error}
use onceproof.Model.Json.{text}
use onceproof.Service.Runtime.{Library, Runtime, credential_is_accepted}
use onceproof.Http.Headers.{
  Failure, request_error, raised, done, failed, Scope, Header, bearer_secret, header_values,
  secret_of_values, secret_of_parts, partition_space,
}
use onceproof.Http.Body.{Wire}
use onceproof.Http.Handler.{
  Exchange, Response, response, error_body, challenge, error_response, authenticated, issue, verify,
  ◌>>=◌,
}
use onceproof.Http.Routes.{Route, route, serve_route, http}

-- The role of the credential that a route asks for.
abbrev pub role_for : Route → Option String
role_for Route.issue_route = some "issuance"
role_for Route.verify_route = some "verification"
role_for _ = none

parts-rejected :
    (parts : String × Option String) (e : Failure)
    → secret_of_parts parts ≡ failed e
    → e ≡ request_error 401 "credential_rejected"
parts-rejected (scheme, none) e h = ground arith
parts-rejected (scheme, some remainder) e h = ground arith

values-rejected :
    (values : List String) (e : Failure)
    → secret_of_values values ≡ failed e
    → e ≡ request_error 401 "credential_rejected"
values-rejected [] e h = ground arith
values-rejected (v ∷ []) e h = ground (arith, parts-rejected (partition_space v) e)
values-rejected (v ∷ u ∷ vs) e h = ground arith

bearer_secret-rejected :
    (headers : List Header) (e : Failure)
    → bearer_secret headers ≡ failed e
    → e ≡ request_error 401 "credential_rejected"
unfolding bearer_secret
bearer_secret-rejected headers e h = values-rejected (header_values "authorization" headers) e h

-- The headers carry no bearer secret, or one that is not of an accepted credential of the role.
pub data Unauthenticated {Text : Type 0} (lib : Library Text) (role : String) (scope : Scope)
    (now : ℕ) (w : Runtime Text) : Type 0 where
  no_secret :
      (e : Failure) → bearer_secret scope.headers ≡ failed e → Unauthenticated lib role scope now w
  not_accepted :
      (secret : String)
      → bearer_secret scope.headers ≡ done secret
      → credential_is_accepted lib (text secret) role now w ≡ ok false
      → Unauthenticated lib role scope now w

abbrev pub unauthorized : Response
unauthorized = response 401 (error_body "credential_rejected") challenge

module _ {Text : Type 0} (lib : Library Text) (wire : Wire) (limit : ℕ) (scope : Scope)
    (x : Exchange) (w : Runtime Text) where
  authenticated-refused :
      (role : String)
      → Unauthenticated lib role scope x.checked_at w
      → (f : Failure) × (authenticated lib role scope x.checked_at w ≡ (failed f, w))
        × (error_response f ≡ unauthorized)
  unfolding authenticated error_response ◌>>=◌
  authenticated-refused role (no_secret e h) = (
    request_error 401 "credential_rejected",
    rw h (rw (bearer_secret-rejected scope.headers e h) refl),
    refl,
  )
  authenticated-refused role (not_accepted secret h k) =
      (raised (permission_error "credential_rejected"), rw h (rw k refl), refl)

  -- The route for issuing and that for verifying begin with the check.
  begins_refused :
      (r : Route) (role : String)
      → role_for r ≡ some role
      → Unauthenticated lib role scope x.checked_at w
      → serve_route lib wire limit r scope x w ≡ (unauthorized, w)
  unfolding serve_route issue verify ◌>>=◌
  begins_refused Route.issue_route role h u =
      let same : role ≡ "issuance" = ground arith in
      let (f, refused, answer) = authenticated-refused role u in
      rw (subst (λ r. authenticated lib r scope x.checked_at w ≡ (failed f, w)) same refused)
        (rw answer refl)
  begins_refused Route.verify_route role h u =
      let same : role ≡ "verification" = ground arith in
      let (f, refused, answer) = authenticated-refused role u in
      rw (subst (λ r. authenticated lib r scope x.checked_at w ≡ (failed f, w)) same refused)
        (rw answer refl)
  begins_refused Route.health role h u = absurd (ground arith)
  begins_refused Route.readiness role h u = absurd (ground arith)
  begins_refused Route.not_allowed role h u = absurd (ground arith)
  begins_refused Route.not_found role h u = absurd (ground arith)

  -- A request to issue or to verify that carries no secret of an accepted credential of the role
  -- changes nothing, whatever its body is, and is answered 401 with a challenge, or, where it has a
  -- query string, 400 `query_not_allowed`.
  pub http-Unauthenticated :
      (role : String)
      → role_for (route scope.method scope.path) ≡ some role
      → Unauthenticated lib role scope x.checked_at w
      → http lib wire limit scope x w ≡ (
        if scope.query_string == ""
            then unauthorized
            else response 400 (error_body "query_not_allowed") [],
        w,
      )
  unfolding http
  http-Unauthenticated role h u =
      rw (begins_refused (route scope.method scope.path) role h u)
        (elim (Bool-cases (scope.query_string == "")) [
          | inl plain ↦ rw plain refl
          | inr query ↦ rw query refl
        ])
