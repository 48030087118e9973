-- ===== src/Http/Routes.antt =====
-- `OnceproofApp._http` and `_lifespan` of src/onceproof/http.py. An exception of a readiness check
-- is an answer that is not ready.
use onceproof.Base.{ℕ, String, Bool, true, false, ◌&&◌, ◌||◌, List, [], ◌∷◌, ◌==◌, if◌then◌else◌}
use onceproof.Errors.{Result, ok, err}
use onceproof.Model.Json.{text, obj, end, field, contains}
use onceproof.Store.Reports.{Connection}
use onceproof.Service.Runtime.{Library, Runtime}
use onceproof.Service.Ready.{ready}
use onceproof.Http.Headers.{Outcome, done, failed, Scope, lowers_to}
use onceproof.Http.Body.{Wire}
use onceproof.Http.Handler.{
  Exchange, Response, response, error_body, allow, error_response, issue, verify,
}

-- The routes of a request.
pub data Route : Type 0 where
  health readiness issue_route verify_route not_allowed not_found : Route

-- A method is a text of ASCII, whose upper case is that of its lower case.
abbrev pub is_method : String → String → Bool
is_method method lower = lowers_to method lower

unfoldable pub route : String → String → Route
unfolding lowers_to
route method path =
    if is_method method "get" && path == "/healthz"
    then Route.health
    else if is_method method "get" && path == "/readyz"
    then Route.readiness
    else if is_method method "post" && path == "/v1/proofs"
    then Route.issue_route
    else if is_method method "post" && path == "/v1/verifications"
    then Route.verify_route
    else if contains path ("/healthz" ∷ "/readyz" ∷ "/v1/proofs" ∷ "/v1/verifications" ∷ [])
    then Route.not_allowed
    else Route.not_found

abbrev pub was_ready : Result Bool → Bool
was_ready (ok b) = b
was_ready (err e) = false

abbrev pub ready_response : Bool → Response
ready_response b =
    response (if b then 200 else 503)
      (obj (field "status" (text (if b then "ready" else "unavailable")) end)) []

abbrev allowed_method : String → String
allowed_method path = if path == "/healthz" || path == "/readyz" then "GET" else "POST"

module _ {Text : Type 0} where
  -- The `except` clauses.
  abbrev pub answered : Outcome Response × Runtime Text → Response × Runtime Text
  answered (done r, w) = (r, w)
  answered (failed e, w) = (error_response e, w)

  -- Store.ready and the checks of the keys
  abbrev pub service_ready : Library Text → Connection → Runtime Text → Bool
  service_ready lib c w = was_ready (ready lib.hashing w.ring.memory c w.database)

module _ {Text : Type 0} (lib : Library Text) (wire : Wire) (limit : ℕ) where
  unfoldable pub serve_route : Route → Scope → Exchange → Runtime Text → Response × Runtime Text
  unfolding issue verify error_response ready
  serve_route Route.health scope x w = (response 200 (obj (field "status" (text "ok") end)) [], w)
  serve_route Route.readiness scope x w = (ready_response (service_ready lib x.connection w), w)
  serve_route Route.issue_route scope x w = answered (issue lib wire limit scope x w)
  serve_route Route.verify_route scope x w = answered (verify lib wire limit scope x w)
  serve_route Route.not_allowed scope x w =
      (response 405 (error_body "method_not_allowed") (allow (allowed_method scope.path) ∷ []), w)
  serve_route Route.not_found scope x w = (response 404 (error_body "not_found") [], w)

  -- OnceproofApp._http
  unfoldable pub http : Scope → Exchange → Runtime Text → Response × Runtime Text
  unfolding serve_route route
  http scope x w =
      let routed = serve_route (route scope.method scope.path) scope x w in
      if scope.query_string == ""
      then routed
      else (response 400 (error_body "query_not_allowed") [], w)

-- The messages of a lifespan, each startup with what the readiness check came to.
pub data LifespanMessage : Type 0 where
  startup : Bool → LifespanMessage
  shutdown other : LifespanMessage

pub data Sent : Type 0 where
  startup_complete startup_failed shutdown_complete : Sent

-- OnceproofApp._lifespan: what it sends, and whether it has returned.
unfoldable pub lifespan : List LifespanMessage → List Sent × Bool
lifespan [] = ([], false)
lifespan (LifespanMessage.startup true ∷ ms) =
    let rest = lifespan ms in (Sent.startup_complete ∷ rest.0, rest.1)
lifespan (LifespanMessage.startup false ∷ ms) = (Sent.startup_failed ∷ [], true)
lifespan (LifespanMessage.shutdown ∷ ms) = (Sent.shutdown_complete ∷ [], true)
lifespan (LifespanMessage.other ∷ ms) = lifespan ms
