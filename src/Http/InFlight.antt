-- ===== src/Http/InFlight.antt =====
-- `OnceproofApp.__call__` of src/onceproof/http.py: the count of the API requests in flight.
use onceproof.Base.{
  ℕ, suc, ◌-◌, String, ◌≡◌, Bool, Option, none, some, List, [], ◌∷◌, ◌++◌, leb, starts_with,
  if◌then◌else◌,
}
use onceproof.Http.Handler.{Response, response, error_body}

-- _MAX_IN_FLIGHT_API_REQUESTS
abbrev pub max_in_flight : ℕ
max_in_flight = 64

abbrev pub is_api : String → Bool
is_api path = starts_with path "/v1/"

-- `_active_api_requests`, and the paths of the requests that are being handled.
pub record Serving : Type 0 where
  pub active : ℕ
  pub running : List String

-- What a call of the type "http" does first: it is answered at once, or `_http` begins.
unfoldable pub arrive : String → Serving → Option Response × Serving
arrive path s =
    let admitted : Serving = record { active = suc s.active; running = path ∷ s.running } in
    let free : Serving = record s { running = path ∷ s.running } in
    if is_api path
    then if leb max_in_flight s.active
      then (some (response 503 (error_body "server_busy") []), s)
      else (none, admitted)
    else (none, free)

-- The `finally` of a call.
unfoldable pub finish : String → ℕ → ℕ
finish path active = if is_api path then active - 1 else active

-- The interleaved calls: a call begins, or one of those that run returns or raises.
pub data Step (s : Serving) : Serving → Type 0 where
  begins : (path : String) → Step s (arrive path s).1
  ends :
      (before after : List String) (path : String)
      → s.running ≡ before ++ path ∷ after
      → Step s (record { active = finish path s.active; running = before ++ after })

pub data Reaches (s : Serving) : Serving → Type 0 where
  here : Reaches s s
  then_step : (t u : Serving) → Reaches s t → Step t u → Reaches s u
