-- ===== src/Http/Bounded.antt =====
-- The count of requests in flight is right, and bounded.
use onceproof.Base.{
  ◌+◌, ◌≤◌, String, ◌≡◌, refl, subst, arith, Bool, List, [], ◌∷◌, ◌++◌, count, if◌then◌else◌,
}
use onceproof.Http.InFlight.{
  max_in_flight, is_api, Serving, arrive, finish, Step, begins, ends, Reaches, here, then_step,
}

-- The count is that of the API requests that run, and at most the bound.
pub record IsCounted (s : Serving) : Type 0 where
  pub counts : s.active ≡ count is_api s.running
  pub bounded : s.active ≤ max_in_flight

abbrev pub idle : Serving
idle = record { active = 0; running = [] }

arrive-IsCounted : (path : String) (s : Serving) → IsCounted s → IsCounted (arrive path s).1
unfolding arrive count
arrive-IsCounted path s good =
    let counts = good.counts in
    let bounded = good.bounded in record { counts = ground arith; bounded = ground arith }

count-remove :
    (p : String → Bool) (before after : List String) (path : String)
    → count p (before ++ path ∷ after) ≡ (if p path then 1 else 0) + count p (before ++ after)
unfolding count
count-remove p [] after path = refl
count-remove p (x ∷ before) after path = let rest = count-remove p before after path in ground arith

Step-IsCounted : (s t : Serving) → IsCounted s → Step s t → IsCounted t
unfolding finish
Step-IsCounted s _ good (begins path) = arrive-IsCounted path s good
Step-IsCounted s _ good (ends before after path at) =
    let counts = good.counts in
    let bounded = good.bounded in
    let removed = count-remove is_api before after path in
    let all = subst (λ (rs : List String). s.active ≡ count is_api rs) at counts in
    record { counts = ground arith; bounded = ground arith }

-- However the calls interleave, from an idle server on, `_active_api_requests` is the number of the
-- API requests that are being handled, and at most 64.
pub Reaches-IsCounted : (s : Serving) → Reaches idle s → IsCounted s
unfolding count
Reaches-IsCounted _ here = record { counts = refl; bounded = omega arith }
Reaches-IsCounted _ (then_step t u before step) =
    Step-IsCounted t u (Reaches-IsCounted t before) step
