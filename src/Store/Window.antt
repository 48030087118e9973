-- ===== src/Store/Window.antt =====
-- The rolling window of `_consume_rate_slot`: what it admits, and what a window_error tells the caller.
use onceproof.Base.{
  ℕ, ◌+◌, ◌≤◌, ◌<◌, String, ap, ◌∙◌, ◌≡◌, inl, inr, Option-cases, refl, Bool, true, none, some,
  List, [], ◌∷◌, arith, eq_iff, select, count, All,
}
use onceproof.Errors.{Error, ok, err, rate_limited}
use onceproof.Store.Rows.{Operation, same_operation, RateRow, Database}
use onceproof.Store.Rate.{
  is_recent, in_window, oldest, retry_after, window_error, drop_old_events, take_slot,
  consume_rate_slot,
}

-- Deleting the events that left the window does not change what is counted in it.
pub count-select_recent :
    (id : String) (op : Operation) (now : ℕ) (es : List RateRow)
    → count (in_window id op now) (select (is_recent now) es) ≡ count (in_window id op now) es
unfolding count select
count-select_recent id op now [] = refl
count-select_recent id op now (e ∷ es) = ground (arith, count-select_recent id op now es)

oldest-select_recent :
    (id : String) (op : Operation) (now : ℕ) (es : List RateRow)
    → oldest (in_window id op now) (select (is_recent now) es) ≡ oldest (in_window id op now) es
unfolding oldest select
oldest-select_recent id op now [] = refl
oldest-select_recent id op now (e ∷ es) = ground (arith, oldest-select_recent id op now es)

same_operation_refl : (op : Operation) → same_operation op op ≡ true
same_operation_refl Operation.issue = refl
same_operation_refl Operation.verify = refl

module _ {Text : Type 0} where
  take_slot-bound :
      (id : String) (op : Operation) (limit now : ℕ) (db db' : Database Text)
      → take_slot id op limit now db ≡ (ok tt, db')
      → count (in_window id op now) db'.rate_events ≤ limit
  unfolding take_slot count
  take_slot-bound id op limit now db db' h = ground (arith, eq_iff id id, same_operation_refl op)

oldest-none : (p : RateRow → Bool) (es : List RateRow) → oldest p es ≡ none → count p es ≡ 0
unfolding oldest count
oldest-none p [] h = refl
oldest-none p (e ∷ es) h = ground (arith, oldest-none p es)

oldest_recent :
    (id : String) (op : Operation) (now : ℕ) (es : List RateRow) (t : ℕ)
    → oldest (in_window id op now) es ≡ some t
    → now < t + 60
unfolding oldest
oldest_recent id op now [] t h = cc
oldest_recent id op now (e ∷ es) t h = elim (Option-cases (oldest (in_window id op now) es)) [
  | inl empty ↦ ground (arith)
  | inr (u, r) ↦ let ih = oldest_recent id op now es u r in ground (arith)
]

oldest_past :
    (id : String) (op : Operation) (now : ℕ) (es : List RateRow) (t : ℕ)
    → All (λ e. e.occurred_at ≤ now) es
    → oldest (in_window id op now) es ≡ some t
    → t ≤ now
unfolding oldest
oldest_past id op now [] t a h = cc
oldest_past id op now (e ∷ es) t a h =
    let first = a.0 in
    elim (Option-cases (oldest (in_window id op now) es)) [
      | inl empty ↦ ground (arith)
      | inr (u, r) ↦ let ih = oldest_past id op now es u a.1 r in ground (arith)
    ]

count_later :
    (id : String) (op : Operation) (now later : ℕ) (es : List RateRow)
    → now ≤ later
    → count (in_window id op later) es ≤ count (in_window id op now) es
unfolding count
count_later id op now later [] h = omega arith
count_later id op now later (e ∷ es) h = ground (arith, count_later id op now later es h)

count_drop :
    (id : String) (op : Operation) (now later : ℕ) (es : List RateRow) (t : ℕ)
    → oldest (in_window id op now) es ≡ some t
    → t + 60 ≤ later
    → now ≤ later
    → count (in_window id op later) es < count (in_window id op now) es
unfolding oldest count
count_drop id op now later [] t h o l = cc
count_drop id op now later (e ∷ es) t h o l =
    let fewer = count_later id op now later es l in
    elim (Option-cases (oldest (in_window id op now) es)) [
      | inl empty ↦ ground arith
      | inr (u, r) ↦ let ih = count_drop id op now later es u r in ground arith
    ]

module _ {Text : Type 0} (id : String) (op : Operation) (limit now : ℕ) (db : Database Text) where
  -- A call that takes a slot leaves at most the limit in the window of sixty seconds, itself
  -- included.
  pub count-consume_rate_slot :
      (db' : Database Text)
      → consume_rate_slot id op limit now db ≡ (ok tt, db')
      → count (in_window id op now) db'.rate_events ≤ limit
  unfolding consume_rate_slot
  count-consume_rate_slot db' h = take_slot-bound id op limit now (drop_old_events now db) db' h

  slot_free :
      count (in_window id op now) db.rate_events < limit
      → (consume_rate_slot id op limit now db).0 ≡ ok tt
  unfolding consume_rate_slot take_slot drop_old_events
  slot_free h = let same = count-select_recent id op now db.rate_events in ground arith

  slot_full :
      (db' : Database Text) (e : Error)
      → consume_rate_slot id op limit now db ≡ (err e, db')
      → (limit ≤ count (in_window id op now) db.rate_events)
        × (e ≡ window_error (oldest (in_window id op now) db.rate_events) now)
  unfolding consume_rate_slot take_slot drop_old_events
  slot_full db' e h =
      let same = count-select_recent id op now db.rate_events in
      let first = oldest-select_recent id op now db.rate_events in (ground arith, ground arith)

wait-bounds : (t now : ℕ) → (1 ≤ retry_after t now) × (retry_after t now ≤ 60)
unfolding retry_after
wait-bounds t now = (omega arith, omega arith)

wait_reaches : (t now : ℕ) → t ≤ now → t + 60 ≤ now + retry_after t now
unfolding retry_after
wait_reaches t now h = omega arith

module _ {Text : Type 0} (id : String) (op : Operation) (limit now : ℕ) (db : Database Text) where
  -- Where the limit is at least one, no event lies in the future, and the window holds no more than
  -- the limit, a call that raises raises RateLimitError with a wait of one to sixty seconds; and after
  -- that wait the same call on the same events takes a slot.
  pub retry-consume_rate_slot :
      (db' : Database Text) (e : Error)
      → 1 ≤ limit
      → All (λ x. x.occurred_at ≤ now) db.rate_events
      → count (in_window id op now) db.rate_events ≤ limit
      → consume_rate_slot id op limit now db ≡ (err e, db')
      → (w : ℕ) × (e ≡ rate_limited w)
        × (1 ≤ w)
        × (w ≤ 60)
        × ((consume_rate_slot id op limit (now + w) db).0 ≡ ok tt)
  retry-consume_rate_slot db' e one past full h =
      let (reached, e') = slot_full id op limit now db db' e h in
      elim (Option-cases (oldest (in_window id op now) db.rate_events)) [
        | inl empty ↦
            let zero = oldest-none (in_window id op now) db.rate_events empty in
            let never : ⊥ = omega arith in absurd never
        | inr (t, first) ↦
            let w = retry_after t now in
            let (low, high) = wait-bounds t now in
            let past' = oldest_past id op now db.rate_events t past first in
            let fewer =
              count_drop id op now (now + w) db.rate_events t first (wait_reaches t now past')
                (omega arith) in
            (
              w,
              e' ∙ ap (λ o. window_error o now) first,
              low,
              high,
              slot_free id op limit (now + w) db (omega arith),
            )
      ]
