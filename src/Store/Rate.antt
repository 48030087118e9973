-- ===== src/Store/Rate.antt =====
-- `_consume_rate_slot` of src/onceproof/store.py: a rolling window of sixty seconds. Its cutoff is
-- `now - 60`, so `occurred_at > cutoff` is written `now < occurred_at + 60`.
use onceproof.Base.{
  ℕ, ◌+◌, ◌-◌, min, max, String, Bool, ◌&&◌, Option, none, some, List, [], ◌∷◌, ◌==◌, ltb, leb,
  if◌then◌else◌, select, count,
}
use onceproof.Errors.{Error, ok, err, rate_limited, type_error}
use onceproof.Store.Tx.{Tx}
use onceproof.Store.Rows.{Operation, same_operation, RateRow, Database}

-- occurred_at > now - 60
abbrev pub is_recent : ℕ → RateRow → Bool
is_recent now e = ltb now (e.occurred_at + 60)

-- The WHERE clause of the count.
abbrev pub in_window : String → Operation → ℕ → RateRow → Bool
in_window client_id operation now e =
    e.client_id == client_id && same_operation e.operation operation && is_recent now e

abbrev pub least : ℕ → Option ℕ → ℕ
least a none = a
least a (some b) = min a b

-- MIN(occurred_at); NULL over no row.
unfoldable pub oldest : (RateRow → Bool) → List RateRow → Option ℕ
oldest p [] = none
oldest p (e ∷ es) = let rest = oldest p es in if p e then some (least e.occurred_at rest) else rest

-- min(60, max(1, oldest + 60 - now)); the difference is at least 1 wherever it is used, or max
-- raises it to 1.
unfoldable pub retry_after : ℕ → ℕ → ℕ
retry_after first now = min 60 (max 1 (first + 60 - now))

-- The exception of a full window: `int(None)` is a TypeError.
abbrev pub window_error : Option ℕ → ℕ → Error
window_error none now = type_error
window_error (some first) now = rate_limited (retry_after first now)

module _ {Text : Type 0} where
  -- DELETE FROM rate_events WHERE occurred_at <= now - 60
  unfoldable pub drop_old_events : ℕ → Database Text → Database Text
  drop_old_events now db = record db { rate_events = select (is_recent now) db.rate_events }

  abbrev pub record_event : String → Operation → ℕ → Database Text → Database Text
  record_event client_id operation now db = record db {
    rate_events =
        record { client_id = client_id; operation = operation; occurred_at = now } ∷ db.rate_events;
  }

  -- The count and the insert, after the old events have gone.
  unfoldable pub take_slot : String → Operation → ℕ → ℕ → Tx (Database Text) (Unit {0})
  take_slot client_id operation limit now db =
      if leb limit (count (in_window client_id operation now) db.rate_events)
      then (err (window_error (oldest (in_window client_id operation now) db.rate_events) now), db)
      else (ok tt, record_event client_id operation now db)

  -- Store._consume_rate_slot
  unfoldable pub consume_rate_slot : String → Operation → ℕ → ℕ → Tx (Database Text) (Unit {0})
  unfolding drop_old_events take_slot
  consume_rate_slot client_id operation limit now db =
      take_slot client_id operation limit now (drop_old_events now db)
