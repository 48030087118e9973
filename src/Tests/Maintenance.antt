-- ===== src/Tests/Maintenance.antt =====
-- The rate window and the cleanup on the opened ledger.
use onceproof.Base.{ℕ, ◌+◌, ◌≤◌, ◌≡◌, refl, some, arith, count}
use onceproof.Errors.{ok, rate_limited}
use onceproof.Model.Json.{Value, plain_codec}
use onceproof.Store.Rows.{issue, Database}
use onceproof.Store.Rate.{in_window, consume_rate_slot}
use onceproof.Store.Consume.{idempotent_result}
use onceproof.Store.Maintenance.{default_retention, cleanup}
use onceproof.Store.Window.{count-consume_rate_slot, retry-consume_rate_slot}
use onceproof.Store.Cleanup.{Cleaned, cleanup-Cleaned, idempotent_result-cleanup}
use onceproof.Tests.Ledger.{play, opened, verified_once}

abbrev second_slot : Database Value
second_slot = (consume_rate_slot "opc_1" issue 2 1020 opened).1

count-consume_rate_slot_example : count (in_window "opc_1" issue 1020) second_slot.rate_events ≤ 2
unfolding play
count-consume_rate_slot_example =
    count-consume_rate_slot "opc_1" issue 2 1020 opened second_slot refl

-- The one slot was taken at 1010.
abbrev no_slot : Database Value
no_slot = (consume_rate_slot "opc_1" issue 1 1020 opened).1

retry-consume_rate_slot_example :
    (w : ℕ) × (rate_limited 50 ≡ rate_limited w)
    × (1 ≤ w)
    × (w ≤ 60)
    × ((consume_rate_slot "opc_1" issue 1 (1020 + w) opened).0 ≡ ok tt)
unfolding play
retry-consume_rate_slot_example =
    retry-consume_rate_slot "opc_1" issue 1 1020 opened no_slot (rate_limited 50) (omega arith)
      (omega arith, tt) (omega arith) refl

cleanup-Cleaned_example : Cleaned 9000 default_retention verified_once
cleanup-Cleaned_example = cleanup-Cleaned 9000 default_retention verified_once

idempotent_result-cleanup_example :
    idempotent_result plain_codec "opc_1"
      (some "k1")
      "f1"
      (cleanup 9000 default_retention verified_once).1
    ≡ idempotent_result plain_codec "opc_1" (some "k1") "f1" verified_once
unfolding play
idempotent_result-cleanup_example =
    idempotent_result-cleanup 9000 default_retention verified_once plain_codec "opc_1" "k1" "f1" _
      refl (omega arith)
