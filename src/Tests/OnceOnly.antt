-- ===== src/Tests/OnceOnly.antt =====
-- The bound on redemptions, on a history that tries a proof twice.
use onceproof.Base.{◌≤◌, ◌+◌}
use onceproof.Model.Json.{plain_codec}
use onceproof.Store.OnceOnly.{redemptions, unconsumed, issue_count, redemptions-le-issues}
use onceproof.Tests.Ledger.{empty, empty-IsConsistent, history}

redemptions-le-issues_example :
    redemptions plain_codec "d1" history empty
    ≤ unconsumed plain_codec "d1" empty + issue_count "d1" history
redemptions-le-issues_example =
    redemptions-le-issues plain_codec "d1" history empty empty-IsConsistent
