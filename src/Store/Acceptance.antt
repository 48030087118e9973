-- ===== src/Store/Acceptance.antt =====
-- A request that is entitled to a proof is answered `verified: true`.
use onceproof.Base.{ap, ℕ, ◌<◌, ◌≡◌, refl, false, none, some, ◌==◌, arith, eq_self, leb, any, count}
use onceproof.Errors.{ok}
use onceproof.Model.Json.{Codec}
use onceproof.Store.Tx.{◌>>=◌, write}
use onceproof.Store.Rows.{verify, Database}
use onceproof.Store.Tables.{same_verification, insert_verification_row, insert_audit}
use onceproof.Store.Shared.{is_restore_required, Joined}
use onceproof.Store.Rate.{in_window, drop_old_events, take_slot, consume_rate_slot}
use onceproof.Store.Consume.{
  Request, Draws, is_redeemable, accepted_result, redeemed, refusal, redeem, decide,
  verification_row, record_decision, consume_new, consume_uncached, consume_proof,
}
use onceproof.Store.Rows.{ProofRow, AuditRow}
use onceproof.Store.Answer.{affirmation, accepted_result-affirmation}
use onceproof.Store.Consistency.{IsConsistent}
use onceproof.Store.Outcome.{verifier, cached, named_proof, Redeems}
use onceproof.Store.OnceOnly.{owned-some, one_redeemed}
use onceproof.Store.Window.{count-select_recent}
use onceproof.Store.Idempotency.{consume_proof-cached}

refusal-Redeems : (q : Request) (now : ℕ) (p : ProofRow) → Redeems q now p → refusal q now p ≡ none
unfolding refusal
refusal-Redeems q now p by =
    let t = by.in_time in
    rw by.fresh (
      rw by.purpose (
        rw by.audience (
          rw by.subject
            (ground (arith, eq_self q.purpose, eq_self q.audience, eq_self q.subject)))))

module _ {Text : Type 0} (json : Codec Text) (q : Request) (now : ℕ) (draws : Draws)
    (db : Database Text) where
  answered :
      (p : ProofRow)
      → IsConsistent db
      → named_proof q db ≡ some p
      → Redeems q now p
      → redeemed q now draws.verification_id p (count (is_redeemable q.token_digest now) db.proofs)
        ≡ accepted_result p draws.verification_id now
  unfolding redeemed
  answered p c found by =
      let one =
        one_redeemed q.token_digest now db.proofs p c.unique_proofs
          (owned-some q.client_id _ p found) by.fresh by.in_time in
      rw one refl

  -- On a consistent and unsealed ledger, a call of an accepted verifier credential, with no earlier
  -- decision under its key, for a row of its client that is unconsumed, in time and bound as the
  -- request says, is answered with the accepted result of that row, if the rate window is not full
  -- and the identifiers drawn for the two records are new.
  pub consume_proof-accepts :
      (j : Joined Text) (p : ProofRow)
      → IsConsistent db
      → is_restore_required db ≡ false
      → verifier q now db ≡ some j
      → cached json q db ≡ ok none
      → named_proof q db ≡ some p
      → Redeems q now p
      → count (in_window q.client_id verify now) db.rate_events < j.client.verify_limit_per_minute
      → any
          (same_verification
            (verification_row json q (accepted_result p draws.verification_id now) now))
          db.verifications
        ≡ false
      → any (λ (a : AuditRow). draws.event_id == a.event_id) db.audit_events ≡ false
      → (consume_proof json q now draws db).0 ≡ ok (affirmation p draws.verification_id now)
  unfolding consume_uncached consume_new consume_rate_slot take_slot drop_old_events decide redeem
      record_decision insert_verification_row insert_audit write ◌>>=◌ any
  consume_proof-accepts j p c open_ found fresh named by room unused unused' =
      let counted = count-select_recent q.client_id verify now db.rate_events in
      let slot : leb j.client.verify_limit_per_minute
            (count (in_window q.client_id verify now) (drop_old_events now db).rate_events)
          ≡ false =
        ground arith in
      rw (consume_proof-cached json q now draws db j open_ found) (
        rw fresh (
          rw slot (
            rw named (
              rw (refusal-Redeems q now p by) (
                rw (answered p c named by) (
                  rw unused (
                    rw unused'
                      (ap ok (accepted_result-affirmation p draws.verification_id now)))))))))
