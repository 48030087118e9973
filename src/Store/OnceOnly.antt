-- ===== src/Store/OnceOnly.antt =====
-- No proof is redeemed twice: the digest of a proof has no unconsumed row after it was redeemed.
mod Spent
use onceproof.Base.{
  ℕ, ◌+◌, ◌≤◌, String, ◌≡◌, refl, ap, inl, inr, Bool, true, false, ◌&&◌, Option, none, some, List,
  [], ◌∷◌, ◌==◌, arith, Bool-cases, eq_sound, if◌then◌else◌, any, find,
}
use onceproof.Errors.{Result, ok, err}
use onceproof.Model.{VerificationResult}
use onceproof.Model.Json.{Codec}
use onceproof.Store.Rows.{ProofRow, Database}
use onceproof.Store.Issue.{committed, proof_row}
use onceproof.Store.Consume.{
  Request, Draws, rejected_result, digest_is, is_redeemable, mark_consumed, owned, consume_proof,
}
use onceproof.Store.Calls.{Call, step, run}
use onceproof.Store.Statements.{step-kept, Allowed, Allowed-no_limits}
use onceproof.Store.Consistency.{IsConsistent, IsConsistent-kept}
use onceproof.Store.Outcome.{
  Outcome, unauthorized, replayed, decided, Decision, refused, applied, Redeems, cached,
  named_proof, consume_proof-Outcome,
}
pub use Spent.{is_live, IsSpent, one_redeemed}
use Spent.{others_only, IsSpent-kept, spent_by_redeem, live_before}

abbrev pub is_verified : Result VerificationResult → Bool
is_verified (ok r) = r.verified
is_verified (err e) = false

abbrev pub is_fresh : Result (Option VerificationResult) → Bool
is_fresh (ok none) = true
is_fresh _ = false

abbrev pub one_if : Bool → ℕ
one_if b = if b then 1 else 0

-- The call stores a new proof of the digest.
abbrev pub issues : String → Call → ℕ
issues d (Call.issue_proof r check now e) = one_if (r.token_digest == d)
issues d _ = 0

abbrev pub issue_count : String → List Call → ℕ
issue_count d [] = 0
issue_count d (c ∷ cs) = issues d c + issue_count d cs

pub owned-some :
    (id : String) (o : Option ProofRow) (p : ProofRow) → owned id o ≡ some p → o ≡ some p
owned-some id none p h = h
owned-some id (some x) p h = ground arith

module _ {Text : Type 0} (json : Codec Text) (d : String) where
  -- The call answers `verified: true` to the digest, and not as the replay of an earlier answer.
  unfoldable pub redeems : Call → Database Text → Bool
  redeems (Call.consume_proof q now draws) db =
      q.token_digest == d
      && is_fresh (cached json q db)
      && is_verified (consume_proof json q now draws db).0
  redeems _ db = false

  unfoldable pub redemptions : List Call → Database Text → ℕ
  redemptions [] db = 0
  redemptions (c ∷ cs) db = one_if (redeems c db) + redemptions cs (step json c db)

  abbrev pub unconsumed : Database Text → ℕ
  unconsumed db = one_if (any (is_live d) db.proofs)

  redeem-Outcome :
      (q : Request) (now : ℕ) (draws : Draws) (db db' : Database Text) (r : VerificationResult)
      → IsConsistent db
      → q.token_digest ≡ d
      → is_fresh (cached json q db) ≡ true
      → r.verified ≡ true
      → Outcome json q now draws db db' r
      → (any (is_live d) db.proofs ≡ true) × (any (is_live d) db'.proofs ≡ false)
  unfolding rejected_result
  redeem-Outcome q now draws db db' r c same fresh v (unauthorized _ e _) =
      cc (ap (λ (r : VerificationResult). r.verified) e)
  redeem-Outcome q now draws db db' r c same fresh v (replayed _ hit _) = ground arith
  redeem-Outcome q now draws db db' r c same fresh v (decided _ _ (refused e _) _) = cc
  redeem-Outcome q now draws db db' r c same fresh v (decided _ _ (applied p found by _ after) _) =
      let row = owned-some q.client_id (find (digest_is q.token_digest) db.proofs) p found in
      rw (← same) (
        live_before q.token_digest db.proofs p row by.fresh,
        rw after (
            spent_by_redeem q.token_digest now draws.verification_id db.proofs p c.unique_proofs row
              by.fresh by.in_time),
      )

  -- A redemption finds an unconsumed row of the digest and leaves none.
  redeem-IsSpent :
      (q : Request) (now : ℕ) (draws : Draws) (db : Database Text)
      → IsConsistent db
      → redeems (Call.consume_proof q now draws) db ≡ true
      → (any (is_live d) db.proofs ≡ true)
        × IsSpent d (step json (Call.consume_proof q now draws) db)
  unfolding redeems step
  redeem-IsSpent q now draws db c h = go (consume_proof json q now draws db) refl h
    where
      go :
          (o : Result VerificationResult × Database Text)
          → consume_proof json q now draws db ≡ o
          → (q.token_digest == d && is_fresh (cached json q db) && is_verified o.0) ≡ true
          → (any (is_live d) db.proofs ≡ true) × IsSpent d o.1
      go (ok r, db') e t =
          redeem-Outcome q now draws db db' r c (eq_sound q.token_digest d (ground arith))
            (ground arith) (ground arith) (consume_proof-Outcome json q now draws db db' r e)
      go (err e', db') e t = ground arith

  spent_or_not :
      (c : Call) (db : Database Text)
      → Allowed (others_only d) c
      → unconsumed (step json c db) ≤ unconsumed db
  spent_or_not c db a = elim (Bool-cases (any (is_live d) db.proofs)) [
    | inl live ↦ rw live (ground arith)
    | inr spent ↦ rw (step-kept json (IsSpent-kept d) c db a spent) (ground arith)
  ]

  consume_bound :
      (q : Request) (now : ℕ) (draws : Draws) (db : Database Text)
      → IsConsistent db
      → one_if (redeems (Call.consume_proof q now draws) db)
          + unconsumed (step json (Call.consume_proof q now draws) db)
        ≤ unconsumed db
  consume_bound q now draws db h = elim (Bool-cases (redeems (Call.consume_proof q now draws) db)) [
    | inl taken ↦
        let (live, spent) = redeem-IsSpent q now draws db h taken in
        rw (taken, live, spent) (ground arith)
    | inr free ↦ rw free (omega (arith, spent_or_not (Call.consume_proof q now draws) db tt))
  ]

  -- One call: a redemption uses the row up, and only an issue brings one.
  step_bound :
      (c : Call) (db : Database Text)
      → IsConsistent db
      → one_if (redeems c db) + unconsumed (step json c db) ≤ unconsumed db + issues d c
  unfolding redeems
  step_bound (Call.issue_proof r check now e) db h = elim (Bool-cases (r.token_digest == d)) [
    | inl same ↦ rw same (ground arith)
    | inr other ↦ rw other (ground (arith, spent_or_not (Call.issue_proof r check now e) db other))
  ]
  step_bound (Call.consume_proof q now draws) db h = omega (arith, consume_bound q now draws db h)
  step_bound (Call.create_client c now e) db h =
      omega (arith, spent_or_not (Call.create_client c now e) db tt)
  step_bound (Call.rotate_credential id role r check grace now e) db h =
      omega (arith, spent_or_not (Call.rotate_credential id role r check grace now e) db tt)
  step_bound (Call.revoke_client id now e) db h =
      omega (arith, spent_or_not (Call.revoke_client id now e) db tt)
  step_bound (Call.cleanup now keep) db h =
      omega (arith, spent_or_not (Call.cleanup now keep) db (tt, tt))
  step_bound (Call.activate_restored_backup now e) db h =
      omega (arith, spent_or_not (Call.activate_restored_backup now e) db tt)

  -- Over any calls on a consistent database, in any order and at any times, the answers
  -- `verified: true` to the digest of a proof that are not replays of earlier answers are at most
  -- as many as the unconsumed row that the digest had, if it had one, and the calls that issue it.
  pub redemptions-le-issues :
      (calls : List Call) (db : Database Text)
      → IsConsistent db
      → redemptions calls db ≤ unconsumed db + issue_count d calls
  unfolding redemptions
  redemptions-le-issues [] db h = omega arith
  redemptions-le-issues (c ∷ cs) db h =
      let kept = step-kept json IsConsistent-kept c db (Allowed-no_limits c) h in
      omega (arith, step_bound c db h, redemptions-le-issues cs (step json c db) kept)
