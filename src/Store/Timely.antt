-- ===== src/Store/Timely.antt =====
-- A proof is never consumed after it expired, whatever the ledger does.
use onceproof.Base.{ℕ, ◌<◌, String, ◌≡◌, none, some, ◌⊎◌, All}
use onceproof.Store.Rows.{ProofRow, Database}
use onceproof.Store.Statements.{Limits}

-- The row is not consumed and names no verification; or it was consumed before the time at which it
-- expires, and names the verification that consumed it.
abbrev pub IsTimely : ProofRow → Type 0
IsTimely p =
    ((p.consumed_at ≡ none) × (p.consume_verification_id ≡ none))
    ⊎ ((t : ℕ) × (id : String) × (p.consumed_at ≡ some t)
        × (p.consume_verification_id ≡ some id)
        × (t < p.expires_at))

-- New proofs are not consumed.
abbrev unconsumed_only : Limits
unconsumed_only = record {
  proof = λ row. (row.consumed_at ≡ none) × (row.consume_verification_id ≡ none);
  forget_proofs = λ now keep. Unit;
  forget_verifications = λ now keep. Unit;
}

module _ {Text : Type 0} where
  abbrev AllTimely : Database Text → Type 0
  AllTimely db = All IsTimely db.proofs
