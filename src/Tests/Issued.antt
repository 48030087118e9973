-- ===== src/Tests/Issued.antt =====
-- The proof of the opened ledger.
use onceproof.Base.{◌+◌, ◌-◌, ◌≡◌, refl, true, false, ◌∷◌, [], arith, any, is_some}
use onceproof.Model.Json.{Value, plain_codec}
use onceproof.Store.Rows.{issuance, Database}
use onceproof.Store.Tables.{same_proof}
use onceproof.Store.Shared.{join}
use onceproof.Store.Calls.{Call, run}
use onceproof.Store.Issue.{committed, proof_row, issue_proof}
use onceproof.Store.Consume.{accepted_join}
use onceproof.Store.Issued.{issue_proof-stores}
use onceproof.Tests.Ledger.{play, empty, proof, shop}

abbrev registered : Database Value
registered = run plain_codec (Call.create_client shop 900 "ae_1" ∷ []) empty

abbrev issued : Database Value
issued = (issue_proof proof "check" 1010 "ae_2" registered).1

issue_proof-stores_example :
    ((committed proof 1010).issued_at ≡ 1010)
    × ((committed proof 1010).expires_at ≡ 1010 + (1100 - 1000))
    × (is_some (
          accepted_join "opc_1" 1010
            (join "ic_1" issuance registered.clients registered.credentials))
        ≡ true)
    × (any (same_proof (proof_row (committed proof 1010))) registered.proofs ≡ false)
    × (issued.proofs ≡ proof_row (committed proof 1010) ∷ registered.proofs)
unfolding play
issue_proof-stores_example =
    issue_proof-stores proof "check" 1010 "ae_2" (committed proof 1010) registered issued
      (omega arith) refl
