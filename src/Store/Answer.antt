-- ===== src/Store/Answer.antt =====
-- What an accepted decision answers, written out.
use onceproof.Base.{ℕ, String, ◌≡◌, refl, true, none, some}
use onceproof.Model.{VerificationResult}
use onceproof.Store.Rows.{ProofRow}
use onceproof.Store.Consume.{accepted_result}

-- `verified: true` with no reason, the identifier and the time of the decision, and the claims of the
-- row.
abbrev pub affirmation : ProofRow → String → ℕ → VerificationResult
affirmation p id now = record {
  verified = true;
  reason = none;
  witness = record {
    state = "verified_once";
    verification_id = id;
    proof_tag = some p.proof_tag;
    client_id = some p.client_id;
    decided_at = now;
    reason = none;
  };
  claims = some (record {
    client_id = p.client_id;
    subject = p.subject;
    purpose = p.purpose;
    audience = p.audience;
    issued_at = p.issued_at;
    expires_at = p.expires_at;
  });
}

pub accepted_result-affirmation :
    (p : ProofRow) (id : String) (now : ℕ) → accepted_result p id now ≡ affirmation p id now
unfolding accepted_result
accepted_result-affirmation p id now = refl
