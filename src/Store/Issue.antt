-- ===== src/Store/Issue.antt =====
-- `Store.issue_proof`. `now` is what the clock returns inside the transaction.
use onceproof.Base.{ℕ, ◌+◌, ◌-◌, String, Option, none, some, if◌then◌else◌}
use onceproof.Errors.{permission_error}
use onceproof.Store.Tx.{Tx, ◌>>=◌, ◌>>◌, gets, pure, raise, write}
use onceproof.Store.Rows.{issuance, issue, ProofRow, ProofRecord, Database}
use onceproof.Store.Tables.{insert_proof, insert_audit}
use onceproof.Store.Shared.{
  require_operational, register_hash_key, Joined, join, joined_is_accepted,
}
use onceproof.Store.Rate.{consume_rate_slot}

-- `replace(record, issued_at=now, expires_at=now + ttl_seconds)`, where `ttl_seconds` is
-- `expires_at - issued_at`; the sum is taken first, since subtraction stops at 0.
abbrev pub committed : ProofRecord → ℕ → ProofRecord
committed r now = record r { issued_at = now; expires_at = now + r.expires_at - r.issued_at }

abbrev pub proof_row : ProofRecord → ProofRow
proof_row r = record {
  token_digest = r.token_digest;
  proof_tag = r.proof_tag;
  hash_kid = r.hash_kid;
  client_id = r.client_id;
  issue_credential_id = r.issue_credential_id;
  subject = r.subject;
  purpose = r.purpose;
  audience = r.audience;
  issued_at = r.issued_at;
  expires_at = r.expires_at;
  consumed_at = none;
  consume_verification_id = none;
}

module _ {Text : Type 0} where
  -- The statements after the checks on the credential.
  unfoldable pub issue_with :
      Joined Text → ProofRecord → ℕ → String → Tx (Database Text) ProofRecord
  issue_with joined r now event_id = do
    consume_rate_slot r.client_id issue joined.client.issue_limit_per_minute now
    insert_proof (proof_row r)
    insert_audit (record {
      event_id = event_id;
      created_at = now;
      kind = "proof_issued";
      client_id = some r.client_id;
      credential_id = some r.issue_credential_id;
      proof_tag = some r.proof_tag;
      outcome = "issued";
      reason = none;
    })
    pure r

  unfoldable pub issue_checked :
      Option (Joined Text) → ProofRecord → ℕ → String → Tx (Database Text) ProofRecord
  issue_checked none r now event_id = raise (permission_error "credential_rejected")
  issue_checked (some joined) r now event_id =
      let issued = issue_with joined r now event_id in
      if joined_is_accepted joined r.client_id now
      then issued
      else raise (permission_error "credential_rejected")

  -- Store.issue_proof
  unfoldable pub issue_proof : ProofRecord → String → ℕ → String → Tx (Database Text) ProofRecord
  issue_proof r hash_key_check now event_id = write (do
    require_operational
    register_hash_key r.hash_kid hash_key_check
    joined ← gets (λ db. join r.issue_credential_id issuance db.clients db.credentials)
    issue_checked joined (committed r now) now event_id)
