-- ===== src/Store/Consistency/Inserts.antt =====
-- An insert keeps the constraints.
use onceproof.Base.{arith, any, All-map}
use onceproof.Store.Keeps.{Keeps, Keeps-constrained}
use onceproof.Store.Rows.{ProofRow, ClientRow, CredentialRow, VerificationRow, AuditRow}
use onceproof.Store.Tables.{
  insert_client, insert_credential, insert_proof, insert_verification_row, insert_audit,
}
use onceproof.Store.Consistency.Schema.{IsConsistent, HasClient-more}

module _ {Text : Type 0} where
  pub insert_client-IsConsistent : (row : ClientRow Text) → Keeps IsConsistent (insert_client row)
  unfolding insert_client
  insert_client-IsConsistent row = Keeps-constrained _ _ _ λ db fine h. record {
    unique_clients = (ground arith, h.unique_clients);
    unique_credentials = h.unique_credentials;
    unique_proofs = h.unique_proofs;
    unique_verifications = h.unique_verifications;
    unique_events = h.unique_events;
    credential_clients =
        All-map _ _ (λ c. HasClient-more row db.clients c.client_id) db.credentials
          h.credential_clients;
    proof_clients =
        All-map _ _ (λ p. HasClient-more row db.clients p.client_id) db.proofs h.proof_clients;
    proof_credentials = h.proof_credentials;
  }

  pub insert_credential-IsConsistent :
      (row : CredentialRow) → Keeps (IsConsistent {Text = Text}) (insert_credential row)
  unfolding insert_credential any
  insert_credential-IsConsistent row = Keeps-constrained _ _ _ λ db fine h. record {
    unique_clients = h.unique_clients;
    unique_credentials = (ground arith, h.unique_credentials);
    unique_proofs = h.unique_proofs;
    unique_verifications = h.unique_verifications;
    unique_events = h.unique_events;
    credential_clients = (ground arith, h.credential_clients);
    proof_clients = h.proof_clients;
    proof_credentials = All-map _ _ (λ p e. ground arith) db.proofs h.proof_credentials;
  }

  pub insert_proof-IsConsistent :
      (row : ProofRow) → Keeps (IsConsistent {Text = Text}) (insert_proof row)
  unfolding insert_proof
  insert_proof-IsConsistent row = Keeps-constrained _ _ _ λ db fine h. record {
    unique_clients = h.unique_clients;
    unique_credentials = h.unique_credentials;
    unique_proofs = (ground arith, h.unique_proofs);
    unique_verifications = h.unique_verifications;
    unique_events = h.unique_events;
    credential_clients = h.credential_clients;
    proof_clients = (ground arith, h.proof_clients);
    proof_credentials = (ground arith, h.proof_credentials);
  }

  pub insert_verification-IsConsistent :
      (row : VerificationRow Text) → Keeps IsConsistent (insert_verification_row row)
  unfolding insert_verification_row
  insert_verification-IsConsistent row = Keeps-constrained _ _ _ λ db fine h. record {
    unique_clients = h.unique_clients;
    unique_credentials = h.unique_credentials;
    unique_proofs = h.unique_proofs;
    unique_verifications = (fine, h.unique_verifications);
    unique_events = h.unique_events;
    credential_clients = h.credential_clients;
    proof_clients = h.proof_clients;
    proof_credentials = h.proof_credentials;
  }

  pub insert_audit-IsConsistent :
      (row : AuditRow) → Keeps (IsConsistent {Text = Text}) (insert_audit row)
  unfolding insert_audit
  insert_audit-IsConsistent row = Keeps-constrained _ _ _ λ db fine h. record {
    unique_clients = h.unique_clients;
    unique_credentials = h.unique_credentials;
    unique_proofs = h.unique_proofs;
    unique_verifications = h.unique_verifications;
    unique_events = (fine, h.unique_events);
    credential_clients = h.credential_clients;
    proof_clients = h.proof_clients;
    proof_credentials = h.proof_credentials;
  }
