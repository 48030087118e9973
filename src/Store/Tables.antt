-- ===== src/Store/Tables.antt =====
-- The constraints of the schema (`_create_schema`): what an INSERT or a DELETE checks before it
-- changes a table. A statement that would break one raises IntegrityError.
use onceproof.Base.{
  ℕ, String, Bool, false, not, ◌&&◌, ◌||◌, Option, some, ◌∷◌, ◌==◌, leb, any, select, count,
}
use onceproof.Store.Tx.{Tx, constrained}
use onceproof.Store.Rows.{
  same_role, is_current, ClientRow, CredentialRow, ProofRow, VerificationRow, AuditRow, Database,
}

-- PRIMARY KEY and UNIQUE, as a relation between two rows of a table.
-- Two values of a column that is NULL in most rows; NULL equals nothing.
abbrev pub same_key : Option String → Option String → Bool
same_key (some j) (some k) = j == k
same_key _ _ = false

module _ {Text : Type 0} where
  abbrev pub same_client : ClientRow Text → ClientRow Text → Bool
  same_client a b = a.client_id == b.client_id

  -- PRIMARY KEY (verification_id), and the partial index verification_idempotency.
  abbrev pub same_verification : VerificationRow Text → VerificationRow Text → Bool
  same_verification a b =
      a.verification_id == b.verification_id
      || (a.client_id == b.client_id && same_key a.idempotency_key b.idempotency_key)

-- PRIMARY KEY (credential_id), and the partial index one_current_credential_per_role.
abbrev pub same_credential : CredentialRow → CredentialRow → Bool
same_credential a b =
    a.credential_id == b.credential_id
    || (is_current a.status
        && is_current b.status
        && a.client_id == b.client_id
        && same_role a.role b.role)

-- PRIMARY KEY (token_digest), and UNIQUE (proof_tag).
abbrev pub same_proof : ProofRow → ProofRow → Bool
same_proof a b = a.token_digest == b.token_digest || a.proof_tag == b.proof_tag

abbrev pub same_event : AuditRow → AuditRow → Bool
same_event a b = a.event_id == b.event_id

-- CHECK (value BETWEEN low AND high)
abbrev pub between : ℕ → ℕ → ℕ → Bool
between low high n = leb low n && leb n high

abbrev pub credential_is : String → CredentialRow → Bool
credential_is id c = c.credential_id == id

abbrev pub issued_by : CredentialRow → ProofRow → Bool
issued_by c p = p.issue_credential_id == c.credential_id

module _ {Text : Type 0} where
  abbrev pub client_is : String → ClientRow Text → Bool
  client_is id c = c.client_id == id

  unfoldable pub insert_client : ClientRow Text → Tx (Database Text) (Unit {0})
  unfolding constrained
  insert_client row =
      constrained
        (λ db.
          any (same_client row) db.clients
          || not (between 1 3600 row.proof_ttl_seconds)
          || not (between 1 100000 row.issue_limit_per_minute)
          || not (between 1 100000 row.verify_limit_per_minute))
        (λ db. tt) (λ db. record db { clients = row ∷ db.clients })

  -- REFERENCES clients(client_id)
  unfoldable pub insert_credential : CredentialRow → Tx (Database Text) (Unit {0})
  unfolding constrained
  insert_credential row =
      constrained
        (λ db.
          any (same_credential row) db.credentials
          || not (any (client_is row.client_id) db.clients))
        (λ db. tt) (λ db. record db { credentials = row ∷ db.credentials })

  -- REFERENCES clients(client_id) and credentials(credential_id)
  unfoldable pub insert_proof : ProofRow → Tx (Database Text) (Unit {0})
  unfolding constrained
  insert_proof row =
      constrained
        (λ db.
          any (same_proof row) db.proofs
          || not (any (client_is row.client_id) db.clients)
          || not (any (credential_is row.issue_credential_id) db.credentials))
        (λ db. tt) (λ db. record db { proofs = row ∷ db.proofs })

  unfoldable pub insert_verification_row : VerificationRow Text → Tx (Database Text) (Unit {0})
  unfolding constrained
  insert_verification_row row =
      constrained (λ db. any (same_verification row) db.verifications) (λ db. tt)
        (λ db. record db { verifications = row ∷ db.verifications })

  -- Store._insert_audit; the identifier of the row is the one that was drawn.
  unfoldable pub insert_audit : AuditRow → Tx (Database Text) (Unit {0})
  unfolding constrained
  insert_audit row =
      constrained (λ db. any (same_event row) db.audit_events) (λ db. tt)
        (λ db. record db { audit_events = row ∷ db.audit_events })

  -- ON DELETE RESTRICT: a credential that a proof refers to cannot go.
  unfoldable pub delete_credentials : (CredentialRow → Bool) → Tx (Database Text) ℕ
  unfolding constrained
  delete_credentials doomed =
      constrained (λ db. any (λ c. doomed c && any (issued_by c) db.proofs) db.credentials)
        (λ db. count doomed db.credentials)
        (λ db. record db { credentials = select (λ c. not (doomed c)) db.credentials })
