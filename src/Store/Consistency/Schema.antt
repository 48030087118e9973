-- ===== src/Store/Consistency/Schema.antt =====
-- The keys and the references of five tables, as a predicate.
use onceproof.Base.{
  String, ◌≡◌, ap, ◌∙◌, Bool, true, List, ◌∷◌, ◌==◌, arith, any, update, any-update_same, All,
  Distinct,
}
use onceproof.Store.Rows.{ProofRow, ClientRow, CredentialRow, VerificationRow, AuditRow, Database}
use onceproof.Store.Tables.{
  same_client, same_credential, same_proof, same_verification, same_event, client_is, credential_is,
}

abbrev pub HasCredential : List CredentialRow → String → Type 0
HasCredential credentials id = any (credential_is id) credentials ≡ true

pub HasCredential-updated :
    (q : CredentialRow → Bool) (f : CredentialRow → CredentialRow)
    → ((c : CredentialRow) → (f c).credential_id ≡ c.credential_id)
    → (cs : List CredentialRow) (id : String) → HasCredential cs id
    → HasCredential (update q f cs) id
HasCredential-updated q f same cs id h =
    any-update_same (credential_is id) q f (λ c. ap (λ (s : String). s == id) (same c)) cs ∙ h

module _ {Text : Type 0} where
  abbrev pub HasClient : List (ClientRow Text) → String → Type 0
  HasClient clients id = any (client_is id) clients ≡ true

  -- Primary keys and unique indexes, then foreign keys, of five tables.
  pub record AreConsistent (clients : List (ClientRow Text)) (credentials : List CredentialRow)
      (proofs : List ProofRow) (verifications : List (VerificationRow Text))
      (events : List AuditRow) : Type 0 where
    pub unique_clients : Distinct same_client clients
    pub unique_credentials : Distinct same_credential credentials
    pub unique_proofs : Distinct same_proof proofs
    pub unique_verifications : Distinct same_verification verifications
    pub unique_events : Distinct same_event events
    pub credential_clients : All (λ c. HasClient clients c.client_id) credentials
    pub proof_clients : All (λ p. HasClient clients p.client_id) proofs
    pub proof_credentials : All (λ p. HasCredential credentials p.issue_credential_id) proofs

  abbrev pub IsConsistent : Database Text → Type 0
  IsConsistent db =
      AreConsistent db.clients db.credentials db.proofs db.verifications db.audit_events

  pub HasClient-more :
      (row : ClientRow Text) (cs : List (ClientRow Text)) (id : String)
      → HasClient cs id
      → HasClient (row ∷ cs) id
  unfolding any
  HasClient-more row cs id h = ground arith

  -- An update of the clients that keeps their identifiers.
  pub HasClient-updated :
      (q : ClientRow Text → Bool) (f : ClientRow Text → ClientRow Text)
      → ((c : ClientRow Text) → (f c).client_id ≡ c.client_id)
      → (cs : List (ClientRow Text)) (id : String) → HasClient cs id
      → HasClient (update q f cs) id
  HasClient-updated q f same cs id h =
      any-update_same (client_is id) q f (λ c. ap (λ (s : String). s == id) (same c)) cs ∙ h
