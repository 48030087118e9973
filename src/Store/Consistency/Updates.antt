-- ===== src/Store/Consistency/Updates.antt =====
-- An update that keeps the columns of the constraints keeps the constraints.
use onceproof.Base.{
  ◌≡◌, Bool, false, List, arith, update, All-update, All-map, Distinct-update, rewrite,
}
use onceproof.Store.Rows.{ProofRow, ClientRow, CredentialRow, VerificationRow, AuditRow, is_current}
use onceproof.Store.Tables.{same_client, same_credential, same_proof}
use onceproof.Store.Consistency.Schema.{HasCredential-updated, AreConsistent, HasClient-updated}

module _ {Text : Type 0} {cs : List (ClientRow Text)} {ks : List CredentialRow} {ps : List ProofRow}
    {vs : List (VerificationRow Text)} {es : List AuditRow} (h : AreConsistent cs ks ps vs es) where
  module _ (q : ClientRow Text → Bool) (f : ClientRow Text → ClientRow Text)
      (same : (c : ClientRow Text) → (f c).client_id ≡ c.client_id) where
    clash_client :
        (x y : ClientRow Text)
        → same_client x y ≡ false
        → same_client (rewrite same_client q f x) (rewrite same_client q f y) ≡ false
    clash_client x y e = ground (arith, same x, same y)

    pub clients-AreConsistent : AreConsistent (update q f cs) ks ps vs es
    clients-AreConsistent = record {
      unique_clients = Distinct-update same_client q f clash_client cs h.unique_clients;
      unique_credentials = h.unique_credentials;
      unique_proofs = h.unique_proofs;
      unique_verifications = h.unique_verifications;
      unique_events = h.unique_events;
      credential_clients =
          All-map _ _ (λ c. HasClient-updated q f same cs c.client_id) ks h.credential_clients;
      proof_clients =
          All-map _ _ (λ p. HasClient-updated q f same cs p.client_id) ps h.proof_clients;
      proof_credentials = h.proof_credentials;
    }

  -- No credential becomes current.
  module _ (q : CredentialRow → Bool) (f : CredentialRow → CredentialRow)
      (same : (c : CredentialRow)
        → ((f c).credential_id ≡ c.credential_id)
          × ((f c).client_id ≡ c.client_id)
          × (is_current (f c).status ≡ false)) where
    clash_credential :
        (x y : CredentialRow)
        → same_credential x y ≡ false
        → same_credential (rewrite same_credential q f x) (rewrite same_credential q f y) ≡ false
    clash_credential x y e = ground (arith, same x, same y)

    pub credentials-AreConsistent : AreConsistent cs (update q f ks) ps vs es
    credentials-AreConsistent = record {
      unique_clients = h.unique_clients;
      unique_credentials =
          Distinct-update same_credential q f clash_credential ks h.unique_credentials;
      unique_proofs = h.unique_proofs;
      unique_verifications = h.unique_verifications;
      unique_events = h.unique_events;
      credential_clients = All-update _ q f (λ c e. rw (same c).1 e) ks h.credential_clients;
      proof_clients = h.proof_clients;
      proof_credentials =
          All-map _ _ (λ p. HasCredential-updated q f (λ c. (same c).0) ks p.issue_credential_id) ps
            h.proof_credentials;
    }

  module _ (q : ProofRow → Bool) (f : ProofRow → ProofRow)
      (same : (p : ProofRow)
        → ((f p).token_digest ≡ p.token_digest)
          × ((f p).proof_tag ≡ p.proof_tag)
          × ((f p).client_id ≡ p.client_id)
          × ((f p).issue_credential_id ≡ p.issue_credential_id)) where
    clash_proof :
        (x y : ProofRow)
        → same_proof x y ≡ false
        → same_proof (rewrite same_proof q f x) (rewrite same_proof q f y) ≡ false
    clash_proof x y e = ground (arith, same x, same y)

    pub proofs-AreConsistent : AreConsistent cs ks (update q f ps) vs es
    proofs-AreConsistent = record {
      unique_clients = h.unique_clients;
      unique_credentials = h.unique_credentials;
      unique_proofs = Distinct-update same_proof q f clash_proof ps h.unique_proofs;
      unique_verifications = h.unique_verifications;
      unique_events = h.unique_events;
      credential_clients = h.credential_clients;
      proof_clients = All-update _ q f (λ p e. rw (same p).2 e) ps h.proof_clients;
      proof_credentials = All-update _ q f (λ p e. rw (same p).3 e) ps h.proof_credentials;
    }
