-- ===== src/Store/Consistency/Deletes.antt =====
-- A deletion keeps the constraints: what a proof refers to stays.
use onceproof.Base.{
  String, ◌≡◌, Bool, true, false, not, ◌&&◌, List, [], ◌∷◌, ◌==◌, arith, eq_iff, any, select, All,
  All-select, All-any, Distinct-select,
}
use onceproof.Store.Keeps.{Keeps, Keeps-constrained}
use onceproof.Store.Rows.{ProofRow, ClientRow, CredentialRow, VerificationRow, AuditRow}
use onceproof.Store.Tables.{
  same_credential, same_proof, same_verification, same_event, issued_by, delete_credentials,
}
use onceproof.Store.Consistency.Schema.{HasCredential, AreConsistent, IsConsistent}

flip_eq : (s t : String) → (s == t) ≡ (t == s)
flip_eq s t = ground (arith, eq_iff s t, eq_iff t s)

-- A credential that a row refers to is among those that are left.
left_credential :
    (doomed : CredentialRow → Bool) (proofs : List ProofRow) (ks : List CredentialRow)
    (p : ProofRow)
    → ((c : CredentialRow) → issued_by c p ≡ true → any (issued_by c) proofs ≡ true)
    → any (λ c. doomed c && any (issued_by c) proofs) ks ≡ false
    → HasCredential ks p.issue_credential_id
    → HasCredential (select (λ c. not (doomed c)) ks) p.issue_credential_id
unfolding select any
left_credential doomed proofs [] p used free h = h
left_credential doomed proofs (c ∷ ks) p used free h = ground (
  arith,
  used c,
  flip_eq c.credential_id p.issue_credential_id,
  left_credential doomed proofs ks p used,
)

zip_All {ℓ κ ι ν} :
    {A : Type ℓ} {P : A → Type κ} {Q : A → Type ι} {R : A → Type ν}
    → ((x : A) → P x → Q x → R x)
    → (xs : List A) → All P xs
    → All Q xs
    → All R xs
zip_All f [] hp hq = tt
zip_All f (x ∷ xs) hp hq = (f x hp.0 hq.0, zip_All f xs hp.1 hq.1)

module _ {Text : Type 0} where
  pub delete_credentials-IsConsistent :
      (doomed : CredentialRow → Bool) → Keeps IsConsistent (delete_credentials {Text = Text} doomed)
  unfolding delete_credentials
  delete_credentials-IsConsistent doomed = Keeps-constrained _ _ _ λ db fine h. record {
    unique_clients = h.unique_clients;
    unique_credentials = Distinct-select same_credential _ db.credentials h.unique_credentials;
    unique_proofs = h.unique_proofs;
    unique_verifications = h.unique_verifications;
    unique_events = h.unique_events;
    credential_clients = All-select _ _ db.credentials h.credential_clients;
    proof_clients = h.proof_clients;
    proof_credentials =
        zip_All (λ p used e. left_credential doomed db.proofs db.credentials p used fine e)
          db.proofs (All-any issued_by db.proofs) h.proof_credentials;
  }

  pub selected-AreConsistent :
      (qp : ProofRow → Bool) (qv : VerificationRow Text → Bool) (qe : AuditRow → Bool)
      (cs : List (ClientRow Text)) (ks : List CredentialRow) (ps : List ProofRow)
      (vs : List (VerificationRow Text)) (es : List AuditRow)
      → AreConsistent cs ks ps vs es
      → AreConsistent cs ks (select qp ps) vs es
        × AreConsistent cs ks ps (select qv vs) es
        × AreConsistent cs ks ps vs (select qe es)
  selected-AreConsistent qp qv qe cs ks ps vs es h = (
    record {
      unique_clients = h.unique_clients;
      unique_credentials = h.unique_credentials;
      unique_proofs = Distinct-select same_proof qp ps h.unique_proofs;
      unique_verifications = h.unique_verifications;
      unique_events = h.unique_events;
      credential_clients = h.credential_clients;
      proof_clients = All-select _ qp ps h.proof_clients;
      proof_credentials = All-select _ qp ps h.proof_credentials;
    },
    record {
      unique_clients = h.unique_clients;
      unique_credentials = h.unique_credentials;
      unique_proofs = h.unique_proofs;
      unique_verifications = Distinct-select same_verification qv vs h.unique_verifications;
      unique_events = h.unique_events;
      credential_clients = h.credential_clients;
      proof_clients = h.proof_clients;
      proof_credentials = h.proof_credentials;
    },
    record {
      unique_clients = h.unique_clients;
      unique_credentials = h.unique_credentials;
      unique_proofs = h.unique_proofs;
      unique_verifications = h.unique_verifications;
      unique_events = Distinct-select same_event qe es h.unique_events;
      credential_clients = h.credential_clients;
      proof_clients = h.proof_clients;
      proof_credentials = h.proof_credentials;
    },
  )
