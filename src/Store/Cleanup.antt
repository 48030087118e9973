-- ===== src/Store/Cleanup.antt =====
-- `cleanup` always returns, and what it keeps can still be found.
use onceproof.Base.{
  ℕ, ◌+◌, ◌≤◌, String, ◌≡◌, refl, ap, Bool, Option, none, true, false, not, ◌&&◌, ◌||◌, leb, ltb,
  ◌==◌, some, List, [], ◌∷◌, arith, any, find, select, find-select,
}
use onceproof.Model.Json.{Codec}
use onceproof.Errors.{is_ok}
use onceproof.Store.Tx.{◌>>=◌}
use onceproof.Store.Rows.{is_current, ProofRow, CredentialRow, VerificationRow, Database}
use onceproof.Store.Tables.{issued_by, delete_credentials}
use onceproof.Store.Consume.{key_matches, idempotent_result}
use onceproof.Store.Maintenance.{
  Retention, is_disposable, ended_at, coalesce, proof_is_stale, delete_proofs, delete_verifications,
  delete_audit_events, delete_rate_events, put_maintenance, cleanup,
}

-- No doomed credential has a proof, so that ON DELETE RESTRICT does not stop the statement.
none_referenced :
    (now : ℕ) (ps : List ProofRow) (cs : List CredentialRow)
    → any (λ c. is_disposable now ps c && any (issued_by c) ps) cs ≡ false
unfolding any
none_referenced now ps [] = refl
none_referenced now ps (c ∷ cs) = ground (arith, none_referenced now ps cs)

-- Queries that agree on every row select the same rows.
select-same {ℓ} :
    {A : Type ℓ} (p q : A → Bool)
    → ((x : A) → p x ≡ q x)
    → (xs : List A) → select p xs ≡ select q xs
select-same p q same xs = ap (λ r. select r xs) (λ i x. same x i)

-- When the authority of a credential ended: with its grace, or else with its revocation, or else when
-- it was made.
unfoldable pub end_of : Option ℕ → Option ℕ → ℕ → ℕ
end_of (some until) revoked created = until
end_of none (some revoked) created = revoked
end_of none none created = created

-- The credential is not current, and ended before now.
abbrev pub is_over : ℕ → CredentialRow → Bool
is_over now c =
    not (is_current c.status) && ltb (end_of c.valid_until c.revoked_at c.created_at) now

-- A proof was issued by the credential.
abbrev pub is_named : CredentialRow → List ProofRow → Bool
is_named c ps = any (λ p. p.issue_credential_id == c.credential_id) ps

ended_at-end_of : (c : CredentialRow) → ended_at c ≡ end_of c.valid_until c.revoked_at c.created_at
unfolding end_of
ended_at-end_of c = by_times c.valid_until c.revoked_at c.created_at
  where
    by_times :
        (until revoked : Option ℕ) (created : ℕ)
        → coalesce until (coalesce revoked created) ≡ end_of until revoked created
    by_times (some t) revoked created = refl
    by_times none (some t) created = refl
    by_times none none created = refl

not_disposable :
    (now : ℕ) (ps : List ProofRow) (c : CredentialRow)
    → not (is_disposable now ps c) ≡ (not (is_over now c) || is_named c ps)
not_disposable now ps c = ground (arith, ended_at-end_of c)

module _ {Text : Type 0} (now : ℕ) (keep : Retention) (db : Database Text) where
  -- The tables that a cleanup leaves.
  abbrev after : Database Text
  after = (cleanup now keep db).1

  pub record Cleaned : Type 0 where
    pub returned : is_ok (cleanup now keep db).0 ≡ true
    pub clients : after.clients ≡ db.clients
    pub proofs : after.proofs ≡ select (λ p. leb now (p.expires_at + keep.proof)) db.proofs
    pub credentials :
        after.credentials
        ≡ select (λ c. not (is_over now c) || is_named c after.proofs) db.credentials
    pub verifications :
        after.verifications
        ≡ select (λ v. leb now (v.created_at + keep.verification)) db.verifications

  -- `cleanup` raises nothing on any database: a credential that it deletes has no proof left. It
  -- keeps the clients. It keeps exactly the proofs and the verifications that are within their
  -- retention, and exactly the credentials that are current, that have not ended before now, or that
  -- a remaining proof was issued by; a credential ends where its grace does, or else when it was
  -- revoked, or else when it was created.
  pub cleanup-Cleaned : Cleaned
  unfolding cleanup delete_proofs delete_credentials delete_verifications delete_audit_events
      delete_rate_events put_maintenance ◌>>=◌ any
  cleanup-Cleaned =
      let left = select (λ p. not (proof_is_stale now keep.proof p)) db.proofs in
      let fine = none_referenced now left db.credentials in
      let kept_proofs : left ≡ select (λ p. leb now (p.expires_at + keep.proof)) db.proofs =
        select-same _ _ (λ p. ground arith) db.proofs in
      record {
        returned = rw fine refl;
        clients = rw fine refl;
        proofs = rw fine kept_proofs;
        credentials = rw fine (select-same _ _ (λ c. not_disposable now left c) db.credentials);
        verifications = rw fine (select-same _ _ (λ v. ground arith) db.verifications);
      }

  -- A verification that is not older than the retention answers its retries after the cleanup as
  -- it did before: the same result, or the same conflict.
  pub idempotent_result-cleanup :
      (json : Codec Text) (client_id key fingerprint : String) (v : VerificationRow Text)
      → find (key_matches client_id key) db.verifications ≡ some v
      → now ≤ v.created_at + keep.verification
      → idempotent_result json client_id (some key) fingerprint after
        ≡ idempotent_result json client_id (some key) fingerprint db
  unfolding idempotent_result
  idempotent_result-cleanup json client_id key fingerprint v found young =
      let left =
        find-select (key_matches client_id key) (λ v. leb now (v.created_at + keep.verification))
          db.verifications v found (ground arith) in
      rw cleanup-Cleaned.verifications (rw left (rw found refl))
