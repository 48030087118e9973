-- ===== src/Store/Issued.antt =====
-- What a call of `issue_proof` that returned has checked and written.
use onceproof.Base.{
  ℕ, ◌+◌, ◌-◌, ◌≤◌, String, ◌≡◌, ap, subst, sym, ◌∙◌, true, false, Option, none, some, List, ◌∷◌,
  arith, any, is_some,
}
use onceproof.Errors.{ok}
use onceproof.Store.Tx.{◌>>=◌, ◌>>◌, pure, raise}
use onceproof.Store.Keeps.{>>=-eq_ok, gets-eq_ok, write-eq_ok}
use onceproof.Store.Rows.{
  issuance, issue, ProofRecord, AuditRow, Database, ClientRow, CredentialRow, ProofRow,
}
use onceproof.Store.Tables.{same_proof, insert_proof, insert_audit}
use onceproof.Store.Shared.{Joined, join, register_hash_key}
use onceproof.Store.Rate.{consume_rate_slot}
use onceproof.Store.Issue.{committed, proof_row, issue_with, issue_checked, issue_proof}
use onceproof.Store.Consume.{accepted_join}
use onceproof.Store.Outcome.{operational-eq_ok, rate-frame}

module _ {Text : Type 0} where
  pub hash_key-frame :
      (kid check : String) (db db' : Database Text)
      → register_hash_key kid check db ≡ (ok tt, db')
      → (db'.clients ≡ db.clients) × (db'.credentials ≡ db.credentials) × (db'.proofs ≡ db.proofs)
  unfolding register_hash_key ◌>>=◌
  hash_key-frame kid check db db' h = (ground arith, ground arith, ground arith)

  checked-steps :
      (o : Option (Joined Text)) (r : ProofRecord) (now : ℕ) (e : String) (out : ProofRecord)
      (db db' : Database Text)
      → issue_checked o r now e db ≡ (ok out, db')
      → (is_some (accepted_join r.client_id now o) ≡ true)
        × (j : Joined Text) × (issue_with j r now e db ≡ (ok out, db'))
  unfolding issue_checked raise
  checked-steps none r now e out db db' h = absurd (ground arith)
  checked-steps (some j) r now e out db db' h = (ground arith, j, ground arith)

  inserted-steps :
      (row : ProofRow) (db db' : Database Text)
      → insert_proof row db ≡ (ok tt, db')
      → (any (same_proof row) db.proofs ≡ false) × (db'.proofs ≡ row ∷ db.proofs)
  unfolding insert_proof
  inserted-steps row db db' h = (ground arith, ground arith)

  audited-steps :
      (a : AuditRow) (r out : ProofRecord) (db db' : Database Text)
      → (insert_audit a >> pure r) db ≡ (ok out, db')
      → (r ≡ out) × (db'.proofs ≡ db.proofs)
  unfolding insert_audit ◌>>=◌
  audited-steps a r out db db' h = (ground arith, ground arith)

  issue_with-steps :
      (j : Joined Text) (r : ProofRecord) (now : ℕ) (e : String) (out : ProofRecord)
      (db db' : Database Text)
      → issue_with j r now e db ≡ (ok out, db')
      → (out ≡ r)
        × (any (same_proof (proof_row r)) db.proofs ≡ false)
        × (db'.proofs ≡ proof_row r ∷ db.proofs)
  unfolding issue_with
  issue_with-steps j r now e out db db' h =
      let (_, d, rated, h₁) =
        >>=-eq_ok (consume_rate_slot r.client_id issue j.client.issue_limit_per_minute now) _ db
          h in
      let (_, d₁, stored, h₂) = >>=-eq_ok (insert_proof (proof_row r)) _ d h₁ in
      let (same, _) = rate-frame _ _ _ _ db d rated in
      let (new_row, rows) = inserted-steps (proof_row r) d d₁ stored in
      let (out', last) = audited-steps _ r out d₁ db' h₂ in
      (
        sym out',
        subst (λ ps. any (same_proof (proof_row r)) ps ≡ false) same new_row,
        last ∙ rows ∙ ap (λ ps. proof_row r ∷ ps) same,
      )

  finish :
      (r : ProofRecord) (now : ℕ) (out : ProofRecord) (db db' : Database Text)
      (clients : List (ClientRow Text)) (credentials : List CredentialRow) (proofs : List ProofRow)
      → r.issued_at ≤ r.expires_at
      → clients ≡ db.clients
      → credentials ≡ db.credentials
      → proofs ≡ db.proofs
      → out ≡ committed r now
      → is_some
          (accepted_join r.client_id now (join r.issue_credential_id issuance clients credentials))
        ≡ true
      → any (same_proof (proof_row (committed r now))) proofs ≡ false
      → db'.proofs ≡ proof_row (committed r now) ∷ proofs
      → (out.issued_at ≡ now)
        × (out.expires_at ≡ now + (r.expires_at - r.issued_at))
        × (is_some (
              accepted_join r.client_id now
                (join r.issue_credential_id issuance db.clients db.credentials))
            ≡ true)
        × (any (same_proof (proof_row out)) db.proofs ≡ false)
        × (db'.proofs ≡ proof_row out ∷ db.proofs)
  finish r now out db db' clients credentials proofs life ec ek ep same accepted new_row rows =
      let end_time : (committed r now).expires_at ≡ now + (r.expires_at - r.issued_at) =
        omega arith in
      (
        ap (λ (x : ProofRecord). x.issued_at) same,
        ap (λ (x : ProofRecord). x.expires_at) same ∙ end_time,
        rw (sym ec) (rw (sym ek) accepted),
        rw same (rw (sym ep) new_row),
        rw same (rw (sym ep) rows),
      )

  issue_proof-steps :
      (r : ProofRecord) (check : String) (now : ℕ) (e : String) (out : ProofRecord)
      (db db' : Database Text)
      → issue_proof r check now e db ≡ (ok out, db')
      → (d : Database Text) × (register_hash_key r.hash_kid check db ≡ (ok tt, d))
        × (is_some (
              accepted_join r.client_id now
                (join r.issue_credential_id issuance d.clients d.credentials))
            ≡ true)
        × (out ≡ committed r now)
        × (any (same_proof (proof_row (committed r now))) d.proofs ≡ false)
        × (db'.proofs ≡ proof_row (committed r now) ∷ d.proofs)
  unfolding issue_proof
  issue_proof-steps r check now e out db db' h =
      let h₀ = operational-eq_ok _ db db' out (write-eq_ok _ db h) in
      let (_, d, keyed, h₁) = >>=-eq_ok (register_hash_key r.hash_kid check) _ db h₀ in
      let h₂ =
        gets-eq_ok (λ x. join r.issue_credential_id issuance x.clients x.credentials) _ d h₁ in
      let (accepted, j, h₃) =
        checked-steps (join r.issue_credential_id issuance d.clients d.credentials)
          (committed r now) now e out d db' h₂ in
      let (same, new_row, rows) = issue_with-steps j (committed r now) now e out d db' h₃ in
      (d, keyed, accepted, same, new_row, rows)

  -- The record that is returned is the one that was given, at the time of the transaction.
  pub issue_proof-committed :
      (r : ProofRecord) (check : String) (now : ℕ) (e : String) (out : ProofRecord)
      (db db' : Database Text)
      → issue_proof r check now e db ≡ (ok out, db')
      → out ≡ committed r now
  issue_proof-committed r check now e out db db' h =
      (issue_proof-steps r check now e out db db' h).3

  -- A call of `issue_proof` that returns gives the record with the time of the transaction and the
  -- lifetime that was asked for. Its credential was accepted for issuing for its client, its digest
  -- and its tag were new, and its row, unconsumed, is the one that was added to the proofs.
  pub issue_proof-stores :
      (r : ProofRecord) (check : String) (now : ℕ) (e : String) (out : ProofRecord)
      (db db' : Database Text)
      → r.issued_at ≤ r.expires_at
      → issue_proof r check now e db ≡ (ok out, db')
      → (out.issued_at ≡ now)
        × (out.expires_at ≡ now + (r.expires_at - r.issued_at))
        × (is_some (
              accepted_join r.client_id now
                (join r.issue_credential_id issuance db.clients db.credentials))
            ≡ true)
        × (any (same_proof (proof_row out)) db.proofs ≡ false)
        × (db'.proofs ≡ proof_row out ∷ db.proofs)
  issue_proof-stores r check now e out db db' life h =
      let (d, keyed, accepted, same, new_row, rows) =
        issue_proof-steps r check now e out db db' h in
      let (clients, credentials, proofs) = hash_key-frame r.hash_kid check db d keyed in
      finish r now out db db' d.clients d.credentials d.proofs life clients credentials proofs same
        accepted new_row rows
