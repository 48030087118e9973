-- ===== src/Store/Rotation.antt =====
-- What a rotation leaves: a new credential, and the earlier one until the end of its grace.
use onceproof.Base.{
  ℕ, ◌+◌, String, ◌≡◌, refl, ap, subst, sym, ◌∙◌, Bool, true, false, ◌&&◌, Option, none, some, List,
  [], ◌∷◌, ◌==◌, arith, eq_iff, eq_self, ltb, any, find, update, any-update_same, find_holds,
  any_found,
}
use onceproof.Errors.{ok}
use onceproof.Store.Tx.{◌>>=◌, ◌>>◌, modify, pure}
use onceproof.Store.Keeps.{write-eq_ok, >>=-eq_ok, gets-eq_ok}
use onceproof.Store.Rows.{
  Role, previous, CredentialRow, CredentialRecord, Database, ClientRow, AuditRow,
}
use onceproof.Store.Tables.{
  credential_is, same_credential, insert_credential, insert_audit, client_is,
}
use onceproof.Store.Shared.{credential_is_accepted, register_hash_key}
use onceproof.Store.Clients.{
  credential_row, is_current_for, demote, require_active, require_current, rotate_credential,
}
use onceproof.Store.Outcome.{operational-eq_ok}

-- A credential with this identifier is accepted at this time.
abbrev pub accepted_at : String → ℕ → CredentialRow → Bool
accepted_at id t c = c.credential_id == id && credential_is_accepted c t

-- The row that the UPDATE of a rotation writes.
abbrev demoted : ℕ → CredentialRow → CredentialRow
demoted until c = record c { status = previous; valid_until = some until }

none_accepted :
    (id : String) (until t : ℕ) (cs : List CredentialRow)
    → any (credential_is id) cs ≡ false
    → any (accepted_at id t) (update (credential_is id) (demoted until) cs) ≡ false
unfolding any update
none_accepted id until t [] h = refl
none_accepted id until t (c ∷ cs) h = ground (arith, none_accepted id until t cs)

demoted_accepted :
    (id : String) (until t : ℕ) (cs : List CredentialRow)
    → any (credential_is id) cs ≡ true
    → any (accepted_at id t) (update (credential_is id) (demoted until) cs) ≡ ltb t until
unfolding any update credential_is_accepted
demoted_accepted id until t [] h = cc
demoted_accepted id until t (c ∷ cs) h =
    ground (arith, none_accepted id until t cs, demoted_accepted id until t cs)

-- A new row that clashes with none has an identifier of its own.
other_id :
    (id : String) (row : CredentialRow) (cs : List CredentialRow)
    → any (credential_is id) cs ≡ true
    → any (same_credential row) cs ≡ false
    → (row.credential_id == id) ≡ false
unfolding any
other_id id row [] h u = cc
other_id id row (c ∷ cs) h u = ground (
  arith,
  eq_iff row.credential_id id,
  eq_iff c.credential_id id,
  eq_iff row.credential_id c.credential_id,
  other_id id row cs,
)

module _ {Text : Type 0} where
  inserted_beside :
      (r : CredentialRecord) (now : ℕ) (id : String) (until t : ℕ) (cs : List CredentialRow)
      (db db' : Database Text)
      → any (credential_is id) cs ≡ true
      → db.credentials ≡ update (credential_is id) (demoted until) cs
      → insert_credential (credential_row r now) db ≡ (ok tt, db')
      → (any (accepted_at id t) db'.credentials ≡ ltb t until)
        × (any (accepted_at r.credential_id t) db'.credentials ≡ true)
  unfolding insert_credential any credential_is_accepted
  inserted_beside r now id until t cs db db' there e h =
      let rest = demoted_accepted id until t cs there in
      let still =
        any-update_same (credential_is id) (credential_is id) (demoted until) (λ c. refl) cs in
      let apart =
        other_id id (credential_row r now) (update (credential_is id) (demoted until) cs)
          (still ∙ there) in
      let self = eq_self r.credential_id in (ground arith, ground arith)

  demote-credentials :
      (id : String) (until : ℕ) (db db' : Database Text)
      → modify (demote id until) db ≡ (ok tt, db')
      → db'.credentials ≡ update (credential_is id) (demoted until) db.credentials
  unfolding demote modify
  demote-credentials id until db db' h = ground arith

  hash_key_credentials :
      (kid check : String) (db db' : Database Text)
      → register_hash_key kid check db ≡ (ok tt, db')
      → db'.credentials ≡ db.credentials
  unfolding register_hash_key ◌>>=◌
  hash_key_credentials kid check db db' h = ground arith

  require_active-state :
      (id : String) (o : Option (ClientRow Text)) (db db' : Database Text)
      → require_active id o db ≡ (ok tt, db')
      → db' ≡ db
  unfolding ◌>>=◌
  require_active-state id none db db' h = cc
  require_active-state id (some c) db db' h = ground arith

  require_current-state :
      (o : Option CredentialRow) (db db' : Database Text) (id : String)
      → require_current o db ≡ (ok id, db')
      → (c : CredentialRow) × (o ≡ some c) × (c.credential_id ≡ id) × (db' ≡ db)
  unfolding ◌>>=◌
  require_current-state none db db' id h = absurd (ground arith)
  require_current-state (some c) db db' id h = (c, refl, ground arith, ground arith)

  insert_audit-credentials :
      (a : AuditRow) (b : String × ℕ) (db db' : Database Text) (out : String × ℕ)
      → (insert_audit a >> pure b) db ≡ (ok out, db')
      → (b ≡ out) × (db'.credentials ≡ db.credentials)
  unfolding insert_audit ◌>>=◌
  insert_audit-credentials a b db db' out h = (ground arith, ground arith)

  finish :
      (client_id : String) (role : Role) (r : CredentialRecord) (now grace : ℕ)
      (cs : List CredentialRow) (d d' : Database Text) (c : CredentialRow) (old id : String)
      (until t : ℕ)
      → find (is_current_for client_id role) cs ≡ some c
      → c.credential_id ≡ old
      → old ≡ id
      → until ≡ now + grace
      → d.credentials ≡ update (credential_is old) (demoted (now + grace)) cs
      → insert_credential (credential_row r now) d ≡ (ok tt, d')
      → (after : List CredentialRow) → after ≡ d'.credentials
      → (until ≡ now + grace)
        × (any (λ c. c.credential_id == id && is_current_for client_id role c) cs ≡ true)
        × (any (accepted_at id t) after ≡ ltb t (now + grace))
        × (any (accepted_at r.credential_id t) after ≡ true)
  finish client_id role r now grace cs d d' c old id until t found same same' end_ moved h after e =
      let holds = find_holds (is_current_for client_id role) cs c found in
      let is_id : (c.credential_id == id) ≡ true = rw (same ∙ same') (eq_self id) in
      let there = any_found (is_current_for client_id role) (credential_is id) cs c found is_id in
      let both =
        any_found (is_current_for client_id role)
          (λ c. c.credential_id == id && is_current_for client_id role c) cs c found
          (ground arith) in
      let moved' =
        subst (λ x. d.credentials ≡ update (credential_is x) (demoted (now + grace)) cs) same'
          moved in
      let (was, is) = inserted_beside r now id (now + grace) t cs d d' there moved' h in
      (end_, both, rw e was, rw e is)

  -- On any ledger, a rotation that returns names a credential that was current for the client and the
  -- role, and the end of its grace, `now + grace`. In the ledger that it leaves, the test of
  -- `_credential_is_accepted` passes a row with that identifier before that end and none from then on,
  -- and it passes a row with the new identifier at every time.
  pub rotate_credential-accepted :
      (client_id : String) (role : Role) (r : CredentialRecord) (check : String) (grace now : ℕ)
      (e : String) (db db' : Database Text) (id : String) (until : ℕ)
      → rotate_credential client_id role r check grace now e db ≡ (ok (id, until), db')
      → (t : ℕ)
      → (until ≡ now + grace)
        × (any (λ c. c.credential_id == id && is_current_for client_id role c) db.credentials
            ≡ true)
        × (any (accepted_at id t) db'.credentials ≡ ltb t (now + grace))
        × (any (accepted_at r.credential_id t) db'.credentials ≡ true)
  unfolding rotate_credential
  rotate_credential-accepted client_id role r check grace now e db db' id until h t =
      let h₀ = operational-eq_ok _ db db' (id, until) (write-eq_ok _ db h) in
      let (_, d, keyed, h₁) = >>=-eq_ok (register_hash_key r.hash_kid check) _ db h₀ in
      let h₂ = gets-eq_ok (λ x. find (client_is client_id) x.clients) _ d h₁ in
      let (_, d₁, active, h₃) =
        >>=-eq_ok (require_active client_id (find (client_is client_id) d.clients)) _ d h₂ in
      let h₄ = gets-eq_ok (λ x. find (is_current_for client_id role) x.credentials) _ d₁ h₃ in
      let (old, d₂, named, h₅) =
        >>=-eq_ok (require_current (find (is_current_for client_id role) d₁.credentials)) _ d₁ h₄ in
      let (_, d₃, moved, h₆) = >>=-eq_ok (modify (demote old (now + grace))) _ d₂ h₅ in
      let (_, d₄, inserted, h₇) = >>=-eq_ok (insert_credential (credential_row r now)) _ d₃ h₆ in
      let (c, found, same, s₂) = require_current-state _ d₁ d₂ old named in
      let s₁ = require_active-state client_id _ d d₁ active in
      let rows : d₂.credentials ≡ db.credentials =
        ap (λ (x : Database Text). x.credentials) (s₂ ∙ s₁) ∙ hash_key_credentials _ _ db d keyed in
      let rows₁ : d₁.credentials ≡ db.credentials =
        ap (λ (x : Database Text). x.credentials) s₁ ∙ hash_key_credentials _ _ db d keyed in
      let (out, last) = insert_audit-credentials _ (old, now + grace) d₄ db' (id, until) h₇ in
      let old_id : old ≡ id = ap (λ x. x.0) out in
      let first = subst (λ x. find (is_current_for client_id role) x ≡ some c) rows₁ found in
      let moved' = demote-credentials old (now + grace) d₂ d₃ moved in
      finish client_id role r now grace db.credentials d₃ d₄ c old id until t first same old_id
        (sym (ap (λ x. x.1) out))
        (moved' ∙ ap (update (credential_is old) (demoted (now + grace))) rows) inserted
        db'.credentials last
