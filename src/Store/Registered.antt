-- ===== src/Store/Registered.antt =====
-- What a call of `create_client` that returned has added.
use onceproof.Base.{
  ℕ, String, ◌≡◌, refl, ap, subst, ◌∙◌, arith, Bool, true, false, List, ◌∷◌, ◌==◌, any,
}
use onceproof.Errors.{Error, ok}
use onceproof.Model.Json.{Codec}
use onceproof.Store.Tx.{Tx, ◌>>=◌, raise_when}
use onceproof.Store.Keeps.{>>=-eq_ok, write-eq_ok}
use onceproof.Store.Rows.{CredentialRow, ClientRow, AuditRow, Database}
use onceproof.Store.Tables.{insert_client, insert_credential, insert_audit, same_credential}
use onceproof.Store.Shared.{register_hash_key}
use onceproof.Store.Clients.{NewClient, credential_row, client_row, create_client}
use onceproof.Store.Outcome.{operational-eq_ok}
use onceproof.Store.Issued.{hash_key-frame}

other_id :
    (a b : CredentialRow) (cs : List CredentialRow)
    → any (same_credential a) (b ∷ cs) ≡ false
    → (a.credential_id == b.credential_id) ≡ false
unfolding any
other_id a b cs h = ground arith

module _ {Text : Type 0} where
  credential_added :
      (c : CredentialRow) (db db' : Database Text)
      → insert_credential c db ≡ (ok tt, db')
      → (any (same_credential c) db.credentials ≡ false) × (db'.credentials ≡ c ∷ db.credentials)
  unfolding insert_credential
  credential_added c db db' h = (ground arith, ground arith)

  client_added :
      (c : ClientRow Text) (db db' : Database Text)
      → insert_client c db ≡ (ok tt, db')
      → db'.credentials ≡ db.credentials
  unfolding insert_client
  client_added c db db' h = ground arith

  event_added :
      (a : AuditRow) (db db' : Database Text)
      → insert_audit a db ≡ (ok tt, db')
      → db'.credentials ≡ db.credentials
  unfolding insert_audit
  event_added a db db' h = ground arith

  pub raise_when-fine :
      {B : Type 0} (t : Bool) (e : Error) (f : Unit {0} → Tx (Database Text) B)
      (db db' : Database Text) (b : B)
      → (raise_when t e >>= f) db ≡ (ok b, db')
      → (t ≡ false) × (f tt db ≡ (ok b, db'))
  unfolding ◌>>=◌
  raise_when-fine true e f db db' b h = absurd (ground arith)
  raise_when-fine false e f db db' b h = (refl, h)

  -- The two credentials of the call stand first, and have different identifiers.
  pub create_client-credentials :
      (json : Codec Text) (c : NewClient) (now : ℕ) (e : String) (db db' : Database Text)
      → create_client json c now e db ≡ (ok tt, db')
      → (db'.credentials
          ≡ credential_row c.verification_credential now
            ∷ credential_row c.issuance_credential now
            ∷ db.credentials)
        × ((c.verification_credential.credential_id == c.issuance_credential.credential_id) ≡ false)
  unfolding create_client
  create_client-credentials json c now e db db' h =
      let h₀ = operational-eq_ok _ db db' tt (write-eq_ok _ db h) in
      let (_, h₁) = raise_when-fine _ _ _ db db' tt h₀ in
      let (_, d₁, keyed, h₂) =
        >>=-eq_ok (register_hash_key c.issuance_credential.hash_kid c.hash_key_check) _ db h₁ in
      let (_, d₂, clients, h₃) = >>=-eq_ok (insert_client (client_row json c now)) _ d₁ h₂ in
      let (_, d₃, first, h₄) =
        >>=-eq_ok (insert_credential (credential_row c.issuance_credential now)) _ d₂ h₃ in
      let (_, d₄, second, h₅) =
        >>=-eq_ok (insert_credential (credential_row c.verification_credential now)) _ d₃ h₄ in
      let (_, same₁, _) =
        hash_key-frame c.issuance_credential.hash_kid c.hash_key_check db d₁ keyed in
      let same₂ = client_added _ d₁ d₂ clients in
      let (_, added) = credential_added _ d₂ d₃ first in
      let (unused, added') = credential_added _ d₃ d₄ second in
      let same₅ = event_added _ d₄ db' h₅ in
      (
        same₅
            ∙ added'
            ∙ ap (λ cs. credential_row c.verification_credential now ∷ cs)
                (added ∙ ap (λ cs. credential_row c.issuance_credential now ∷ cs) (same₂ ∙ same₁)),
        other_id (credential_row c.verification_credential now)
            (credential_row c.issuance_credential now) d₂.credentials
            (subst
              (λ cs.
                any (same_credential (credential_row c.verification_credential now)) cs ≡ false)
              added unused),
      )
