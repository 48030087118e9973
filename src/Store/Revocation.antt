-- ===== src/Store/Revocation.antt =====
-- A client that was revoked is cut off for good, whatever the ledger does next.
use onceproof.Base.{
  ℕ, String, subst, ◌∙◌, ◌≡◌, refl, inl, inr, Bool, true, false, ◌&&◌, Option, none, some, List, [],
  ◌∷◌, ◌==◌, arith, Bool-cases, eq_iff, eq_sound, any, find, update, any-update, any-update_same,
  any_weaken, Distinct, any_of_find,
}
use onceproof.Errors.{ok}
use onceproof.Store.Tx.{◌>>=◌}
use onceproof.Store.Rows.{Role, is_active, ClientRow, CredentialRow, Database}
use onceproof.Store.Tables.{
  client_is, same_client, insert_client, insert_credential, insert_proof, insert_verification_row,
  insert_audit, delete_credentials,
}
use onceproof.Store.Shared.{join, with_client, joined_is_accepted, register_hash_key}
use onceproof.Store.Rate.{consume_rate_slot}
use onceproof.Store.Consume.{redeem, accepted_join}
use onceproof.Store.Clients.{demote, revoke_row, revoke_rows, revoke_found, revoke_client}
use onceproof.Store.Maintenance.{
  delete_proofs, delete_verifications, delete_audit_events, delete_rate_events, put_maintenance,
  revoke_everything, clear_restore,
}
use onceproof.Store.Consistency.{IsConsistent}
use onceproof.Store.Keeps.{gets-eq_ok, write-eq_ok}
use onceproof.Store.Outcome.{operational-eq_ok}
use onceproof.Store.Statements.{KeptByStatements, no_limits}

module _ {Text : Type 0} where
  abbrev pub is_active_client : String → ClientRow Text → Bool
  is_active_client id c = c.client_id == id && is_active c.status

  -- The client is registered, and no row of it is active.
  pub record IsRevokedClient (id : String) (db : Database Text) : Type 0 where
    pub registered : any (client_is id) db.clients ≡ true
    pub inactive : any (is_active_client id) db.clients ≡ false

  same_clients :
      {id : String} (db db' : Database Text)
      → db'.clients ≡ db.clients
      → IsRevokedClient id db
      → IsRevokedClient id db'
  same_clients db db' e h = record { registered = cc h.registered; inactive = cc h.inactive }

  insert_client-revoked :
      (id : String) (row : ClientRow Text) (cs : List (ClientRow Text))
      → any (same_client row) cs ≡ false
      → any (client_is id) cs ≡ true
      → (row.client_id == id) ≡ false
  unfolding any
  insert_client-revoked id row [] h r = cc
  insert_client-revoked id row (c ∷ cs) h r = ground (
    arith,
    eq_iff row.client_id id,
    eq_iff c.client_id id,
    eq_iff row.client_id c.client_id,
    insert_client-revoked id row cs,
  )

  pub IsRevokedClient-kept :
      (id : String) → KeptByStatements {Text = Text} (IsRevokedClient id) no_limits
  unfolding register_hash_key insert_client insert_credential insert_proof insert_verification_row
      insert_audit consume_rate_slot redeem demote revoke_rows delete_proofs delete_credentials
      delete_verifications delete_audit_events delete_rate_events put_maintenance revoke_everything
      clear_restore any ◌>>=◌
  IsRevokedClient-kept id = record {
    on_hash_key = λ kid check. record { at = λ db h. same_clients db _ (ground arith) h };
    on_client = λ row. record {
      at = λ db h. record {
        registered = ground (arith, h.registered);
        inactive =
            ground (arith, h.inactive, h.registered, insert_client-revoked id row db.clients);
      };
    };
    on_credential = λ row. record { at = λ db h. same_clients db _ (ground arith) h };
    on_proof = λ row other. record { at = λ db h. same_clients db _ (ground arith) h };
    on_verification = λ row. record { at = λ db h. same_clients db _ (ground arith) h };
    on_audit = λ row. record { at = λ db h. same_clients db _ (ground arith) h };
    on_rate = λ id' op limit now. record { at = λ db h. same_clients db _ (ground arith) h };
    on_redeem = λ c now id'. record { at = λ db h. same_clients db _ refl h };
    on_demote = λ id' until db h. same_clients db _ refl h;
    on_revoke = λ id' now db h. record {
      registered = any-update_same (client_is id) _ _ (λ c. refl) db.clients ∙ h.registered;
      inactive = any-update (is_active_client id) _ _ db.clients (λ c a b. ground arith) h.inactive;
    };
    on_delete_proofs = λ now keep _. record { at = λ db h. same_clients db _ refl h };
    on_delete_credentials = λ doomed. record { at = λ db h. same_clients db _ (ground arith) h };
    on_delete_verifications = λ now keep _. record { at = λ db h. same_clients db _ refl h };
    on_delete_audit = λ now keep. record { at = λ db h. same_clients db _ refl h };
    on_delete_rate = λ now. record { at = λ db h. same_clients db _ refl h };
    on_maintenance = λ name n db h. same_clients db _ refl h;
    on_revoke_all = λ now db h. record {
      registered = any-update_same (client_is id) _ _ (λ c. refl) db.clients ∙ h.registered;
      inactive = any-update (is_active_client id) _ _ db.clients (λ c a b. ground arith) h.inactive;
    };
    on_clear = λ db h. same_clients db _ refl h;
  }

  find_inactive :
      (id : String) (cs : List (ClientRow Text)) (c : ClientRow Text)
      → any (is_active_client id) cs ≡ false
      → find (client_is id) cs ≡ some c
      → is_active c.status ≡ false
  unfolding any find
  find_inactive id [] c h f = cc
  find_inactive id (x ∷ cs) c h f = ground (arith, find_inactive id cs c)

  with_client-inactive :
      (id : String) (now : ℕ) (clients : List (ClientRow Text)) (c : CredentialRow)
      (o : Option (ClientRow Text))
      → any (is_active_client id) clients ≡ false
      → find (client_is c.client_id) clients ≡ o
      → accepted_join id now (with_client c o) ≡ none
  unfolding joined_is_accepted
  with_client-inactive id now clients c none h e = refl
  with_client-inactive id now clients c (some k) h e = elim (Bool-cases (c.client_id == id)) [
    | inl mine ↦
        let off =
          find_inactive id clients k h
            (subst (λ x. find (client_is x) clients ≡ some k) (eq_sound c.client_id id mine) e) in
        ground arith
    | inr other ↦ ground arith
  ]

  pub join_inactive :
      (id cid : String) (role : Role) (now : ℕ) (clients : List (ClientRow Text))
      (cs : List CredentialRow)
      → any (is_active_client id) clients ≡ false
      → accepted_join id now (join cid role clients cs) ≡ none
  unfolding join
  join_inactive id cid role now clients [] h = refl
  join_inactive id cid role now clients (c ∷ cs) h = ground (
    arith,
    with_client-inactive id now clients c (find (client_is c.client_id) clients) h refl,
    join_inactive id cid role now clients cs h,
  )

module _ {Text : Type 0} (id : String) where
  -- The row that is found is the client's only one.
  inactive_alone :
      (cs : List (ClientRow Text)) (k : ClientRow Text)
      → Distinct same_client cs
      → find (client_is id) cs ≡ some k
      → is_active k.status ≡ false
      → any (is_active_client id) cs ≡ false
  unfolding any find
  inactive_alone [] k u f off = refl
  inactive_alone (c ∷ cs) k u f off = elim (Bool-cases (c.client_id == id)) [
    | inl mine ↦
        let rest =
          any_weaken (is_active_client id) (same_client c)
            (λ x n.
              ground (
                arith,
                eq_iff x.client_id id,
                eq_iff c.client_id id,
                eq_iff c.client_id x.client_id,
              ))
            cs u.0 in
        ground arith
    | inr other ↦ ground (arith, inactive_alone cs k u.1)
  ]

  revoked_by_update :
      (now : ℕ) (cs : List (ClientRow Text))
      → any (is_active_client id) (update (client_is id) (revoke_row now) cs) ≡ false
  unfolding any update
  revoked_by_update now [] = refl
  revoked_by_update now (c ∷ cs) = ground (arith, revoked_by_update now cs)

  revoke_found-IsRevoked :
      (now : ℕ) (e : String) (o : Option (ClientRow Text)) (db db' : Database Text) (b : Bool)
      → IsConsistent db
      → find (client_is id) db.clients ≡ o
      → revoke_found id now e o db ≡ (ok b, db')
      → IsRevokedClient id db'
  unfolding revoke_rows insert_audit ◌>>=◌
  revoke_found-IsRevoked now e none db db' b c found h = cc
  revoke_found-IsRevoked now e (some k) db db' b c found h =
      let there = any_of_find (client_is id) db.clients k found in
      let alone = inactive_alone db.clients k c.unique_clients found in
      let after = revoked_by_update now db.clients in
      let same =
        any-update_same (client_is id) (client_is id) (revoke_row now) (λ x. refl) db.clients in
      record { registered = ground arith; inactive = ground arith }

  pub revoke_client-IsRevoked :
      (now : ℕ) (e : String) (db db' : Database Text) (b : Bool)
      → IsConsistent db
      → revoke_client id now e db ≡ (ok b, db')
      → IsRevokedClient id db'
  unfolding revoke_client
  revoke_client-IsRevoked now e db db' b c h =
      let rest =
        gets-eq_ok (λ d. find (client_is id) d.clients) _ db
          (operational-eq_ok _ db db' b (write-eq_ok _ db h)) in
      revoke_found-IsRevoked now e (find (client_is id) db.clients) db db' b c refl rest
