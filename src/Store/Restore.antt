-- ===== src/Store/Restore.antt =====
-- A restored backup: sealed until it is activated, and without authority after that.
use onceproof.Base.{
  ℕ, String, ap, ◌≡◌, refl, Bool, true, false, List, [], ◌∷◌, arith, eq_self, ltb, any, find,
  update, any-update_same, All,
}
use onceproof.Errors.{ok, err, is_ok, restore_required}
use onceproof.Model.Json.{Codec}
use onceproof.Store.Tx.{Tx, ◌>>=◌, write}
use onceproof.Store.Rows.{ClientRow, MaintenanceRow, Database, ProofRecord}
use onceproof.Store.Tables.{client_is, insert_audit}
use onceproof.Store.Shared.{named, is_set, is_restore_required, require_operational}
use onceproof.Store.Consume.{Request, Draws, consume_proof}
use onceproof.Store.Issue.{issue_proof}
use onceproof.Store.Clients.{create_client, rotate_credential, revoke_client}
use onceproof.Store.Maintenance.{
  upsert, put_maintenance, sealed_copy, end_client, revoke_everything, clear_restore,
  activate_restored_backup,
}
use onceproof.Store.Calls.{Call, step, run}
use onceproof.Store.Statements.{run-kept, All-no_limits}
use onceproof.Store.OnceOnly.{is_verified}
use onceproof.Store.Revocation.{is_active_client, IsRevokedClient, IsRevokedClient-kept}
use onceproof.Store.CutOff.{revoked-consume_proof, revoked-issue_proof}

is_set-update :
    (name : String) (n : ℕ) (rows : List MaintenanceRow)
    → any (named name) rows ≡ true
    → is_set
        (find (named name) (update (named name) (λ row. record row { value_integer = n }) rows))
      ≡ ltb 0 n
unfolding any find update
is_set-update name n [] h = cc
is_set-update name n (r ∷ rows) h = ground (arith, is_set-update name n rows)

is_set-upsert :
    (name : String) (n : ℕ) (rows : List MaintenanceRow)
    → is_set (find (named name) (upsert name n rows)) ≡ ltb 0 n
unfolding upsert find
is_set-upsert name n rows = ground (arith, is_set-update name n rows, eq_self name)

-- The calls that a sealed ledger refuses.
abbrev pub is_refused_when_sealed : Call → Bool
is_refused_when_sealed (Call.cleanup now keep) = false
is_refused_when_sealed (Call.activate_restored_backup now e) = false
is_refused_when_sealed _ = true

clear_flag :
    (rows : List MaintenanceRow)
    → is_set (
        find
          (named "restore_required")
          (update (named "restore_required") (λ row. record row { value_integer = 0 }) rows))
      ≡ false
unfolding find update
clear_flag [] = refl
clear_flag (r ∷ rows) = ground (arith, clear_flag rows)

module _ {Text : Type 0} where
  pub sealed_copy-IsSealed : (db : Database Text) → is_restore_required (sealed_copy db) ≡ true
  unfolding is_restore_required sealed_copy put_maintenance
  sealed_copy-IsSealed db = is_set-upsert "restore_required" 1 db.maintenance

  sealed_write :
      {B : Type 0} (f : Unit {0} → Tx (Database Text) B) (db : Database Text)
      → is_restore_required db ≡ true
      → write (require_operational >>= f) db ≡ (err restore_required, db)
  unfolding require_operational ◌>>=◌
  sealed_write f db h = ground arith

module _ {Text : Type 0} (json : Codec Text) (db : Database Text) where
  sealed_step :
      (c : Call)
      → is_restore_required db ≡ true
      → is_refused_when_sealed c ≡ true
      → step json c db ≡ db
  unfolding step create_client issue_proof consume_proof rotate_credential revoke_client
  sealed_step (Call.create_client c now e) s r = ap (λ x. x.1) (sealed_write _ db s)
  sealed_step (Call.issue_proof r' check now e) s r = ap (λ x. x.1) (sealed_write _ db s)
  sealed_step (Call.consume_proof q now draws) s r = ap (λ x. x.1) (sealed_write _ db s)
  sealed_step (Call.rotate_credential id role r' check grace now e) s r =
      ap (λ x. x.1) (sealed_write _ db s)
  sealed_step (Call.revoke_client id now e) s r = ap (λ x. x.1) (sealed_write _ db s)
  sealed_step (Call.cleanup now keep) s r = cc
  sealed_step (Call.activate_restored_backup now e) s r = cc

  sealed_run :
      (cs : List Call)
      → is_restore_required db ≡ true
      → All (λ c. is_refused_when_sealed c ≡ true) cs
      → run json cs db ≡ db
  unfolding run
  sealed_run [] s a = refl
  sealed_run (c ∷ cs) s a = rw (sealed_step c s a.0) (sealed_run cs s a.1)

  sealed_calls :
      (q : Request) (r : ProofRecord) (check e : String) (now : ℕ) (draws : Draws)
      → is_restore_required db ≡ true
      → ((consume_proof json q now draws db).0 ≡ err restore_required)
        × ((issue_proof r check now e db).0 ≡ err restore_required)
  unfolding issue_proof consume_proof
  sealed_calls q r check e now draws s =
      (ap (λ x. x.0) (sealed_write _ db s), ap (λ x. x.0) (sealed_write _ db s))

module _ {Text : Type 0} (json : Codec Text) (db : Database Text) where
  -- A copy that `backup` made is not changed by any sequence of calls that create clients, issue,
  -- verify, rotate or revoke; after them `consume_proof` and `issue_proof` still raise
  -- RestoreRequiredError.
  pub run-sealed_copy :
      (cs : List Call)
      → All (λ c. is_refused_when_sealed c ≡ true) cs
      → (q : Request) (r : ProofRecord) (check e : String) (now : ℕ) (draws : Draws)
      → (run json cs (sealed_copy db) ≡ sealed_copy db)
        × ((consume_proof json q now draws (run json cs (sealed_copy db))).0 ≡ err restore_required)
        × ((issue_proof r check now e (run json cs (sealed_copy db))).0 ≡ err restore_required)
  run-sealed_copy cs a q r check e now draws =
      let same = sealed_run json (sealed_copy db) cs (sealed_copy-IsSealed db) a in
      let (consume, issue) =
        sealed_calls json (sealed_copy db) q r check e now draws (sealed_copy-IsSealed db) in
      (same, rw same consume, rw same issue)

module _ {Text : Type 0} (now : ℕ) where
  all_inactive :
      (id : String) (cs : List (ClientRow Text))
      → any (is_active_client id) (update (λ c. true) (end_client now) cs) ≡ false
  unfolding any update
  all_inactive id [] = refl
  all_inactive id (c ∷ cs) = ground (arith, all_inactive id cs)

module _ {Text : Type 0} (now : ℕ) (e : String) (db db' : Database Text) where
  -- What an activation that returned has done to a client that was registered.
  activated_client :
      (id : String)
      → activate_restored_backup now e db ≡ (ok tt, db')
      → any (client_is id) db.clients ≡ true
      → IsRevokedClient id db'
  unfolding activate_restored_backup revoke_everything clear_restore insert_audit ◌>>=◌
  activated_client id h there =
      let off = all_inactive now id db.clients in
      let same =
        any-update_same (client_is id) (λ c. true) (end_client now) (λ c. refl) db.clients in
      record { registered = ground arith; inactive = ground arith }

  activated_open :
      activate_restored_backup now e db ≡ (ok tt, db') → is_restore_required db' ≡ false
  unfolding activate_restored_backup revoke_everything clear_restore insert_audit
      is_restore_required ◌>>=◌
  activated_open h = let open_again = clear_flag db.maintenance in ground arith

  -- An activation that returns lifts the seal, and ends the authority of every client that was
  -- registered: after any further calls no verification of it is accepted and no proof is issued to
  -- it.
  pub activate_restored_backup-cut_off :
      (json : Codec Text) (id : String)
      → activate_restored_backup now e db ≡ (ok tt, db')
      → any (client_is id) db.clients ≡ true
      → (cs : List Call) (later : ℕ) (q : Request) (draws : Draws) (r : ProofRecord)
        (check e' : String)
      → q.client_id ≡ id
      → r.client_id ≡ id
      → (is_restore_required db' ≡ false)
        × (is_verified (consume_proof json q later draws (run json cs db')).0 ≡ false)
        × (is_ok (issue_proof r check later e' (run json cs db')).0 ≡ false)
  activate_restored_backup-cut_off json id h there cs later q draws r check e' same same' =
      let off =
        run-kept json (IsRevokedClient-kept id) cs db' (All-no_limits cs)
          (activated_client id h there) in
      (
        activated_open h,
        revoked-consume_proof json id (run json cs db') later off q draws same,
        revoked-issue_proof json id (run json cs db') later off r check e' same',
      )
