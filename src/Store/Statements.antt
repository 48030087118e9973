-- ===== src/Store/Statements.antt =====
-- An invariant that every statement keeps is kept by every call that respects its limits.
use onceproof.Base.{ℕ, String, Option, none, some, List, [], ◌∷◌, Bool, All}
use onceproof.Model.{VerificationResult}
use onceproof.Model.Json.{Codec}
use onceproof.Store.Tx.{modify}
use onceproof.Store.Keeps.{Keeps, keeps_rules, Keeps-modify}
use onceproof.Store.Rows.{
  Role, Operation, ClientRow, CredentialRow, ProofRow, VerificationRow, AuditRow, Database,
  CredentialRecord, ProofRecord,
}
use onceproof.Store.Tables.{
  insert_client, insert_credential, insert_proof, insert_verification_row, insert_audit,
  delete_credentials,
}
use onceproof.Store.Shared.{Joined, require_operational, register_hash_key}
use onceproof.Store.Rate.{consume_rate_slot}
use onceproof.Store.Clients.{
  NewClient, demote, revoke_rows, revoke_found, require_active, require_current, create_client,
  rotate_credential, revoke_client,
}
use onceproof.Store.Issue.{committed, proof_row, issue_with, issue_checked, issue_proof}
use onceproof.Store.Consume.{
  Request, Draws, redeem, refusal, decide_on, decide, record_decision, consume_new,
  consume_uncached, consume_checked, consume_proof,
}
use onceproof.Store.Maintenance.{
  Retention, delete_proofs, delete_verifications, delete_audit_events, delete_rate_events,
  put_maintenance, revoke_everything, clear_restore, cleanup, activate_restored_backup,
}
use onceproof.Store.Calls.{Call, step, run}

-- What an invariant asks of the calls: of the rows of new proofs, and of the time and the retention
-- of a cleanup, for proofs and for verifications.
pub record Limits : Type 1 where
  pub proof : ProofRow → Type 0
  pub forget_proofs : ℕ → ℕ → Type 0
  pub forget_verifications : ℕ → ℕ → Type 0

abbrev pub no_limits : Limits
no_limits = record {
  proof = λ row. Unit;
  forget_proofs = λ now keep. Unit;
  forget_verifications = λ now keep. Unit;
}

-- Each statement that writes keeps the invariant.
pub record KeptByStatements {Text : Type 0} (P : Database Text → Type 0) (L : Limits) : Type 0 where
  pub on_hash_key : (kid check : String) → Keeps P (register_hash_key kid check)
  pub on_client : (row : ClientRow Text) → Keeps P (insert_client row)
  pub on_credential : (row : CredentialRow) → Keeps P (insert_credential row)
  pub on_proof : (row : ProofRow) → L.proof row → Keeps P (insert_proof row)
  pub on_verification : (row : VerificationRow Text) → Keeps P (insert_verification_row row)
  pub on_audit : (row : AuditRow) → Keeps P (insert_audit row)
  pub on_rate :
      (id : String) (op : Operation) (limit now : ℕ) → Keeps P (consume_rate_slot id op limit now)
  pub on_redeem : (d : String) (now : ℕ) (id : String) → Keeps P (redeem d now id)
  pub on_demote : (id : String) (until : ℕ) (db : Database Text) → P db → P (demote id until db)
  pub on_revoke : (id : String) (now : ℕ) (db : Database Text) → P db → P (revoke_rows id now db)
  pub on_delete_proofs :
      (now keep : ℕ) → L.forget_proofs now keep → Keeps P (delete_proofs now keep)
  pub on_delete_credentials : (doomed : CredentialRow → Bool) → Keeps P (delete_credentials doomed)
  pub on_delete_verifications :
      (now keep : ℕ) → L.forget_verifications now keep → Keeps P (delete_verifications now keep)
  pub on_delete_audit : (now keep : ℕ) → Keeps P (delete_audit_events now keep)
  pub on_delete_rate : (now : ℕ) → Keeps P (delete_rate_events now)
  pub on_maintenance :
      (name : String) (n : ℕ) (db : Database Text) → P db → P (put_maintenance name n db)
  pub on_revoke_all : (now : ℕ) (db : Database Text) → P db → P (revoke_everything now db)
  pub on_clear : (db : Database Text) → P db → P (clear_restore db)

-- The call respects the limits.
abbrev pub Allowed : Limits → Call → Type 0
Allowed L (Call.issue_proof r check now e) = L.proof (proof_row (committed r now))
Allowed L (Call.cleanup now keep) =
    L.forget_proofs now keep.proof × L.forget_verifications now keep.verification
Allowed L _ = Unit

pub Allowed-no_limits : (c : Call) → Allowed no_limits c
Allowed-no_limits (Call.cleanup now keep) = (tt, tt)
Allowed-no_limits _ = tt

pub All-no_limits : (cs : List Call) → All (Allowed no_limits) cs
All-no_limits [] = tt
All-no_limits (c ∷ cs) = (Allowed-no_limits c, All-no_limits cs)

module _ {Text : Type 0} (json : Codec Text) {P : Database Text → Type 0} {L : Limits}
    (kept : KeptByStatements P L) where
  open kept use {
    on_hash_key, on_client, on_credential, on_proof, on_verification, on_audit, on_rate, on_redeem,
    on_demote, on_revoke, on_delete_proofs, on_delete_credentials, on_delete_verifications,
    on_delete_audit, on_delete_rate, on_maintenance, on_revoke_all, on_clear,
  }

  require_operational-Keeps : Keeps P require_operational
  unfolding require_operational
  require_operational-Keeps = search keeps_rules

  create_client-Keeps :
      (c : NewClient) (now : ℕ) (e : String) → Keeps P (create_client json c now e)
  unfolding create_client
  create_client-Keeps c now e =
      search
        (keeps_rules, require_operational-Keeps, on_hash_key, on_client, on_credential, on_audit)
        depth 12

  require_active-Keeps : (id : String) (o : Option (ClientRow Text)) → Keeps P (require_active id o)
  require_active-Keeps id none = search keeps_rules
  require_active-Keeps id (some c) = search keeps_rules

  require_current-Keeps : (o : Option CredentialRow) → Keeps P (require_current o)
  require_current-Keeps none = search keeps_rules
  require_current-Keeps (some c) = search keeps_rules

  demote-Keeps : (id : String) (until : ℕ) → Keeps P (modify (demote id until))
  demote-Keeps id until = Keeps-modify _ (on_demote id until)

  rotate_credential-Keeps :
      (id : String) (role : Role) (r : CredentialRecord) (check : String) (grace now : ℕ)
      (e : String)
      → Keeps P (rotate_credential id role r check grace now e)
  unfolding rotate_credential
  rotate_credential-Keeps id role r check grace now e =
      search
        (
          keeps_rules, require_operational-Keeps, on_hash_key, require_active-Keeps,
          require_current-Keeps, demote-Keeps, on_credential, on_audit,
        )
        depth 14

  revoke_rows-Keeps : (id : String) (now : ℕ) → Keeps P (modify (revoke_rows id now))
  revoke_rows-Keeps id now = Keeps-modify _ (on_revoke id now)

  revoke_found-Keeps :
      (id : String) (now : ℕ) (e : String) (o : Option (ClientRow Text))
      → Keeps P (revoke_found id now e o)
  revoke_found-Keeps id now e none = search keeps_rules
  revoke_found-Keeps id now e (some c) = search (keeps_rules, revoke_rows-Keeps, on_audit)

  revoke_client-Keeps : (id : String) (now : ℕ) (e : String) → Keeps P (revoke_client id now e)
  unfolding revoke_client
  revoke_client-Keeps id now e = search (keeps_rules, require_operational-Keeps, revoke_found-Keeps)

  issue_with-Keeps :
      (j : Joined Text) (r : ProofRecord) (now : ℕ) (e : String)
      → L.proof (proof_row r)
      → Keeps P (issue_with j r now e)
  unfolding issue_with
  issue_with-Keeps j r now e q = search (keeps_rules, on_rate, on_proof, on_audit)

  issue_checked-Keeps :
      (o : Option (Joined Text)) (r : ProofRecord) (now : ℕ) (e : String)
      → L.proof (proof_row r)
      → Keeps P (issue_checked o r now e)
  unfolding issue_checked
  issue_checked-Keeps none r now e q = search keeps_rules
  issue_checked-Keeps (some j) r now e q = search (keeps_rules, issue_with-Keeps)

  issue_proof-Keeps :
      (r : ProofRecord) (check : String) (now : ℕ) (e : String)
      → L.proof (proof_row (committed r now))
      → Keeps P (issue_proof r check now e)
  unfolding issue_proof
  issue_proof-Keeps r check now e q =
      search (keeps_rules, require_operational-Keeps, on_hash_key, issue_checked-Keeps)

  decide_on-Keeps :
      (q : Request) (now : ℕ) (id : String) (p : ProofRow) (o : Option String)
      → Keeps P (decide_on q now id p o)
  decide_on-Keeps q now id p none = search (keeps_rules, on_redeem)
  decide_on-Keeps q now id p (some reason) = search keeps_rules

  decide-Keeps :
      (q : Request) (now : ℕ) (id : String) (o : Option ProofRow) → Keeps P (decide q now id o)
  unfolding decide
  decide-Keeps q now id none = search keeps_rules
  decide-Keeps q now id (some p) = decide_on-Keeps q now id p (refusal q now p)

  record_decision-Keeps :
      (q : Request) (r : VerificationResult) (now : ℕ) (e : String)
      → Keeps P (record_decision json q r now e)
  unfolding record_decision
  record_decision-Keeps q r now e = search (keeps_rules, on_verification, on_audit)

  consume_new-Keeps :
      (j : Joined Text) (q : Request) (now : ℕ) (d : Draws) → Keeps P (consume_new json j q now d)
  unfolding consume_new
  consume_new-Keeps j q now d = search (keeps_rules, on_rate, decide-Keeps, record_decision-Keeps)

  consume_uncached-Keeps :
      (j : Joined Text) (q : Request) (now : ℕ) (d : Draws) (o : Option VerificationResult)
      → Keeps P (consume_uncached json j q now d o)
  unfolding consume_uncached
  consume_uncached-Keeps j q now d none = consume_new-Keeps j q now d
  consume_uncached-Keeps j q now d (some r) = search keeps_rules

  consume_checked-Keeps :
      (q : Request) (now : ℕ) (d : Draws) (o : Option (Joined Text))
      → Keeps P (consume_checked json q now d o)
  unfolding consume_checked
  consume_checked-Keeps q now d none = search keeps_rules
  consume_checked-Keeps q now d (some j) = search (keeps_rules, consume_uncached-Keeps)

  consume_proof-Keeps : (q : Request) (now : ℕ) (d : Draws) → Keeps P (consume_proof json q now d)
  unfolding consume_proof
  consume_proof-Keeps q now d =
      search (keeps_rules, require_operational-Keeps, consume_checked-Keeps)

  put_maintenance-Keeps : (name : String) (n : ℕ) → Keeps P (modify (put_maintenance name n))
  put_maintenance-Keeps name n = Keeps-modify _ (on_maintenance name n)

  cleanup-Keeps :
      (now : ℕ) (keep : Retention)
      → L.forget_proofs now keep.proof
      → L.forget_verifications now keep.verification
      → Keeps P (cleanup now keep)
  unfolding cleanup
  cleanup-Keeps now keep forget forget_v =
      search
        (
          keeps_rules, on_delete_proofs, on_delete_credentials, on_delete_verifications,
          on_delete_audit, on_delete_rate, put_maintenance-Keeps,
        )
        depth 16

  revoke_all-Keeps : (now : ℕ) → Keeps P (modify (revoke_everything now))
  revoke_all-Keeps now = Keeps-modify _ (on_revoke_all now)

  clear-Keeps : Keeps P (modify clear_restore)
  clear-Keeps = Keeps-modify _ on_clear

  activate-Keeps : (now : ℕ) (e : String) → Keeps P (activate_restored_backup now e)
  unfolding activate_restored_backup
  activate-Keeps now e = search (keeps_rules, on_audit, revoke_all-Keeps, clear-Keeps) depth 12

  pub step-kept : (c : Call) (db : Database Text) → Allowed L c → P db → P (step json c db)
  unfolding step
  step-kept (Call.create_client c now e) db a h = (create_client-Keeps c now e).at db h
  step-kept (Call.issue_proof r check now e) db a h = (issue_proof-Keeps r check now e a).at db h
  step-kept (Call.consume_proof q now d) db a h = (consume_proof-Keeps q now d).at db h
  step-kept (Call.rotate_credential id role r check grace now e) db a h =
      (rotate_credential-Keeps id role r check grace now e).at db h
  step-kept (Call.revoke_client id now e) db a h = (revoke_client-Keeps id now e).at db h
  step-kept (Call.cleanup now keep) db a h = (cleanup-Keeps now keep a.0 a.1).at db h
  step-kept (Call.activate_restored_backup now e) db a h = (activate-Keeps now e).at db h

  pub run-kept :
      (cs : List Call) (db : Database Text) → All (Allowed L) cs → P db → P (run json cs db)
  unfolding run
  run-kept [] db a h = h
  run-kept (c ∷ cs) db a h = run-kept cs (step json c db) a.1 (step-kept c db a.0 h)
