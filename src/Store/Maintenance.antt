-- ===== src/Store/Maintenance.antt =====
-- `cleanup`, `activate_restored_backup`, `hash_key_is_in_use` and the seal of `backup` of
-- `class Store`. A bound `x < now - retention` is written `x + retention < now`.
use onceproof.Base.{
  ℕ, ◌+◌, String, Bool, true, not, ◌&&◌, ◌||◌, Option, none, some, List, [], ◌∷◌, ◌==◌, ltb,
  if◌then◌else◌, any, select, update, count, is_none,
}
use onceproof.Errors.{ok, value_error}
use onceproof.Store.Tx.{Tx, ◌>>=◌, ◌>>◌, gets, modify, pure, raise_when, write}
use onceproof.Store.Rows.{
  ClientStatus, CredentialStatus, is_current, ClientRow, CredentialRow, ProofRow, VerificationRow,
  AuditRow, MaintenanceRow, Database,
}
use onceproof.Store.Tables.{insert_audit, delete_credentials, issued_by}
use onceproof.Store.Shared.{is_restore_required, named}
use onceproof.Store.Rate.{is_recent, drop_old_events}
use onceproof.Store.Clients.{cut_short}

-- PROOF_RETENTION_SECONDS, IDEMPOTENCY_RETENTION_SECONDS, and the default for audit rows.
pub record Retention : Type 0 where
  pub proof : ℕ
  pub verification : ℕ
  pub audit : ℕ

abbrev pub default_retention : Retention
default_retention = record { proof = 3600; verification = 86400; audit = 604800 }

pub record Removed : Type 0 where
  pub proofs : ℕ
  pub credentials : ℕ
  pub verifications : ℕ
  pub audit_events : ℕ
  pub rate_events : ℕ

abbrev pub coalesce : Option ℕ → ℕ → ℕ
coalesce none n = n
coalesce (some m) n = m

-- COALESCE(valid_until, revoked_at, created_at)
abbrev pub ended_at : CredentialRow → ℕ
ended_at c = coalesce c.valid_until (coalesce c.revoked_at c.created_at)

-- The WHERE clause of DELETE FROM credentials, over the proofs that are left.
abbrev pub is_disposable : ℕ → List ProofRow → CredentialRow → Bool
is_disposable now proofs c =
    not (is_current c.status) && ltb (ended_at c) now && not (any (issued_by c) proofs)

abbrev pub proof_is_stale : ℕ → ℕ → ProofRow → Bool
proof_is_stale now retention p = ltb (p.expires_at + retention) now

-- INSERT … ON CONFLICT(name) DO UPDATE
unfoldable pub upsert : String → ℕ → List MaintenanceRow → List MaintenanceRow
upsert name n rows =
    if any (named name) rows
    then update (named name) (λ row. record row { value_integer = n }) rows
    else record { name = name; value_integer = n } ∷ rows

abbrev or_now : ℕ → Option ℕ → Option ℕ
or_now now none = some now
or_now now (some t) = some t

abbrev audit_is_stale : ℕ → ℕ → AuditRow → Bool
audit_is_stale now retention a = ltb (a.created_at + retention) now

module _ {Text : Type 0} where
  abbrev pub verification_is_stale : ℕ → ℕ → VerificationRow Text → Bool
  verification_is_stale now retention v = ltb (v.created_at + retention) now

  unfoldable pub delete_proofs : ℕ → ℕ → Tx (Database Text) ℕ
  delete_proofs now retention db = (
    ok (count (proof_is_stale now retention) db.proofs),
    record db { proofs = select (λ p. not (proof_is_stale now retention p)) db.proofs },
  )

  unfoldable pub delete_verifications : ℕ → ℕ → Tx (Database Text) ℕ
  delete_verifications now retention db = (
    ok (count (verification_is_stale now retention) db.verifications),
    record db {
      verifications = select (λ v. not (verification_is_stale now retention v)) db.verifications;
    },
  )

  unfoldable pub delete_audit_events : ℕ → ℕ → Tx (Database Text) ℕ
  delete_audit_events now retention db = (
    ok (count (audit_is_stale now retention) db.audit_events),
    record db { audit_events = select (λ a. not (audit_is_stale now retention a)) db.audit_events },
  )

  unfoldable pub delete_rate_events : ℕ → Tx (Database Text) ℕ
  unfolding drop_old_events
  delete_rate_events now db =
      (ok (count (λ e. not (is_recent now e)) db.rate_events), drop_old_events now db)

  unfoldable pub put_maintenance : String → ℕ → Database Text → Database Text
  unfolding upsert
  put_maintenance name n db = record db { maintenance = upsert name n db.maintenance }

  -- Store.cleanup
  unfoldable pub cleanup : ℕ → Retention → Tx (Database Text) Removed
  cleanup now keep = write (do
    proofs ← delete_proofs now keep.proof
    remaining ← gets (λ db. db.proofs)
    credentials ← delete_credentials (is_disposable now remaining)
    verifications ← delete_verifications now keep.verification
    audit_events ← delete_audit_events now keep.audit
    rate_events ← delete_rate_events now
    modify (put_maintenance "last_cleanup_at" now)
    pure (record {
      proofs = proofs;
      credentials = credentials;
      verifications = verifications;
      audit_events = audit_events;
      rate_events = rate_events;
    }))

  -- SET status = 'revoked', revoked_at = COALESCE(revoked_at, ?)
  abbrev pub end_client : ℕ → ClientRow Text → ClientRow Text
  end_client now c = record c {
    status = ClientStatus.revoked;
    revoked_at = or_now now c.revoked_at;
  }

  -- The UPDATE and DELETE statements of Store.activate_restored_backup.
  unfoldable pub revoke_everything : ℕ → Database Text → Database Text
  revoke_everything now db = record db {
    clients = update (λ c. true) (end_client now) db.clients;
    credentials =
        update (λ c. true)
          (λ c. record c {
            status = CredentialStatus.revoked;
            valid_until = some now;
            revoked_at = or_now now c.revoked_at;
          })
          db.credentials;
    proofs = update (λ p. is_none p.consumed_at) (cut_short now) db.proofs;
    rate_events = [];
  }

  unfoldable pub clear_restore : Database Text → Database Text
  clear_restore db = record db {
    maintenance =
        update (named "restore_required") (λ row. record row { value_integer = 0 }) db.maintenance;
  }

  -- Store.activate_restored_backup
  unfoldable pub activate_restored_backup : ℕ → String → Tx (Database Text) (Unit {0})
  activate_restored_backup now event_id = write (do
    sealed ← gets is_restore_required
    raise_when (not sealed) (value_error "restore_activation_not_required")
    modify (revoke_everything now)
    insert_audit (record {
      event_id = event_id;
      created_at = now;
      kind = "restore_activated";
      client_id = none;
      credential_id = none;
      proof_tag = none;
      outcome = "all_prior_authority_revoked";
      reason = none;
    })
    modify clear_restore)

  -- The rows of the file that Store.backup leaves: a copy, sealed.
  unfoldable pub sealed_copy : Database Text → Database Text
  sealed_copy db = put_maintenance "restore_required" 1 db

  -- Store.hash_key_is_in_use
  unfoldable pub hash_key_is_in_use : String → Database Text → Bool
  hash_key_is_in_use kid db =
      any (λ c. c.hash_kid == kid) db.credentials || any (λ p. p.hash_kid == kid) db.proofs
