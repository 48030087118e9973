-- ===== src/Store/Consistency.antt =====
-- Every call keeps the keys and the references of five tables.
mod Schema
mod Inserts
mod Updates
mod Deletes
pub use Schema.*
use Inserts.{
  insert_client-IsConsistent, insert_credential-IsConsistent, insert_proof-IsConsistent,
  insert_verification-IsConsistent, insert_audit-IsConsistent,
}
use Updates.{clients-AreConsistent, credentials-AreConsistent, proofs-AreConsistent}
use Deletes.{delete_credentials-IsConsistent, selected-AreConsistent}
use onceproof.Base.{
  String, ◌≡◌, refl, ap, ◌∙◌, Bool, true, false, not, ◌&&◌, Option, none, some, List, [], ◌∷◌, ◌==◌,
  arith, eq_iff, any, select, update, any-update_same, All, All-update, All-select, All-map,
  All-any, Distinct, Distinct-select, Distinct-update, rewrite, if◌then◌else◌,
}
use onceproof.Model.Json.{Codec}
use onceproof.Store.Tx.{◌>>=◌}
use onceproof.Store.Keeps.{Keeps, Keeps-constrained}
use onceproof.Store.Rows.{
  ProofRow, ClientRow, CredentialRow, VerificationRow, AuditRow, Operation, Database, is_current,
}
use onceproof.Store.Tables.{
  same_client, same_credential, same_proof, same_verification, same_event, client_is, credential_is,
  issued_by, insert_client, insert_credential, insert_proof, insert_verification_row, insert_audit,
  delete_credentials,
}
use onceproof.Store.Shared.{register_hash_key}
use onceproof.Store.Rate.{consume_rate_slot}
use onceproof.Store.Consume.{redeem}
use onceproof.Store.Clients.{demote, revoke_rows}
use onceproof.Store.Maintenance.{
  delete_proofs, delete_verifications, delete_audit_events, delete_rate_events, put_maintenance,
  revoke_everything, clear_restore,
}
use onceproof.Store.Statements.{KeptByStatements, run-kept, no_limits, All-no_limits}
use onceproof.Store.Calls.{Call, run}

module _ {Text : Type 0} where
  pub IsConsistent-kept : KeptByStatements {Text = Text} IsConsistent no_limits
  unfolding register_hash_key consume_rate_slot redeem demote revoke_rows delete_proofs
      delete_verifications delete_audit_events delete_rate_events put_maintenance revoke_everything
      clear_restore ◌>>=◌
  IsConsistent-kept = record {
    on_hash_key = λ kid check. record { at = λ db h. ground arith };
    on_client = insert_client-IsConsistent;
    on_credential = insert_credential-IsConsistent;
    on_proof = λ row _. insert_proof-IsConsistent row;
    on_verification = insert_verification-IsConsistent;
    on_audit = insert_audit-IsConsistent;
    on_rate = λ id op limit now. record { at = λ db h. ground arith };
    on_redeem = λ d now id. record {
      at = λ db h. proofs-AreConsistent h _ _ (λ p. (refl, refl, refl, refl));
    };
    on_demote = λ id until db h. credentials-AreConsistent h _ _ (λ c. (refl, refl, refl));
    on_revoke = λ id now db h.
        proofs-AreConsistent
          (credentials-AreConsistent (clients-AreConsistent h _ _ (λ c. refl)) _ _
            (λ c. (refl, refl, refl)))
          _ _ (λ p. (refl, refl, refl, refl));
    on_delete_proofs = λ now keep _. record {
      at = λ db h. (selected-AreConsistent _ (λ _. true) (λ _. true) _ _ _ _ _ h).0;
    };
    on_delete_credentials = delete_credentials-IsConsistent;
    on_delete_verifications = λ now keep _. record {
      at = λ db h. (selected-AreConsistent (λ _. true) _ (λ _. true) _ _ _ _ _ h).1;
    };
    on_delete_audit = λ now keep. record {
      at = λ db h. (selected-AreConsistent (λ _. true) (λ _. true) _ _ _ _ _ _ h).2;
    };
    on_delete_rate = λ now. record { at = λ db h. h };
    on_maintenance = λ name n db h. h;
    on_revoke_all = λ now db h.
        proofs-AreConsistent
          (credentials-AreConsistent (clients-AreConsistent h _ _ (λ c. refl)) _ _
            (λ c. (refl, refl, refl)))
          _ _ (λ p. (refl, refl, refl, refl));
    on_clear = λ db h. h;
  }

  -- Over any calls, whatever they return, a ledger keeps the constraints of its clients, credentials,
  -- proofs, verifications and audit events: the primary keys and unique columns, one current
  -- credential for a client and a role, one decision for a client and a key, and the foreign keys.
  pub run-IsConsistent :
      (json : Codec Text) (calls : List Call) (db : Database Text)
      → IsConsistent db
      → IsConsistent (run json calls db)
  run-IsConsistent json calls db h =
      run-kept json IsConsistent-kept calls db (All-no_limits calls) h
