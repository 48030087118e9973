-- ===== src/Store/Calls.antt =====
-- A history of the ledger: the calls of `class Store` that write, in the order in which they take
-- the write lock, with what the clock and the random source gave them.
use onceproof.Base.{ℕ, String, List, [], ◌∷◌}
use onceproof.Model.Json.{Codec}
use onceproof.Store.Rows.{Role, CredentialRecord, ProofRecord, Database}
use onceproof.Store.Clients
use onceproof.Store.Clients.{NewClient}
use onceproof.Store.Issue
use onceproof.Store.Consume
use onceproof.Store.Consume.{Request, Draws}
use onceproof.Store.Maintenance
use onceproof.Store.Maintenance.{Retention}

pub data Call : Type 0 where
  create_client : NewClient → ℕ → String → Call
  issue_proof : ProofRecord → String → ℕ → String → Call
  consume_proof : Request → ℕ → Draws → Call
  rotate_credential : String → Role → CredentialRecord → String → ℕ → ℕ → String → Call
  revoke_client : String → ℕ → String → Call
  cleanup : ℕ → Retention → Call
  activate_restored_backup : ℕ → String → Call

module _ {Text : Type 0} (json : Codec Text) where
  -- The database after a call.
  unfoldable pub step : Call → Database Text → Database Text
  step (create_client c now e) db = (Clients.create_client json c now e db).1
  step (issue_proof r check now e) db = (Issue.issue_proof r check now e db).1
  step (consume_proof q now draws) db = (Consume.consume_proof json q now draws db).1
  step (rotate_credential id role r check grace now e) db =
      (Clients.rotate_credential id role r check grace now e db).1
  step (revoke_client id now e) db = (Clients.revoke_client id now e db).1
  step (cleanup now keep) db = (Maintenance.cleanup now keep db).1
  step (activate_restored_backup now e) db = (Maintenance.activate_restored_backup now e db).1

  unfoldable pub run : List Call → Database Text → Database Text
  run [] db = db
  run (c ∷ cs) db = run cs (step c db)
