-- ===== src/Tests/Ledger.antt =====
-- A ledger with one client, and the calls on it.
use onceproof.Base.{
  String, ◌≡◌, refl, true, Option, none, some, List, [], ◌∷◌, find, any, count, select, update,
  is_some,
}
use onceproof.Errors.{ok}
use onceproof.Model.{VerificationResult}
use onceproof.Model.Json.{Value, plain_codec}
use onceproof.Model.Codec.{to_dict, from_dict}
use onceproof.Store.Tx.{◌>>=◌}
use onceproof.Store.Rows.{
  Role, issuance, verification, current, CredentialRecord, ProofRecord, ProofRow, Database,
}
use onceproof.Store.Shared.{
  is_restore_required, require_operational, register_hash_key, join, joined_is_accepted,
}
use onceproof.Store.Rate.{drop_old_events, take_slot, consume_rate_slot, oldest, retry_after}
use onceproof.Store.Tables.{
  insert_client, insert_credential, insert_proof, insert_verification_row, insert_audit,
  delete_credentials,
}
use onceproof.Store.Clients.{
  NewClient, create_client, audience_items, rotate_credential, demote, revoke_client, revoke_rows,
}
use onceproof.Store.Issue.{committed, proof_row, issue_proof, issue_checked, issue_with}
use onceproof.Store.Consume.{
  Request, Draws, accepted_result, rejected_result, consume_proof, consume_checked,
  consume_uncached, consume_new, idempotent_result, result_from_json, decide, redeem, redeemed,
  refusal, record_decision,
}
use onceproof.Store.Calls.{Call, step, run}
use onceproof.Store.Consistency.{IsConsistent, run-IsConsistent}
use onceproof.Store.Outcome.{verifier, cached}
use onceproof.Store.Maintenance.{
  sealed_copy, put_maintenance, cleanup, revoke_everything, clear_restore, activate_restored_backup,
  delete_proofs, delete_verifications, delete_audit_events, delete_rate_events,
}

abbrev pub empty : Database Value
empty = record {
  clients = [];
  credentials = [];
  proofs = [];
  verifications = [];
  audit_events = [];
  rate_events = [];
  hash_keys = [];
  maintenance = [];
}

pub empty-IsConsistent : IsConsistent empty
empty-IsConsistent = record {
  unique_clients = tt;
  unique_credentials = tt;
  unique_proofs = tt;
  unique_verifications = tt;
  unique_events = tt;
  credential_clients = tt;
  proof_clients = tt;
  proof_credentials = tt;
}

abbrev credential : String → Role → CredentialRecord
credential id role = record {
  credential_id = id;
  client_id = "opc_1";
  role = role;
  hash_kid = "hk_1";
  secret_digest = "sd";
  status = current;
  valid_until = none;
}

abbrev pub shop : NewClient
shop = record {
  client_id = "opc_1";
  name = "shop";
  allowed_audiences = "urn:shop" ∷ [];
  proof_ttl_seconds = 120;
  issue_limit_per_minute = 2;
  verify_limit_per_minute = 2;
  issuance_credential = credential "ic_1" issuance;
  verification_credential = credential "vc_1" verification;
  hash_key_check = "check";
}

abbrev pub proof : ProofRecord
proof = record {
  token_digest = "d1";
  proof_tag = "pf_d1";
  hash_kid = "hk_1";
  client_id = "opc_1";
  issue_credential_id = "ic_1";
  subject = "user";
  purpose = "login";
  audience = "urn:shop";
  issued_at = 1000;
  expires_at = 1100;
  consumed_at = none;
}

abbrev pub request : Option String → Request
request key = record {
  credential_id = "vc_1";
  client_id = "opc_1";
  token_digest = "d1";
  subject = "user";
  purpose = "login";
  audience = "urn:shop";
  request_fingerprint = "f1";
  idempotency_key = key;
}

abbrev pub draws : String → String → Draws
draws v e = record { verification_id = v; event_id = e }

-- Registration and one proof.
abbrev pub opening : List Call
opening = Call.create_client shop 900 "ae_1" ∷ Call.issue_proof proof "check" 1010 "ae_2" ∷ []

abbrev pub history : List Call
history =
    Call.create_client shop 900 "ae_1"
    ∷ Call.issue_proof proof "check" 1010 "ae_2"
    ∷ Call.consume_proof (request none) 1020 (draws "vr_1" "ae_3")
    ∷ Call.consume_proof (request none) 1030 (draws "vr_2" "ae_4")
    ∷ []

-- The run of a history, with every operation open.
unfoldable pub play : List Call → Database Value → Database Value
unfolding run step create_client issue_proof issue_checked issue_with require_operational
    is_restore_required register_hash_key insert_client insert_credential insert_audit insert_proof
    consume_rate_slot drop_old_events take_slot oldest retry_after join joined_is_accepted
    consume_proof consume_checked consume_uncached consume_new idempotent_result result_from_json
    decide redeem redeemed refusal record_decision insert_verification_row rotate_credential demote
    revoke_client revoke_rows activate_restored_backup revoke_everything clear_restore sealed_copy
    put_maintenance cleanup delete_proofs delete_credentials delete_verifications
    delete_audit_events delete_rate_events find any count select update to_dict from_dict ◌>>=◌
    audience_items accepted_result rejected_result
play calls db = run plain_codec calls db

abbrev pub opened : Database Value
opened = run plain_codec opening empty

abbrev pub stored : ProofRow
stored = proof_row (committed proof 1010)

abbrev pub answer : VerificationResult
answer = accepted_result stored "vr_1" 1020

abbrev pub first_draws : Draws
first_draws = draws "vr_1" "ae_3"

abbrev pub keyed : Request
keyed = request (some "k1")

abbrev pub verified_once : Database Value
verified_once = (consume_proof plain_codec keyed 1020 first_draws opened).1

pub first_answer :
    consume_proof plain_codec keyed 1020 first_draws opened ≡ (ok answer, verified_once)
unfolding play
first_answer = refl

pub no_answer_yet : cached plain_codec keyed opened ≡ ok none
unfolding play
no_answer_yet = refl

pub verifier_is_accepted : is_some (verifier keyed 1020 opened) ≡ true
unfolding play
verifier_is_accepted = refl

pub opened-IsConsistent : IsConsistent opened
opened-IsConsistent = run-IsConsistent plain_codec opening empty empty-IsConsistent
