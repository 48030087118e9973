-- ===== src/Tests/Revocation.antt =====
-- Revocation, rotation and restore on the opened ledger.
use onceproof.Base.{◌+◌, ◌==◌, ◌&&◌, ◌≡◌, refl, true, false, none, List, [], ◌∷◌, any, ltb}
use onceproof.Errors.{err, restore_required, is_ok}
use onceproof.Model.Json.{Value, plain_codec}
use onceproof.Store.Rows.{issuance, current, CredentialRecord, Database}
use onceproof.Store.Shared.{is_restore_required}
use onceproof.Store.Calls.{Call, run}
use onceproof.Store.Clients.{is_current_for, revoke_client, rotate_credential}
use onceproof.Store.Issue.{issue_proof}
use onceproof.Store.Consume.{consume_proof}
use onceproof.Store.Maintenance.{sealed_copy, activate_restored_backup}
use onceproof.Store.OnceOnly.{is_verified}
use onceproof.Store.CutOff.{revoke_client-cut_off}
use onceproof.Store.Rotation.{accepted_at, rotate_credential-accepted}
use onceproof.Store.Restore.{run-sealed_copy, activate_restored_backup-cut_off}
use onceproof.Tests.Ledger.{play, proof, keyed, draws, opened, opened-IsConsistent}

abbrev revoked : Database Value
revoked = (revoke_client "opc_1" 1030 "ae_8" opened).1

-- The client uses its proof after it was revoked.
abbrev attempt : List Call
attempt = Call.consume_proof keyed 1040 (draws "vr_3" "ae_9") ∷ []

revoke_client-cut_off_example :
    (is_verified
        (consume_proof plain_codec keyed 1050
          (draws "vr_4" "ae_10")
          (run plain_codec attempt revoked)).0
      ≡ false)
    × (is_ok (issue_proof proof "check" 1050 "ae_11" (run plain_codec attempt revoked)).0 ≡ false)
unfolding play
revoke_client-cut_off_example =
    revoke_client-cut_off plain_codec "opc_1" 1030 "ae_8" opened revoked true opened-IsConsistent
      refl attempt 1050 keyed (draws "vr_4" "ae_10") proof "check" "ae_11" refl refl

abbrev replacement : CredentialRecord
replacement = record {
  credential_id = "ic_2";
  client_id = "opc_1";
  role = issuance;
  hash_kid = "hk_1";
  secret_digest = "sd2";
  status = current;
  valid_until = none;
}

abbrev rotated : Database Value
rotated = (rotate_credential "opc_1" issuance replacement "check" 300 1030 "ae_8" opened).1

rotate_credential-accepted_example :
    (1330 ≡ 1030 + 300)
    × (any (λ c. c.credential_id == "ic_1" && is_current_for "opc_1" issuance c) opened.credentials
        ≡ true)
    × (any (accepted_at "ic_1" 1200) rotated.credentials ≡ ltb 1200 (1030 + 300))
    × (any (accepted_at "ic_2" 1200) rotated.credentials ≡ true)
unfolding play
rotate_credential-accepted_example =
    rotate_credential-accepted "opc_1" issuance replacement "check" 300 1030 "ae_8" opened rotated
      "ic_1" 1330 refl 1200

run-sealed_copy_example :
    (run plain_codec attempt (sealed_copy opened) ≡ sealed_copy opened)
    × ((consume_proof plain_codec keyed 1040
          (draws "vr_3" "ae_9")
          (run plain_codec attempt (sealed_copy opened))).0
        ≡ err restore_required)
    × ((issue_proof proof "check" 1040 "ae_9" (run plain_codec attempt (sealed_copy opened))).0
        ≡ err restore_required)
run-sealed_copy_example =
    run-sealed_copy plain_codec opened attempt (refl, tt) keyed proof "check" "ae_9" 1040
      (draws "vr_3" "ae_9")

abbrev activated : Database Value
activated = (activate_restored_backup 2000 "ae_8" (sealed_copy opened)).1

activate_restored_backup-cut_off_example :
    (is_restore_required activated ≡ false)
    × (is_verified
          (consume_proof plain_codec keyed 2050
            (draws "vr_4" "ae_10")
            (run plain_codec attempt activated)).0
        ≡ false)
    × (is_ok (issue_proof proof "check" 2050 "ae_11" (run plain_codec attempt activated)).0 ≡ false)
unfolding play
activate_restored_backup-cut_off_example =
    activate_restored_backup-cut_off 2000 "ae_8" (sealed_copy opened) activated plain_codec "opc_1"
      refl refl attempt 2050 keyed (draws "vr_4" "ae_10") proof "check" "ae_11" refl refl
