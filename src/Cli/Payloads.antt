-- ===== src/Cli/Payloads.antt =====
-- The values that the commands of src/onceproof/cli.py print or write to a file.
use onceproof.Base.{ℕ, String, Option, none, some, List, [], ◌∷◌, map}
use onceproof.Base.Int.{pos}
use onceproof.Model.Json.{
  Value, text, int, bool, null, arr, obj, Items, nil, item, Fields, end, field,
}
use onceproof.Store.Rows.{
  ClientStatus, active, CredentialStatus, current, previous, ClientRecord, CredentialRecord,
}
use onceproof.Store.Maintenance.{Removed}
use onceproof.Store.Reports.{Status, role_name, insert_texts}
use onceproof.Keyring.Payload.{Key}
use onceproof.Service.Clients.{ClientCredentials}
use onceproof.Service.Upkeep.{PreparedCredential}

-- `_client_credentials_payload`
abbrev pub credentials_payload : ClientCredentials → Value
credentials_payload c = obj (
    field "client_id" (text c.client_id) (
      field "issuance_credential_id" (text c.issuance_credential_id) (
        field "issuance_secret" (text c.issuance_secret) (
          field "verification_credential_id" (text c.verification_credential_id)
            (field "verification_secret" (text c.verification_secret) end)))))

-- `_rotated_credential_payload`
abbrev pub rotated_payload : PreparedCredential → Value
rotated_payload r = obj (
    field "client_id" (text r.client_id) (
      field "credential_id" (text r.credential_id)
        (field "role" (text (role_name r.role)) (field "secret" (text r.secret) end))))

abbrev pub key_ids : List Key → List String
key_ids ks = insert_texts (map (λ (k : Key). k.kid) ks) []

abbrev pub texts : List String → Items
texts [] = nil
texts (s ∷ ss) = item (text s) (texts ss)

abbrev pub client_status : ClientStatus → String
client_status active = "active"
client_status ClientStatus.revoked = "revoked"

abbrev pub credential_status : CredentialStatus → String
credential_status current = "current"
credential_status previous = "previous"
credential_status CredentialStatus.revoked = "revoked"

abbrev pub time_or_null : Option ℕ → Value
time_or_null none = null
time_or_null (some n) = int (pos n)

abbrev pub client_value : ClientRecord → Value
client_value c = obj (
    field "client_id" (text c.client_id) (
      field "name" (text c.name) (
        field "status" (text (client_status c.status)) (
          field "allowed_audiences" (arr (texts c.allowed_audiences)) (
            field "proof_ttl_seconds" (int (pos c.proof_ttl_seconds)) (
              field "issue_limit_per_minute" (int (pos c.issue_limit_per_minute))
                (field "verify_limit_per_minute" (int (pos c.verify_limit_per_minute)) end)))))))

abbrev pub credential_values : List CredentialRecord → Items
credential_values [] = nil
credential_values (c ∷ cs) =
    item
      (obj (
        field "credential_id" (text c.credential_id) (
          field "role" (text (role_name c.role)) (
            field "status" (text (credential_status c.status)) (
              field "hash_kid" (text c.hash_kid)
                (field "valid_until" (time_or_null c.valid_until) end))))))
      (credential_values cs)

-- What an `inspect` of a client shows.
unfoldable pub inspected : ClientRecord → List CredentialRecord → Value
inspected c cs = obj (
    field "status" (text "ok")
      (field "client" (client_value c) (field "credentials" (arr (credential_values cs)) end)))

abbrev pub status_line : String → Fields → Value
status_line s rest = obj (field "status" (text s) rest)

-- The counts that `Store.cleanup` returns.
abbrev pub removed_value : Removed → Value
removed_value removed = obj (
    field "proofs" (int (pos removed.proofs)) (
      field "credentials" (int (pos removed.credentials)) (
        field "verifications" (int (pos removed.verifications)) (
          field "audit_events" (int (pos removed.audit_events))
            (field "rate_events" (int (pos removed.rate_events)) end)))))

-- What `Store.status` returns, the version of SQLite left out.
abbrev pub status_value : Status → Value
status_value s = obj (
    field "schema_version" (int (pos s.schema_version)) (
      field "journal_mode" (text s.journal_mode) (
        field "synchronous" (int (pos s.synchronous)) (
          field "foreign_keys" (bool s.foreign_keys) (
            field "secure_delete" (bool s.secure_delete) (
              field "last_cleanup_at" (time_or_null s.last_cleanup_at)
                (field "restore_required" (bool s.restore_required) end)))))))
