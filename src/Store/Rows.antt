-- ===== src/Store/Rows.antt =====
-- The tables of the schema, a row type for each, and the records that the store is called with.
-- The columns that CHECK holds to a few words are enumerations. `Text` is the type of the JSON
-- texts. Times are whole seconds since the epoch.
use onceproof.Base.{ℕ, String, Bool, true, false, Option, List}

pub data Role : Type 0 where
  issuance verification : Role

pub data ClientStatus : Type 0 where
  active revoked : ClientStatus

pub data CredentialStatus : Type 0 where
  current previous revoked : CredentialStatus

pub data Operation : Type 0 where
  issue verify : Operation

abbrev pub same_role : Role → Role → Bool
same_role issuance issuance = true
same_role verification verification = true
same_role _ _ = false

abbrev pub is_active : ClientStatus → Bool
is_active active = true
is_active ClientStatus.revoked = false

abbrev pub is_current : CredentialStatus → Bool
is_current current = true
is_current _ = false

abbrev pub is_previous : CredentialStatus → Bool
is_previous previous = true
is_previous _ = false

abbrev pub is_revoked : CredentialStatus → Bool
is_revoked CredentialStatus.revoked = true
is_revoked _ = false

abbrev pub same_operation : Operation → Operation → Bool
same_operation issue issue = true
same_operation verify verify = true
same_operation _ _ = false

pub record ClientRow (Text : Type 0) : Type 0 where
  pub client_id : String
  pub name : String
  pub status : ClientStatus
  pub allowed_audiences_json : Text
  pub proof_ttl_seconds : ℕ
  pub issue_limit_per_minute : ℕ
  pub verify_limit_per_minute : ℕ
  pub created_at : ℕ
  pub revoked_at : Option ℕ

pub record CredentialRow : Type 0 where
  pub credential_id : String
  pub client_id : String
  pub role : Role
  pub hash_kid : String
  pub secret_digest : String
  pub status : CredentialStatus
  pub created_at : ℕ
  pub valid_until : Option ℕ
  pub revoked_at : Option ℕ

pub record ProofRow : Type 0 where
  pub token_digest : String
  pub proof_tag : String
  pub hash_kid : String
  pub client_id : String
  pub issue_credential_id : String
  pub subject : String
  pub purpose : String
  pub audience : String
  pub issued_at : ℕ
  pub expires_at : ℕ
  pub consumed_at : Option ℕ
  pub consume_verification_id : Option String

pub record VerificationRow (Text : Type 0) : Type 0 where
  pub verification_id : String
  pub client_id : String
  pub credential_id : String
  pub proof_tag : Option String
  pub request_fingerprint : String
  pub idempotency_key : Option String
  pub result_json : Text
  pub created_at : ℕ

pub record AuditRow : Type 0 where
  pub event_id : String
  pub created_at : ℕ
  pub kind : String
  pub client_id : Option String
  pub credential_id : Option String
  pub proof_tag : Option String
  pub outcome : String
  pub reason : Option String

-- The primary key of a rate event is assigned by SQLite and never read.
pub record RateRow : Type 0 where
  pub client_id : String
  pub operation : Operation
  pub occurred_at : ℕ

pub record HashKeyRow : Type 0 where
  pub hash_kid : String
  pub key_check : String

pub record MaintenanceRow : Type 0 where
  pub name : String
  pub value_integer : ℕ

pub record Database (Text : Type 0) : Type 0 where
  pub clients : List (ClientRow Text)
  pub credentials : List CredentialRow
  pub proofs : List ProofRow
  pub verifications : List (VerificationRow Text)
  pub audit_events : List AuditRow
  pub rate_events : List RateRow
  pub hash_keys : List HashKeyRow
  pub maintenance : List MaintenanceRow

-- The data classes of the module.
pub record ClientRecord : Type 0 where
  pub client_id : String
  pub name : String
  pub status : ClientStatus
  pub allowed_audiences : List String
  pub proof_ttl_seconds : ℕ
  pub issue_limit_per_minute : ℕ
  pub verify_limit_per_minute : ℕ

pub record CredentialRecord : Type 0 where
  pub credential_id : String
  pub client_id : String
  pub role : Role
  pub hash_kid : String
  pub secret_digest : String
  pub status : CredentialStatus
  pub valid_until : Option ℕ

pub record ProofRecord : Type 0 where
  pub token_digest : String
  pub proof_tag : String
  pub hash_kid : String
  pub client_id : String
  pub issue_credential_id : String
  pub subject : String
  pub purpose : String
  pub audience : String
  pub issued_at : ℕ
  pub expires_at : ℕ
  pub consumed_at : Option ℕ
