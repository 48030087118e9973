-- ===== src/Store/Clients.antt =====
-- Registration, rotation and revocation: `create_client`, `rotate_credential` and `revoke_client`
-- of `class Store`, with the reads `client`, `credential` and `credentials_for_client`.
use mathlib.Core.Option
use onceproof.Base.{
  ℕ, ◌+◌, String, Bool, true, false, not, ◌&&◌, Option, none, some, List, [], ◌∷◌, ◌==◌, ltb,
  if◌then◌else◌, find, update, is_none,
}
use onceproof.Errors.{Result, ok, err, value_error, key_error, store_corrupt}
use onceproof.Model.Json.{Value, arr, text, Items, nil, item, Codec}
use onceproof.Store.Tx.{Tx, ◌>>=◌, ◌>>◌, gets, modify, pure, raise, raise_when, write}
use onceproof.Store.Rows.{
  Role, same_role, ClientStatus, active, is_active, CredentialStatus, current, previous, is_current,
  is_revoked, ClientRow, CredentialRow, ProofRow, Database, ClientRecord, CredentialRecord,
}
use onceproof.Store.Tables.{
  insert_client, insert_credential, insert_audit, client_is, credential_is,
}
use onceproof.Store.Shared.{require_operational, register_hash_key}

-- The arguments of `create_client` but the time.
pub record NewClient : Type 0 where
  pub client_id : String
  pub name : String
  pub allowed_audiences : List String
  pub proof_ttl_seconds : ℕ
  pub issue_limit_per_minute : ℕ
  pub verify_limit_per_minute : ℕ
  pub issuance_credential : CredentialRecord
  pub verification_credential : CredentialRecord
  pub hash_key_check : String

-- The row that an INSERT INTO credentials of a record writes.
abbrev pub credential_row : CredentialRecord → ℕ → CredentialRow
credential_row c now = record {
  credential_id = c.credential_id;
  client_id = c.client_id;
  role = c.role;
  hash_kid = c.hash_kid;
  secret_digest = c.secret_digest;
  status = current;
  created_at = now;
  valid_until = none;
  revoked_at = none;
}

-- UPDATE credentials SET status = 'revoked', valid_until = ?, revoked_at = ?
abbrev pub revoke_credential : ℕ → CredentialRow → CredentialRow
revoke_credential now c = record c {
  status = CredentialStatus.revoked;
  valid_until = some now;
  revoked_at = some now;
}

-- CASE WHEN expires_at < ? THEN expires_at ELSE ? END
abbrev pub cut_short : ℕ → ProofRow → ProofRow
cut_short now p = record p { expires_at = if ltb p.expires_at now then p.expires_at else now }

-- _credential_from_row
abbrev pub credential_from_row : CredentialRow → CredentialRecord
credential_from_row row = record {
  credential_id = row.credential_id;
  client_id = row.client_id;
  role = row.role;
  hash_kid = row.hash_kid;
  secret_digest = row.secret_digest;
  status = row.status;
  valid_until = row.valid_until;
}

abbrev pub is_current_for : String → Role → CredentialRow → Bool
is_current_for client_id role c =
    c.client_id == client_id && same_role c.role role && is_current c.status

unfoldable pub audience_items : List String → Items
audience_items [] = nil
audience_items (a ∷ as') = item (text a) (audience_items as')

abbrev cons_audience : String → Result (List String) → Result (List String)
cons_audience a (ok rest) = if a == "" then err store_corrupt else ok (a ∷ rest)
cons_audience a (err e) = err e

-- The texts of a JSON array; one that is empty, or no text, is corruption.
unfoldable pub audiences_of : Items → Result (List String)
audiences_of nil = ok []
audiences_of (item (text a) xs) = cons_audience a (audiences_of xs)
audiences_of (item _ xs) = err store_corrupt

abbrev audiences_value : Option Value → Result (List String)
audiences_value (some (arr (item x xs))) = audiences_of (item x xs)
audiences_value _ = err store_corrupt

module _ {Text : Type 0} where
  abbrev pub client_row : Codec Text → NewClient → ℕ → ClientRow Text
  client_row json c now = record {
    client_id = c.client_id;
    name = c.name;
    status = active;
    allowed_audiences_json = json.dumps (arr (audience_items c.allowed_audiences));
    proof_ttl_seconds = c.proof_ttl_seconds;
    issue_limit_per_minute = c.issue_limit_per_minute;
    verify_limit_per_minute = c.verify_limit_per_minute;
    created_at = now;
    revoked_at = none;
  }

  -- Store.create_client
  unfoldable pub create_client : Codec Text → NewClient → ℕ → String → Tx (Database Text) (Unit {0})
  create_client json c now event_id = write (do
    require_operational
    raise_when (not (c.issuance_credential.hash_kid == c.verification_credential.hash_kid))
        (value_error "client_credential_key_mismatch")
    register_hash_key c.issuance_credential.hash_kid c.hash_key_check
    insert_client (client_row json c now)
    insert_credential (credential_row c.issuance_credential now)
    insert_credential (credential_row c.verification_credential now)
    insert_audit (record {
      event_id = event_id;
      created_at = now;
      kind = "client_created";
      client_id = some c.client_id;
      credential_id = none;
      proof_tag = none;
      outcome = "created";
      reason = none;
    }))

  -- UPDATE credentials SET status = 'previous', valid_until = ? WHERE credential_id = ?
  unfoldable pub demote : String → ℕ → Database Text → Database Text
  demote id until db = record db {
    credentials =
        update (credential_is id) (λ c. record c { status = previous; valid_until = some until })
          db.credentials;
  }

  abbrev pub require_active : String → Option (ClientRow Text) → Tx (Database Text) (Unit {0})
  require_active client_id none = raise (key_error client_id)
  require_active client_id (some c) =
      raise_when (not (is_active c.status)) (value_error "client_revoked")

  abbrev pub require_current : Option CredentialRow → Tx (Database Text) String
  require_current none = raise (value_error "current_credential_missing")
  require_current (some c) = pure c.credential_id

  -- Store.rotate_credential
  unfoldable pub rotate_credential :
      String → Role → CredentialRecord → String → ℕ → ℕ → String → Tx (Database Text) (String × ℕ)
  rotate_credential client_id role replacement check grace_seconds now event_id = write (do
    require_operational
    register_hash_key replacement.hash_kid check
    client ← gets (λ db. find (client_is client_id) db.clients)
    require_active client_id client
    row ← gets (λ db. find (is_current_for client_id role) db.credentials)
    previous_id ← require_current row
    modify (demote previous_id (now + grace_seconds))
    insert_credential (credential_row replacement now)
    insert_audit (record {
      event_id = event_id;
      created_at = now;
      kind = "credential_rotated";
      client_id = some client_id;
      credential_id = some replacement.credential_id;
      proof_tag = none;
      outcome = "rotated";
      reason = none;
    })
    pure (previous_id, now + grace_seconds))

  abbrev pub revoke_row : ℕ → ClientRow Text → ClientRow Text
  revoke_row now c = record c { status = ClientStatus.revoked; revoked_at = some now }

  -- The three UPDATE statements of a revocation.
  unfoldable pub revoke_rows : String → ℕ → Database Text → Database Text
  revoke_rows client_id now db = record db {
    clients = update (client_is client_id) (revoke_row now) db.clients;
    credentials =
        update (λ c. c.client_id == client_id && not (is_revoked c.status)) (revoke_credential now)
          db.credentials;
    proofs =
        update (λ p. p.client_id == client_id && is_none p.consumed_at) (cut_short now) db.proofs;
  }

  abbrev pub revoke_found : String → ℕ → String → Option (ClientRow Text) → Tx (Database Text) Bool
  revoke_found client_id now event_id none = raise (key_error client_id)
  revoke_found client_id now event_id (some c) = if not (is_active c.status) then pure false else do
    modify (revoke_rows client_id now)
    insert_audit (record {
      event_id = event_id;
      created_at = now;
      kind = "client_revoked";
      client_id = some client_id;
      credential_id = none;
      proof_tag = none;
      outcome = "revoked";
      reason = none;
    })
    pure true

  -- Store.revoke_client
  unfoldable pub revoke_client : String → ℕ → String → Tx (Database Text) Bool
  revoke_client client_id now event_id = write (do
    require_operational
    client ← gets (λ db. find (client_is client_id) db.clients)
    revoke_found client_id now event_id client)

  abbrev client_with : ClientRow Text → Result (List String) → Result ClientRecord
  client_with row (err e) = err e
  client_with row (ok audiences) = ok (record {
    client_id = row.client_id;
    name = row.name;
    status = row.status;
    allowed_audiences = audiences;
    proof_ttl_seconds = row.proof_ttl_seconds;
    issue_limit_per_minute = row.issue_limit_per_minute;
    verify_limit_per_minute = row.verify_limit_per_minute;
  })

  -- _client_from_row
  unfoldable pub client_from_row : Codec Text → ClientRow Text → Result ClientRecord
  unfolding audiences_of
  client_from_row json row =
      client_with row (audiences_value (json.loads row.allowed_audiences_json))

  -- Store.client
  unfoldable pub client : Codec Text → String → Database Text → Option (Result ClientRecord)
  unfolding client_from_row
  client json id db = Option.map (client_from_row json) (find (client_is id) db.clients)

  -- Store.credential
  unfoldable pub credential : String → Database Text → Option CredentialRecord
  credential id db = Option.map credential_from_row (find (credential_is id) db.credentials)
