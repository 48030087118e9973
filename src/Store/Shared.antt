-- ===== src/Store/Shared.antt =====
-- The private helpers of `class Store` that its operations share.
use onceproof.Base.{
  ℕ, String, Bool, true, false, not, ◌&&◌, Option, none, some, List, [], ◌∷◌, ◌==◌, ltb,
  if◌then◌else◌, find,
}
use onceproof.Errors.{store_corrupt, restore_required}
use onceproof.Store.Tx.{Tx, ◌>>=◌, gets, modify, raise_when}
use onceproof.Store.Rows.{
  is_active, is_current, is_previous, ClientRow, CredentialRow, HashKeyRow, MaintenanceRow,
  Database, Role, same_role,
}
use onceproof.Store.Tables.{client_is}

abbrev pub before_end : ℕ → Option ℕ → Bool
before_end now none = false
before_end now (some end) = ltb now end

-- _credential_is_accepted
unfoldable pub credential_is_accepted : CredentialRow → ℕ → Bool
credential_is_accepted c now =
    if is_current c.status then true else is_previous c.status && before_end now c.valid_until

-- A row of `credentials JOIN clients USING (client_id)`.
pub record Joined (Text : Type 0) : Type 0 where
  pub credential : CredentialRow
  pub client : ClientRow Text

abbrev pub or_else : {A : Type 0} → Option A → Option A → Option A
or_else none b = b
or_else (some a) b = some a

abbrev pub named : String → MaintenanceRow → Bool
named name row = row.name == name

abbrev pub is_set : Option MaintenanceRow → Bool
is_set none = false
is_set (some row) = ltb 0 row.value_integer

abbrev pub key_is : String → HashKeyRow → Bool
key_is kid row = row.hash_kid == kid

module _ {Text : Type 0} where
  abbrev pub with_client : CredentialRow → Option (ClientRow Text) → Option (Joined Text)
  with_client c none = none
  with_client c (some k) = some (record { credential = c; client = k })

  -- SELECT … JOIN clients USING (client_id) WHERE credential_id = id AND role = role, over the
  -- credentials.
  unfoldable pub join :
      String → Role → List (ClientRow Text) → List CredentialRow → Option (Joined Text)
  join id role clients [] = none
  join id role clients (c ∷ cs) =
      let rest = join id role clients cs in
      if c.credential_id == id && same_role c.role role
      then or_else (with_client c (find (client_is c.client_id) clients)) rest
      else rest

  -- The tests that a joined row passes to be accepted for a client at a time.
  unfoldable pub joined_is_accepted : Joined Text → String → ℕ → Bool
  unfolding credential_is_accepted
  joined_is_accepted j client_id now =
      j.credential.client_id == client_id
      && is_active j.client.status
      && credential_is_accepted j.credential now

  -- Store._restore_required
  unfoldable pub is_restore_required : Database Text → Bool
  is_restore_required db = is_set (find (named "restore_required") db.maintenance)

  -- Store._require_operational
  unfoldable pub require_operational : Tx (Database Text) (Unit {0})
  require_operational = do sealed ← gets is_restore_required; raise_when sealed restore_required

  -- Store._register_hash_key, by the row that is found
  abbrev check_hash_key : String → String → Option HashKeyRow → Tx (Database Text) (Unit {0})
  check_hash_key kid expected none = modify (λ db. record db {
    hash_keys = record { hash_kid = kid; key_check = expected } ∷ db.hash_keys;
  })
  check_hash_key kid expected (some row) =
      raise_when (not (row.key_check == expected)) store_corrupt

  unfoldable pub register_hash_key : String → String → Tx (Database Text) (Unit {0})
  register_hash_key kid expected = do
    row ← gets (λ db. find (key_is kid) db.hash_keys)
    check_hash_key kid expected row
