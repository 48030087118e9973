-- ===== src/Store/Reports.antt =====
-- The reads of `class Store` that report: `credentials_for_client`, `referenced_hash_kids`,
-- `referenced_hash_key_checks`, `status` and `ready`, with `_assert_complete_schema`. What the
-- connection says of itself is an argument.
use Prim.Native.Nat
use Prim.Native.Nat.{Ordering}
use Prim.Native.String
use Prim.Native.String.{◌++◌}
use onceproof.Base.{
  ℕ, String, Bool, false, not, ◌&&◌, Option, none, some, List, [], ◌∷◌, ◌==◌, eqb, select, find,
  map,
}
use onceproof.Errors.{Result, ok, err, store_corrupt, value_error, map_ok, ◌>>=◌}
use onceproof.Model.Json.{contains}
use onceproof.Store.Rows.{
  Role, issuance, verification, CredentialRow, ProofRow, HashKeyRow, MaintenanceRow, Database,
  CredentialRecord,
}
use onceproof.Store.Shared.{named, key_is, is_restore_required}
use onceproof.Store.Clients.{credential_from_row}

abbrev pub role_name : Role → String
role_name issuance = "issuance"
role_name verification = "verification"

-- ORDER BY role, created_at, credential_id
abbrev then_by : Ordering → Ordering → Ordering
then_by Ordering.lt later = Ordering.lt
then_by Ordering.gt later = Ordering.gt
then_by Ordering.eq later = later

abbrev compare_rows : CredentialRow → CredentialRow → Ordering
compare_rows a b = then_by (String.compare (role_name a.role) (role_name b.role)) (
    then_by (Nat.compare a.created_at b.created_at)
      (String.compare a.credential_id b.credential_id))

abbrev place_row :
    Ordering
    → CredentialRow
    → List CredentialRow
    → CredentialRow
    → List CredentialRow
    → List CredentialRow
place_row Ordering.gt x placed y ys = y ∷ placed
place_row _ x placed y ys = x ∷ y ∷ ys

unfoldable pub insert_ordered : CredentialRow → List CredentialRow → List CredentialRow
insert_ordered x [] = x ∷ []
insert_ordered x (y ∷ ys) = place_row (compare_rows x y) x (insert_ordered x ys) y ys

unfoldable pub ordered : List CredentialRow → List CredentialRow
unfolding insert_ordered
ordered [] = []
ordered (x ∷ xs) = insert_ordered x (ordered xs)

-- The texts of a SELECT with UNION and ORDER BY: each once, in order.
abbrev pub place_text : Ordering → String → List String → String → List String → List String
place_text Ordering.lt k placed j js = k ∷ j ∷ js
place_text Ordering.eq k placed j js = j ∷ js
place_text Ordering.gt k placed j js = j ∷ placed

unfoldable pub insert_text : String → List String → List String
insert_text k [] = k ∷ []
insert_text k (j ∷ js) = place_text (String.compare k j) k (insert_text k js) j js

unfoldable pub insert_texts : List String → List String → List String
unfolding insert_text
insert_texts [] known = known
insert_texts (k ∷ ks) known = insert_text k (insert_texts ks known)

-- What the connection answers: its pragmas, the names in sqlite_schema, and whether BEGIN IMMEDIATE
-- went through; an sqlite3.Error of any of them is none.
pub record Connection : Type 0 where
  pub user_version : ℕ
  pub foreign_keys : ℕ
  pub synchronous : ℕ
  pub journal_mode : String
  pub secure_delete : ℕ
  pub tables : List String
  pub indexes : List String
  pub takes_write_lock : Bool

-- _REQUIRED_TABLES and _REQUIRED_INDEXES
abbrev pub required_tables : List String
required_tables =
    "audit_events" ∷ "clients" ∷ "credentials" ∷ "hash_keys" ∷ "maintenance" ∷ "proofs"
    ∷ "rate_events" ∷ "verifications" ∷ []

abbrev pub required_indexes : List String
required_indexes =
    "audit_events_created" ∷ "one_current_credential_per_role" ∷ "proofs_expiry" ∷ "proofs_hash_kid"
    ∷ "rate_events_expiry" ∷ "rate_events_window" ∷ "verification_idempotency"
    ∷ "verifications_created" ∷ []

-- sorted(required - names); the required names stand in their order.
unfoldable pub missing : List String → List String → List String
unfolding select
missing required names = select (λ name. not (contains name names)) required

unfoldable pub join_names : String → List String → String
join_names sep [] = ""
join_names sep (name ∷ []) = name
join_names sep (name ∷ other ∷ names) = name ++ sep ++ join_names sep (other ∷ names)

-- A prefix to each name, before the rest.
abbrev labelled : String → List String → List String → List String
labelled label [] rest = rest
labelled label (name ∷ names) rest = (label ++ name) ∷ labelled label names rest

-- `_assert_complete_schema`
unfoldable pub assert_complete_schema : Connection → Result (Unit {0})
unfolding missing join_names
assert_complete_schema c = complain (
    labelled "table:" (missing required_tables c.tables)
      (labelled "index:" (missing required_indexes c.indexes) []))
  where
    complain : List String → Result (Unit {0})
    complain [] = ok tt
    complain (name ∷ names) =
        err (value_error ("incomplete_schema:" ++ join_names "," (name ∷ names)))

pub record Status : Type 0 where
  pub schema_version : ℕ
  pub journal_mode : String
  pub synchronous : ℕ
  pub foreign_keys : Bool
  pub secure_delete : Bool
  pub last_cleanup_at : Option ℕ
  pub restore_required : Bool

abbrev value_of : Option MaintenanceRow → Option ℕ
value_of none = none
value_of (some row) = some row.value_integer

abbrev pub check_of : String → Option HashKeyRow → Result (String × String)
check_of kid none = err store_corrupt
check_of kid (some row) = ok (kid, row.key_check)

-- The dict of checks, an item for each identifier; one that has no row is corruption.
unfoldable pub checks_of : List String → List HashKeyRow → Result (List (String × String))
unfolding find
checks_of [] rows = ok []
checks_of (kid ∷ kids) rows =
    let rest = checks_of kids rows in
    check_of kid (find (key_is kid) rows) >>= λ check. map_ok (λ checks. check ∷ checks) rest

module _ {Text : Type 0} where
  -- Store.credentials_for_client
  unfoldable pub credentials_for_client : String → Database Text → List CredentialRecord
  unfolding ordered select
  credentials_for_client client_id db =
      map credential_from_row (ordered (select (λ c. c.client_id == client_id) db.credentials))

  -- Store.referenced_hash_kids
  unfoldable pub referenced_hash_kids : Database Text → List String
  unfolding insert_texts
  referenced_hash_kids db =
      insert_texts (map (λ (c : CredentialRow). c.hash_kid) db.credentials)
        (insert_texts (map (λ (p : ProofRow). p.hash_kid) db.proofs) [])

  -- Store.referenced_hash_key_checks
  unfoldable pub referenced_hash_key_checks : Database Text → Result (List (String × String))
  unfolding referenced_hash_kids checks_of
  referenced_hash_key_checks db = checks_of (referenced_hash_kids db) db.hash_keys

  -- Store.status
  unfoldable pub status : Connection → Database Text → Status
  unfolding find is_restore_required
  status c db = record {
    schema_version = c.user_version;
    journal_mode = c.journal_mode;
    synchronous = c.synchronous;
    foreign_keys = not (eqb c.foreign_keys 0);
    secure_delete = not (eqb c.secure_delete 0);
    last_cleanup_at = value_of (find (named "last_cleanup_at") db.maintenance);
    restore_required = is_restore_required db;
  }

  abbrev pub ready_on : Connection → Database Text → Result (Unit {0}) → Bool
  ready_on c db (err e) = false
  ready_on c db (ok _) =
      c.takes_write_lock
      && eqb c.user_version 1
      && eqb c.foreign_keys 1
      && eqb c.synchronous 3
      && c.journal_mode == "delete"
      && not (is_restore_required db)

  -- Store.ready, on a connection that answers
  unfoldable pub ready : Connection → Database Text → Bool
  unfolding assert_complete_schema is_restore_required
  ready c db = ready_on c db (assert_complete_schema c)
