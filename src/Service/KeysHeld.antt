-- ===== src/Service/KeysHeld.antt =====
-- When the checks of the root keys pass, the ledger's digests can be taken again.
use Prim.Native.Nat.{Ordering}
use Prim.Native.String.{compare}
use onceproof.Base.{
  ℕ, String, ◌≡◌, refl, ap, ◌∙◌, arith, Bool, true, false, not, ◌||◌, Option, none, some, List, [],
  ◌∷◌, ◌==◌, eq_iff, eq_sound, Bool-cases, inl, inr, subst, eq_self, find, All, All-map, map,
  if◌then◌else◌,
}
use onceproof.Errors.{Error, Result, ok, err, store_corrupt, map_ok, >>=-eq_ok, map_ok-ok}
use onceproof.Model.Json.{contains}
use onceproof.Store.Rows.{CredentialRow, ProofRow, HashKeyRow, Database}
use onceproof.Store.Shared.{key_is, is_restore_required}
use onceproof.Store.Reports as Ledger
use onceproof.Store.Reports.{
  Connection, ready_on, assert_complete_schema, place_text, insert_text, insert_texts, check_of,
  checks_of, referenced_hash_kids, referenced_hash_key_checks,
}
use onceproof.Keyring.Payload.{Payload}
use onceproof.Keyring.Ring.{key_for}
use onceproof.Crypto.{Hashing, key_check}
use onceproof.Service.Ready.{matches_check, continue_when, all_match, checks_match, ready}

-- The ring has the key of the identifier, and it passes the check that the ledger has of it.
pub record Held (h : Hashing) (p : Payload) (rows : List HashKeyRow) (kid : String) : Type 0 where
  pub key : List ℕ
  pub row : HashKeyRow
  pub held : key_for p kid ≡ some key
  pub registered : find (key_is kid) rows ≡ some row
  pub passes : key_check h key ≡ ok row.key_check

placed :
    (o : Ordering) (k j : String) (ks js : List String)
    → compare k j ≡ o
    → contains k ks ≡ true
    → contains k (place_text o k ks j js) ≡ true
placed Ordering.lt k j ks js e h = ground (arith, eq_self k)
placed Ordering.gt k j ks js e h = ground arith
placed Ordering.eq k j ks js e h =
    let same : (k == j) ≡ true = rw e refl in ground (arith, eq_iff k j, eq_iff j k)

kept :
    (o : Ordering) (i k j : String) (ks js : List String)
    → (contains i js ≡ true → contains i ks ≡ true)
    → contains i (j ∷ js) ≡ true
    → contains i (place_text o k ks j js) ≡ true
kept Ordering.lt i k j ks js more h = ground arith
kept Ordering.eq i k j ks js more h = h
kept Ordering.gt i k j ks js more h = ground (arith, more)

contains-insert_text : (k : String) (js : List String) → contains k (insert_text k js) ≡ true
unfolding insert_text
contains-insert_text k [] = rw (eq_self k) refl
contains-insert_text k (j ∷ js) =
    placed (compare k j) k j (insert_text k js) js refl (contains-insert_text k js)

insert_text-more :
    (i k : String) (js : List String) → contains i js ≡ true → contains i (insert_text k js) ≡ true
unfolding insert_text
insert_text-more i k [] h = absurd (ground arith)
insert_text-more i k (j ∷ js) h =
    kept (compare k j) i k j (insert_text k js) js (insert_text-more i k js) h

insert_texts-more :
    (i : String) (ks known : List String)
    → contains i known ≡ true
    → contains i (insert_texts ks known) ≡ true
unfolding insert_texts
insert_texts-more i [] known h = h
insert_texts-more i (k ∷ ks) known h =
    insert_text-more i k (insert_texts ks known) (insert_texts-more i ks known h)

All-insert_texts :
    {A : Type 0} (f : A → String) (xs : List A) (known : List String)
    → All (λ x. contains (f x) (insert_texts (map f xs) known) ≡ true) xs
unfolding insert_texts
All-insert_texts f [] known = tt
All-insert_texts f (x ∷ xs) known = (
  contains-insert_text (f x) (insert_texts (map f xs) known),
  All-map _ _ (λ y. insert_text-more (f y) (f x) (insert_texts (map f xs) known)) xs
      (All-insert_texts f xs known),
)

check_of-row :
    (k : String) (o : Option HashKeyRow) (check : String × String)
    → check_of k o ≡ ok check
    → (row : HashKeyRow) × (o ≡ some row) × ((k, row.key_check) ≡ check)
check_of-row k none check e = absurd (ground arith)
check_of-row k (some row) check e = (row, refl, cc)

module _ (h : Hashing) (p : Payload) (rows : List HashKeyRow) where
  matches-Held :
      (kid : String) (row : HashKeyRow) (o : Option (List ℕ))
      → key_for p kid ≡ o
      → find (key_is kid) rows ≡ some row
      → matches_check h p row.key_check o ≡ ok true
      → Held h p rows kid
  matches-Held kid row none e found m = absurd (ground arith)
  matches-Held kid row (some key) e found m = record {
    key = key;
    row = row;
    held = e;
    registered = found;
    passes = same_check (key_check h key) row.key_check m;
  }
    where
      same_check :
          (r : Result String) (expected : String)
          → map_ok (λ check. check == expected) r ≡ ok true
          → r ≡ ok expected
      same_check (ok c) expected e = ground (arith, eq_iff c expected)
      same_check (err x) expected e = absurd (ground arith)

  passed :
      (first rest : Result Bool)
      → continue_when h p first rest ≡ ok true
      → (first ≡ ok true) × (rest ≡ ok true)
  passed (ok true) rest e = (refl, e)
  passed (ok false) rest e = absurd (ground arith)
  passed (err x) rest e = absurd (ground arith)

  head-passed :
      (kid expected : String) (checks : List (String × String))
      → all_match h p ((kid, expected) ∷ checks) ≡ ok true
      → (matches_check h p expected (key_for p kid) ≡ ok true) × (all_match h p checks ≡ ok true)
  unfolding all_match
  head-passed kid expected checks m =
      passed (matches_check h p expected (key_for p kid)) (all_match h p checks) m

  -- Every identifier of a list whose checks are found and pass.
  checked-Held :
      (kids : List String) (checks : List (String × String)) (kid : String)
      → checks_of kids rows ≡ ok checks
      → all_match h p checks ≡ ok true
      → contains kid kids ≡ true
      → Held h p rows kid
  unfolding checks_of
  checked-Held [] checks kid e m c = absurd (ground arith)
  checked-Held (k ∷ kids) checks kid e m c =
      let (check, first, e₁) = >>=-eq_ok (check_of k (find (key_is k) rows)) _ e in
      let (row, found, is_check) = check_of-row k (find (key_is k) rows) check first in
      let (checks', rest, is_checks) =
        map_ok-ok (λ cs. check ∷ cs) (checks_of kids rows) checks e₁ in
      let m' : all_match h p ((k, row.key_check) ∷ checks') ≡ ok true =
        ap (λ x. all_match h p (x ∷ checks')) is_check ∙ ap (all_match h p) is_checks ∙ m in
      let (now, later) = head-passed k row.key_check checks' m' in
      elim (Bool-cases (k == kid)) [
        | inl same ↦
            subst (Held h p rows) (eq_sound k kid same)
              (matches-Held k row (key_for p k) refl found now)
        | inr other ↦ checked-Held kids checks' kid rest later (ground arith)
      ]

both_passed :
    (a b : Bool) (r : Result Bool)
    → (if not a || b then ok false else r) ≡ ok true
    → (a ≡ true) × (r ≡ ok true)
both_passed true false r e = (refl, e)
both_passed true true r e = absurd (ground arith)
both_passed false b r e = absurd (ground arith)

module _ {Text : Type 0} (h : Hashing) (p : Payload) (db : Database Text) where
  -- Every credential and every proof of the ledger has its key in the ring, with its check.
  pub record AllHeld : Type 0 where
    pub credentials : All (λ (c : CredentialRow). Held h p db.hash_keys c.hash_kid) db.credentials
    pub proofs : All (λ (x : ProofRow). Held h p db.hash_keys x.hash_kid) db.proofs

  pub checks-AllHeld :
      (checks : List (String × String))
      → referenced_hash_key_checks db ≡ ok checks
      → all_match h p checks ≡ ok true
      → AllHeld
  unfolding referenced_hash_key_checks referenced_hash_kids
  checks-AllHeld checks e m =
      let of_proofs = insert_texts (map (λ (x : ProofRow). x.hash_kid) db.proofs) [] in
      let cs = map (λ (c : CredentialRow). c.hash_kid) db.credentials in
      record {
        credentials =
            All-map _ _
              (λ (c : CredentialRow). checked-Held h p db.hash_keys _ checks c.hash_kid e m)
              db.credentials
              (All-insert_texts (λ (c : CredentialRow). c.hash_kid) db.credentials of_proofs);
        proofs =
            All-map _ _
              (λ (x : ProofRow) i.
                checked-Held h p db.hash_keys _ checks x.hash_kid e m
                  (insert_texts-more x.hash_kid cs of_proofs i))
              db.proofs (All-insert_texts (λ (x : ProofRow). x.hash_kid) db.proofs []);
      }

  checks_match-true :
      (r : Result (List (String × String)))
      → checks_match h p r ≡ ok true
      → (checks : List (String × String)) × (r ≡ ok checks) × (all_match h p checks ≡ ok true)
  checks_match-true (ok checks) m = (checks, refl, m)
  checks_match-true (err (Error.rate_limited n)) m = absurd (ground arith)
  checks_match-true (err store_corrupt) m = absurd (ground arith)
  checks_match-true (err Error.restore_required) m = absurd (ground arith)
  checks_match-true (err Error.commit_uncertain) m = absurd (ground arith)
  checks_match-true (err (Error.permission_error s)) m = absurd (ground arith)
  checks_match-true (err (Error.value_error s)) m = absurd (ground arith)
  checks_match-true (err (Error.key_error s)) m = absurd (ground arith)
  checks_match-true (err Error.type_error) m = absurd (ground arith)
  checks_match-true (err Error.integrity_error) m = absurd (ground arith)
  checks_match-true (err Error.os_error) m = absurd (ground arith)
  checks_match-true (err Error.file_exists) m = absurd (ground arith)
  checks_match-true (err Error.recursion_error) m = absurd (ground arith)

  unsealed :
      (c : Connection) (r : Result (Unit {0}))
      → ready_on c db r ≡ true
      → is_restore_required db ≡ false
  unsealed c (ok _) e = ground arith
  unsealed c (err x) e = absurd (ground arith)

  ready-unsealed : (c : Connection) → Ledger.ready c db ≡ true → is_restore_required db ≡ false
  unfolding Ledger.ready
  ready-unsealed c e = unsealed c (assert_complete_schema c) e

  -- A service that is ready has a ledger that is not sealed, and holds for every credential and
  -- every proof of the ledger a root key under the identifier of its row; the key passes the check
  -- that the ledger registered for that identifier.
  pub ready-AllHeld :
      (c : Connection) → ready h p c db ≡ ok true → (is_restore_required db ≡ false) × AllHeld
  unfolding ready
  ready-AllHeld c r =
      let (open_, m) = both_passed (Ledger.ready c db) _ _ r in
      let (checks, e, m') = checks_match-true (referenced_hash_key_checks db) m in
      (ready-unsealed c open_, checks-AllHeld checks e m')
