-- ===== src/Service/Ready.antt =====
-- `OnceproofService.ready` of src/onceproof/service.py.
use onceproof.Base.{
  ℕ, String, Bool, true, false, not, ◌||◌, Option, none, some, List, [], ◌∷◌, ◌==◌, is_none,
  if◌then◌else◌,
}
use onceproof.Errors.{Result, ok, err, store_corrupt, map_ok}
use onceproof.Store.Rows.{Database}
use onceproof.Store.Reports as Ledger
use onceproof.Store.Reports.{Connection, referenced_hash_key_checks}
use onceproof.Keyring.Payload.{Payload}
use onceproof.Keyring.Ring.{key_for}
use onceproof.Crypto.{Hashing, key_check}

module _ (h : Hashing) (p : Payload) where
  abbrev pub matches_check : String → Option (List ℕ) → Result Bool
  matches_check expected none = ok false
  matches_check expected (some key) = map_ok (λ check. check == expected) (key_check h key)

  abbrev pub continue_when : Result Bool → Result Bool → Result Bool
  continue_when (ok true) rest = rest
  continue_when (ok false) rest = ok false
  continue_when (err e) rest = err e

  -- The loop over the checks.
  unfoldable pub all_match : List (String × String) → Result Bool
  unfolding key_check key_for
  all_match [] = ok true
  all_match ((kid, expected) ∷ checks) =
      let rest = all_match checks in continue_when (matches_check expected (key_for p kid)) rest

  -- StoreCorruptionError is caught, and no other exception.
  abbrev pub checks_match : Result (List (String × String)) → Result Bool
  checks_match (ok checks) = all_match checks
  checks_match (err store_corrupt) = ok false
  checks_match (err e) = err e

  -- OnceproofService.ready
  unfoldable pub ready : {Text : Type 0} → Connection → Database Text → Result Bool
  unfolding all_match referenced_hash_key_checks key_for
  ready c db =
      let checked = checks_match (referenced_hash_key_checks db) in
      if not (Ledger.ready c db) || is_none (key_for p p.current_kid) then ok false else checked
