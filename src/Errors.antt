-- ===== src/Errors.antt =====
-- The exceptions of src/onceproof/errors.py, with the built-in ones that the store and the service
-- raise by their messages, and the result of a call that may raise.
use onceproof.Base.{ℕ, String, Bool, true, false, ◌≡◌, refl, arith}

pub data Error : Type 0 where
  -- RateLimitError, with `retry_after_seconds`
  rate_limited : ℕ → Error
  -- StoreCorruptionError, RestoreRequiredError, KeyringCommitUncertain
  store_corrupt restore_required commit_uncertain : Error
  -- PermissionError, ValueError and KeyError, with their messages
  permission_error value_error key_error : String → Error
  -- TypeError, and RecursionError
  type_error recursion_error : Error
  -- sqlite3.IntegrityError: a statement would break a constraint of the schema
  integrity_error : Error
  -- OSError, and its subclass FileExistsError
  os_error file_exists : Error

-- What a call returns or raises.
pub data Result {ℓ} (Value : Type ℓ) : Type ℓ where
  ok : Value → Result Value
  err : Error → Result Value

abbrev pub is_ok {ℓ} : {A : Type ℓ} → Result A → Bool
is_ok (ok _) = true
is_ok (err _) = false

infixl 5 ◌>>=◌ ◌>>◌
abbrev pub ◌>>=◌ {ℓ κ} : {X : Type ℓ} {Y : Type κ} → Result X → (X → Result Y) → Result Y
ok x >>= next = next x
err raised >>= next = err raised

abbrev pub ◌>>◌ {ℓ κ} : {X : Type ℓ} {Y : Type κ} → Result X → Result Y → Result Y
first >> second = first >>= λ _. second

-- What is computed from a value that was returned.
abbrev pub map_ok {ℓ κ} : {X : Type ℓ} {Y : Type κ} → (X → Y) → Result X → Result Y
map_ok f (ok x) = ok (f x)
map_ok f (err e) = err e

-- `if …: raise …`
abbrev pub raise_if : Bool → Error → Result (Unit {0})
raise_if true e = err e
raise_if false e = ok tt

-- What a sequence that returned went through.
module _ {ℓ κ} {X : Type ℓ} {Y : Type κ} where
  pub >>=-eq_ok :
      (r : Result X) (next : X → Result Y) {y : Y}
      → (r >>= next) ≡ ok y
      → (x : X) × (r ≡ ok x) × (next x ≡ ok y)
  >>=-eq_ok (ok x) next returned = (x, refl, returned)
  >>=-eq_ok (err e) next returned = cc

pub raise_if-passed {ℓ} :
    {Y : Type ℓ} (b : Bool) (e : Error) (next : Result Y) (y : Y)
    → (raise_if b e >> next) ≡ ok y
    → (b ≡ false) × (next ≡ ok y)
raise_if-passed true e next y h = absurd (ground arith)
raise_if-passed false e next y h = (refl, h)

pub then-passed {ℓ} :
    {Y : Type ℓ} (first : Result (Unit {0})) (next : Result Y) (y : Y)
    → (first >> next) ≡ ok y
    → (first ≡ ok tt) × (next ≡ ok y)
then-passed (ok u) next y h = (refl, h)
then-passed (err e) next y h = absurd (ground arith)

pub raise_if-ok : (b : Bool) (e : Error) → raise_if b e ≡ ok tt → b ≡ false
raise_if-ok true e h = absurd (ground arith)
raise_if-ok false e h = refl

pub map_ok-ok {ℓ κ} :
    {X : Type ℓ} {Y : Type κ} (f : X → Y) (r : Result X) (y : Y)
    → map_ok f r ≡ ok y
    → (x : X) × (r ≡ ok x) × (f x ≡ y)
map_ok-ok f (ok x) y e = (x, refl, cc)
map_ok-ok f (err e) y h = absurd (ground arith)
