-- ===== src/Base/Lists.antt =====
-- A table is a list of rows. The list functions that the SQL statements become, each by a
-- Boolean test for its WHERE clause, and how they act on one another.
use Prim.Native.Nat.{ℕ, ◌+◌}
use mathlib.Core.Path.{◌≡◌, refl}
use mathlib.Core.Bool.{Bool, true, false, ◌||◌}
use mathlib.Core.Option.{Option, none, some}
use mathlib.Core.List.{List, [], ◌∷◌}
use native.Mathlib.Omega.{arith}
use onceproof.Base.Tests.{if◌then◌else◌}

module _ {ℓ} {A : Type ℓ} where
  -- SELECT 1 … WHERE p
  unfoldable pub any : (A → Bool) → List A → Bool
  any p [] = false
  any p (x ∷ xs) = p x || any p xs

  -- SELECT COUNT(*) … WHERE p, and the row count of an UPDATE or DELETE
  unfoldable pub count : (A → Bool) → List A → ℕ
  count p [] = 0
  count p (x ∷ xs) = (if p x then 1 else 0) + count p xs

  -- SELECT … WHERE p, and DELETE WHERE not p
  unfoldable pub select : (A → Bool) → List A → List A
  select p [] = []
  select p (x ∷ xs) = let rest = select p xs in if p x then x ∷ rest else rest

  -- UPDATE SET f WHERE p
  unfoldable pub update : (A → Bool) → (A → A) → List A → List A
  update p f [] = []
  update p f (x ∷ xs) = (if p x then f x else x) ∷ update p f xs

  -- The row that `fetchone` returns.
  unfoldable pub find : (A → Bool) → List A → Option A
  find p [] = none
  find p (x ∷ xs) = if p x then some x else find p xs

  -- Every row satisfies the predicate.
  abbrev pub All {κ} : (A → Type κ) → List A → Type κ
  All P [] = Unit
  All P (x ∷ xs) = P x × All P xs

  pub any-select : (p q : A → Bool) (xs : List A) → any p xs ≡ false → any p (select q xs) ≡ false
  unfolding any select
  any-select p q [] h = refl
  any-select p q (x ∷ xs) h = ground (arith, any-select p q xs)

  pub find-none : (p : A → Bool) (xs : List A) → any p xs ≡ false → find p xs ≡ none
  unfolding any find
  find-none p [] h = refl
  find-none p (x ∷ xs) h = ground (arith, find-none p xs)

  pub any_of_find : (p : A → Bool) (xs : List A) (x : A) → find p xs ≡ some x → any p xs ≡ true
  unfolding any find
  any_of_find p [] x h = ground arith
  any_of_find p (y ∷ xs) x h = ground (arith, any_of_find p xs x)

  pub find_holds : (p : A → Bool) (xs : List A) (x : A) → find p xs ≡ some x → p x ≡ true
  unfolding find
  find_holds p [] x h = ground arith
  find_holds p (y ∷ xs) x h = ground (arith, find_holds p xs x)

  pub count_zero : (p : A → Bool) (xs : List A) → any p xs ≡ false → count p xs ≡ 0
  unfolding any count
  count_zero p [] h = refl
  count_zero p (x ∷ xs) h = ground (arith, count_zero p xs)

  -- A narrower query of an empty answer is empty.
  pub any_weaken :
      (p q : A → Bool)
      → ((x : A) → q x ≡ false → p x ≡ false)
      → (xs : List A) → any q xs ≡ false
      → any p xs ≡ false
  unfolding any
  any_weaken p q f [] h = refl
  any_weaken p q f (x ∷ xs) h = ground (arith, f x, any_weaken p q f xs)

  -- An update that keeps the WHERE clause of a query false keeps the query empty.
  pub any-update :
      (p q : A → Bool) (f : A → A) (xs : List A)
      → ((x : A) → p x ≡ false → q x ≡ true → p (f x) ≡ false)
      → any p xs ≡ false
      → any p (update q f xs) ≡ false
  unfolding any update
  any-update p q f [] keep h = refl
  any-update p q f (x ∷ xs) keep h = ground (arith, keep x, any-update p q f xs keep)

  -- An update that leaves a query's column alone leaves its answer alone.
  pub any-update_same :
      (p q : A → Bool) (f : A → A)
      → ((x : A) → p (f x) ≡ p x)
      → (xs : List A) → any p (update q f xs) ≡ any p xs
  unfolding any update
  any-update_same p q f same [] = refl
  any-update_same p q f same (x ∷ xs) = ground (arith, same x, any-update_same p q f same xs)

  pub All-update {κ} :
      (P : A → Type κ) (q : A → Bool) (f : A → A)
      → ((x : A) → P x → P (f x))
      → (xs : List A) → All P xs
      → All P (update q f xs)
  unfolding update
  All-update P q f keep [] h = tt
  All-update P q f keep (x ∷ xs) h = (go (q x), All-update P q f keep xs h.1)
    where
      go : (b : Bool) → P (if b then f x else x)
      go true = keep x h.0
      go false = h.0

  pub All-select {κ} :
      (P : A → Type κ) (q : A → Bool) (xs : List A) → All P xs → All P (select q xs)
  unfolding select
  All-select P q [] h = tt
  All-select P q (x ∷ xs) h = go (q x) (All-select P q xs h.1)
    where
      go : (b : Bool) → All P (select q xs) → All P (if b then x ∷ select q xs else select q xs)
      go true rest = (h.0, rest)
      go false rest = rest

  pub All-map {κ ι} :
      (P : A → Type κ) (Q : A → Type ι)
      → ((x : A) → P x → Q x)
      → (xs : List A) → All P xs
      → All Q xs
  All-map P Q f [] h = tt
  All-map P Q f (x ∷ xs) h = (f x h.0, All-map P Q f xs h.1)

  -- Every member of a list is found in it.
  pub All-any {κ} :
      {B : Type κ} (f : B → A → Bool) (xs : List A)
      → All (λ x. (b : B) → f b x ≡ true → any (f b) xs ≡ true) xs
  unfolding any
  All-any f [] = tt
  All-any f (x ∷ xs) =
      (λ b e. ground arith, All-map _ _ (λ y h b e. ground (arith, h b e)) xs (All-any f xs))

  -- The first match of a query stays the first if it is kept.
  pub find-select :
      (p keep : A → Bool) (xs : List A) (x : A)
      → find p xs ≡ some x
      → keep x ≡ true
      → find p (select keep xs) ≡ some x
  unfolding find select
  find-select p keep [] x f k = cc
  find-select p keep (y ∷ xs) x f k = ground (arith, find-select p keep xs x)

  -- A row that is found answers every query that holds of it.
  pub any_found :
      (p q : A → Bool) (cs : List A) (c : A) → find p cs ≡ some c → q c ≡ true → any q cs ≡ true
  unfolding find any
  any_found p q [] c f h = cc
  any_found p q (x ∷ cs) c f h = ground (arith, any_found p q cs c)
