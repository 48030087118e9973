-- ===== src/Base/Unique.antt =====
-- Uniqueness constraints: no two rows of a table clash.
use mathlib.Core.Path.{◌≡◌, refl}
use mathlib.Core.Bool.{Bool, false}
use mathlib.Core.List.{List, [], ◌∷◌}
use native.Mathlib.Omega.{arith}
use onceproof.Base.Tests.{if◌then◌else◌}
use onceproof.Base.Lists.{any, select, update, any-select}

module _ {ℓ} {A : Type ℓ} (clash : A → A → Bool) where
  abbrev pub Distinct : List A → Type 0
  Distinct [] = Unit
  Distinct (x ∷ xs) = (any (clash x) xs ≡ false) × Distinct xs

  -- A deletion keeps a table free of clashes.
  pub Distinct-select : (q : A → Bool) (xs : List A) → Distinct xs → Distinct (select q xs)
  unfolding select
  Distinct-select q [] h = tt
  Distinct-select q (x ∷ xs) h =
      ground (arith, Distinct-select q xs h.1, any-select (clash x) q xs h.0)

  module _ (q : A → Bool) (f : A → A) where
    -- The row that an UPDATE writes in place of a row.
    abbrev pub rewrite : A → A
    rewrite x = if q x then f x else x

    any-rewrite :
        ((x y : A) → clash x y ≡ false → clash (rewrite x) (rewrite y) ≡ false)
        → (x : A) (ys : List A) → any (clash x) ys ≡ false
        → any (clash (rewrite x)) (update q f ys) ≡ false
    unfolding any update
    any-rewrite keep x [] h = refl
    any-rewrite keep x (y ∷ ys) h = ground (arith, keep x y, any-rewrite keep x ys)

    -- An update that makes no two rows clash which did not keeps the table free of clashes.
    pub Distinct-update :
        ((x y : A) → clash x y ≡ false → clash (rewrite x) (rewrite y) ≡ false)
        → (xs : List A) → Distinct xs
        → Distinct (update q f xs)
    unfolding update
    Distinct-update keep [] h = tt
    Distinct-update keep (x ∷ xs) h = (any-rewrite keep x xs h.0, Distinct-update keep xs h.1)
