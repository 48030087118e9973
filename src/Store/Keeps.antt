-- ===== src/Store/Keeps.antt =====
-- Invariants of transactions, one rule for each way to build one. An invariant is kept whether the
-- transaction returns or raises.
use onceproof.Base.{◌≡◌, refl, Bool, true, false, inl, inr, Bool-cases, if◌then◌else◌}
use onceproof.Errors.{Error, Result, ok, err}
use onceproof.Store.Tx.{
  Tx, pure, raise, gets, modify, lift, raise_when, constrained, write, settle, continue, ◌>>=◌,
}

pub record Keeps {S A : Type 0} (P : S → Type 0) (m : Tx S A) : Type 0 where
  pub at : (s : S) → P s → P (m s).1

settle-at :
    {S A : Type 0} (P : S → Type 0) (s s' : S) (r : Result A) → P s → P s' → P (settle s (r, s')).1
settle-at P s s' (ok a) h h' = h'
settle-at P s s' (err e) h h' = h

-- The actions that write nothing.
module _ {S A : Type 0} {P : S → Type 0} where
  pub Keeps-lift : (read : S → Result A) → Keeps P (lift read)
  unfolding lift
  Keeps-lift read = record { at = λ s kept. kept }

  pub Keeps-gets : (read : S → A) → Keeps P (gets read)
  unfolding gets
  Keeps-gets read = record { at = λ s kept. kept }

  pub Keeps-pure : (x : A) → Keeps P (pure x)
  unfolding pure
  Keeps-pure x = record { at = λ s kept. kept }

  pub Keeps-raise : (e : Error) → Keeps P (raise {A = A} e)
  unfolding raise
  Keeps-raise e = record { at = λ s kept. kept }

module _ {S A : Type 0} {P : S → Type 0} where
  -- The change may use that no constraint was broken.
  pub Keeps-constrained :
      (is_broken : S → Bool) (result : S → A) (f : S → S)
      → ((s : S) → is_broken s ≡ false → P s → P (f s))
      → Keeps P (constrained is_broken result f)
  unfolding constrained
  Keeps-constrained is_broken result f k = record {
    at = λ s h. elim (Bool-cases (is_broken s)) [
      | inl broken ↦ rw broken h
      | inr fine ↦ rw fine (k s fine h)
    ];
  }

  pub Keeps-if : (b : Bool) (m n : Tx S A) → Keeps P m → Keeps P n → Keeps P (if b then m else n)
  Keeps-if true m n km kn = km
  Keeps-if false m n km kn = kn

  pub Keeps-write : (m : Tx S A) → Keeps P m → Keeps P (write m)
  unfolding write
  Keeps-write m k = record { at = λ s h. let (r, s') = m s in settle-at P s s' r h (k.at s h) }

module _ {S : Type 0} {P : S → Type 0} where
  pub Keeps-raise_when : (b : Bool) (e : Error) → Keeps P (raise_when b e)
  unfolding raise_when
  Keeps-raise_when true e = record { at = λ s h. h }
  Keeps-raise_when false e = record { at = λ s h. h }

  pub Keeps-modify : (f : S → S) → ((s : S) → P s → P (f s)) → Keeps P (modify f)
  unfolding modify
  Keeps-modify f k = record { at = k }

module _ {S A B : Type 0} {P : S → Type 0} where
  continue-at :
      (r : Result A) (s : S) (f : A → Tx S B)
      → P s
      → ((a : A) → Keeps P (f a))
      → P (continue (r, s) f).1
  continue-at (ok a) s f h kf = (kf a).at s h
  continue-at (err e) s f h kf = h

  pub Keeps-bind :
      (first : Tx S A) (next : A → Tx S B)
      → Keeps P first
      → ((a : A) → Keeps P (next a))
      → Keeps P (first >>= next)
  unfolding ◌>>=◌
  Keeps-bind first next before after = record {
    at = λ s kept. let (r, s') = first s in continue-at r s' next (before.at s kept) after;
  }

pub ruleset keeps_rules = (
  Keeps-pure, Keeps-raise, Keeps-gets, Keeps-lift, Keeps-if, Keeps-write, Keeps-raise_when,
  Keeps-bind,
)

-- What a transaction that returned went through.
module _ {S A B : Type 0} where
  continue-eq_ok :
      (r : Result A) (s : S) (f : A → Tx S B) {b : B} {s'' : S}
      → continue (r, s) f ≡ (ok b, s'')
      → (a : A) × (r ≡ ok a) × (f a s ≡ (ok b, s''))
  continue-eq_ok (ok a) s f h = (a, refl, h)
  continue-eq_ok (err e) s f h = cc

  pub >>=-eq_ok :
      (m : Tx S A) (f : A → Tx S B) (s : S) {b : B} {s'' : S}
      → (m >>= f) s ≡ (ok b, s'')
      → (a : A) × (s' : S) × (m s ≡ (ok a, s')) × (f a s' ≡ (ok b, s''))
  unfolding ◌>>=◌
  >>=-eq_ok m f s h =
      let (r, s') = m s in
      let (a, e, rest) = continue-eq_ok r s' f h in (a, s', (λ i. (e i, s')), rest)

  pub gets-eq_ok :
      (f : S → A) (g : A → Tx S B) (s : S) {b : B} {s'' : S}
      → (gets f >>= g) s ≡ (ok b, s'')
      → g (f s) s ≡ (ok b, s'')
  unfolding ◌>>=◌
  gets-eq_ok f g s h = h

  pub lift-eq_ok :
      (f : S → Result A) (g : A → Tx S B) (s : S) {b : B} {s'' : S}
      → (lift f >>= g) s ≡ (ok b, s'')
      → (a : A) × (f s ≡ ok a) × (g a s ≡ (ok b, s''))
  unfolding ◌>>=◌
  lift-eq_ok f g s h = continue-eq_ok (f s) s g h

module _ {S A : Type 0} where
  settle-eq_ok :
      (s s' : S) (r : Result A) {b : A} {s'' : S}
      → settle s (r, s') ≡ (ok b, s'')
      → Path (Result A × S) (r, s') (ok b, s'')
  settle-eq_ok s s' (ok a) h = h
  settle-eq_ok s s' (err e) h = cc

  pub write-eq_ok :
      (m : Tx S A) (s : S) {b : A} {s'' : S} → write m s ≡ (ok b, s'') → m s ≡ (ok b, s'')
  unfolding write
  write-eq_ok m s h = let (r, s') = m s in settle-eq_ok s s' r h

  settle-eq_err :
      (s s' : S) (r : Result A) {e : Error} {s'' : S} → settle s (r, s') ≡ (err e, s'') → s'' ≡ s
  settle-eq_err s s' (ok a) h = cc
  settle-eq_err s s' (err e) h = cc

  -- A transaction that raised has changed nothing.
  pub write-eq_err : (m : Tx S A) (s : S) {e : Error} {s'' : S} → write m s ≡ (err e, s'') → s'' ≡ s
  unfolding write
  write-eq_err m s h = let (r, s') = m s in settle-eq_err s s' r h
