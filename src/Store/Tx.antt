-- ===== src/Store/Tx.antt =====
-- A transaction: statements that read and write a state and may raise. What was written before a
-- raise stays written inside the transaction, so the state comes back beside the error too;
-- `write` is the context manager that commits or rolls back.
use onceproof.Base.{Bool, true, false, if◌then◌else◌}
use onceproof.Errors.{Error, Result, ok, err, integrity_error}

abbrev pub Tx : Type 0 → Type 0 → Type 0
Tx S A = S → Result A × S

module _ {S A : Type 0} where
  unfoldable pub pure : A → Tx S A
  pure a s = (ok a, s)

  unfoldable pub raise : Error → Tx S A
  raise e s = (err e, s)

  unfoldable pub gets : (S → A) → Tx S A
  gets f s = (ok (f s), s)

  -- A statement that raises IntegrityError where a constraint would be broken.
  unfoldable pub constrained : (S → Bool) → (S → A) → (S → S) → Tx S A
  constrained is_broken result f s =
      if is_broken s then (err integrity_error, s) else (ok (result s), f s)

  -- A function that reads the state and may raise.
  unfoldable pub lift : (S → Result A) → Tx S A
  lift f s = (f s, s)

  -- Store._write: COMMIT at the end, ROLLBACK on an exception.
  abbrev pub settle : S → Result A × S → Result A × S
  settle s (ok a, s') = (ok a, s')
  settle s (err e, s') = (err e, s)

  unfoldable pub write : Tx S A → Tx S A
  write m s = settle s (m s)

module _ {S : Type 0} where
  unfoldable pub modify : (S → S) → Tx S (Unit {0})
  modify f s = (ok tt, f s)

  unfoldable pub raise_when : Bool → Error → Tx S (Unit {0})
  raise_when true e s = (err e, s)
  raise_when false e s = (ok tt, s)

module _ {S A B : Type 0} where
  abbrev pub continue : Result A × S → (A → Tx S B) → Result B × S
  continue (ok a, s) f = f a s
  continue (err e, s) f = (err e, s)

  infixl 10 ◌>>=◌ ◌>>◌
  -- Opening the bind opens the actions above.
  unfoldable pub ◌>>=◌ : Tx S A → (A → Tx S B) → Tx S B
  unfolding pure raise gets constrained lift modify raise_when write
  ◌>>=◌ m f s = continue (m s) f

  abbrev pub ◌>>◌ : Tx S A → Tx S B → Tx S B
  m >> k = m >>= λ _. k
