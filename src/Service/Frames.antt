-- ===== src/Service/Frames.antt =====
-- The steps of a service call that returned.
use onceproof.Base.{ℕ, ◌≡◌, refl, sym, Option, none, some}
use onceproof.Errors.{ok}
use onceproof.Model.Json.{Codec}
use onceproof.Store.Tx.{Tx}
use onceproof.Store.Keeps.{Keeps, keeps_rules}
use onceproof.Store.Rows.{Database}
use onceproof.Store.Shared.{require_operational, Joined}
use onceproof.Store.Consume.{Request, cached_for, cached_verification}
use onceproof.Service.Runtime.{Runtime, on_database}

module _ {Text : Type 0} where
  -- A call of the store touches the database only.
  pub on_database-eq_ok :
      {A : Type 0} (m : Tx (Database Text) A) (w w' : Runtime Text) (a : A)
      → on_database m w ≡ (ok a, w')
      → (m w.database ≡ (ok a, w'.database))
        × (w'.ring ≡ w.ring)
        × (w'.next_cleanup_at ≡ w.next_cleanup_at)
  unfolding on_database
  on_database-eq_ok m w w' a h = (
    (λ i. ((h i).0, (h i).1.database)),
    sym (λ i. (h i).1.ring),
    sym (λ i. (h i).1.next_cleanup_at),
  )

  cached_for-Keeps :
      (json : Codec Text) (q : Request) (now : ℕ) (db : Database Text) (o : Option (Joined Text))
      → Keeps (λ d. d ≡ db) (cached_for json q now o)
  cached_for-Keeps json q now db none = search keeps_rules
  cached_for-Keeps json q now db (some j) = search keeps_rules

  cached_verification-Keeps :
      (json : Codec Text) (q : Request) (now : ℕ) (db : Database Text)
      → Keeps (λ d. d ≡ db) (cached_verification json q now)
  unfolding cached_verification require_operational
  cached_verification-Keeps json q now db = search (keeps_rules, cached_for-Keeps)

  -- The read of an earlier decision changes nothing.
  pub cached_verification-frame :
      (json : Codec Text) (q : Request) (now : ℕ) (db : Database Text)
      → (cached_verification json q now db).1 ≡ db
  cached_verification-frame json q now db = (cached_verification-Keeps json q now db).at db refl
