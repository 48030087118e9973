-- ===== src/Store/CachedRead.antt =====
-- `cached_verification` reads what `consume_proof` would answer.
use onceproof.Base.{
  ℕ, String, ◌≡◌, refl, ap, ◌∙◌, Bool, true, false, Option, none, some, arith, is_some, is_none,
  if◌then◌else◌,
}
use onceproof.Errors.{ok}
use onceproof.Model.{VerificationResult}
use onceproof.Model.Json.{Codec}
use onceproof.Store.Tx.{Tx, ◌>>=◌, lift, pure}
use onceproof.Store.Keeps.{gets-eq_ok}
use onceproof.Store.Rows.{verification, Database}
use onceproof.Store.Shared.{is_restore_required, require_operational, Joined, join}
use onceproof.Store.Consume.{
  Request, Draws, cached_for, cached_read, cached_verification, consume_proof,
}
use onceproof.Store.Outcome.{verifier, cached, operational-eq_ok}
use onceproof.Store.Retry.{some_of, uncached_ok}
use onceproof.Store.Idempotency.{consume_proof-cached}

module _ {Text : Type 0} (json : Codec Text) (q : Request) (now : ℕ) (db db' : Database Text)
    (r : VerificationResult) where
  cached_for-some :
      (o : Option (Joined Text))
      → cached_for json q now o db ≡ (ok (some r), db')
      → (is_some o ≡ true) × (cached json q db ≡ ok (some r))
  unfolding pure lift
  cached_for-some none h = absurd (ground arith)
  cached_for-some (some j) h = (refl, ap (λ x. x.0) h)

  operational_open :
      {B : Type 0} (f : Unit {0} → Tx (Database Text) B) (b : B)
      → (require_operational >>= f) db ≡ (ok b, db')
      → is_restore_required db ≡ false
  unfolding require_operational ◌>>=◌
  operational_open f b h = ground arith

  not_absent :
      (absent : Bool) (read : Tx (Database Text) (Option VerificationResult))
      → (if absent then pure none else read) db ≡ (ok (some r), db')
      → read db ≡ (ok (some r), db')
  unfolding pure
  not_absent true read h = absurd (ground arith)
  not_absent false read h = h

  -- Where `cached_verification` finds an answer, `consume_proof` at the same time on the same ledger
  -- gives that answer, and changes nothing.
  pub cached_verification-consume_proof :
      (draws : Draws)
      → cached_verification json q now db ≡ (ok (some r), db')
      → consume_proof json q now draws db ≡ (ok r, db)
  unfolding cached_verification
  cached_verification-consume_proof draws h =
      let read = not_absent (is_none q.idempotency_key) (cached_read json q now) h in
      let open_ledger = operational_open _ (some r) read in
      let found =
        gets-eq_ok (λ d. join q.credential_id verification d.clients d.credentials) _ db
          (operational-eq_ok _ db db' (some r) read) in
      let (accepted, hit) = cached_for-some (verifier q now db) found in
      let (j, joined) = some_of (verifier q now db) accepted in
      consume_proof-cached json q now draws db j open_ledger joined
      ∙ uncached_ok json q now draws db j r hit

  -- The read finds the answer that is recorded for the key.
  pub cached_verification_hit :
      (key : String) (j : Joined Text)
      → q.idempotency_key ≡ some key
      → is_restore_required db ≡ false
      → verifier q now db ≡ some j
      → cached json q db ≡ ok (some r)
      → cached_verification json q now db ≡ (ok (some r), db)
  unfolding cached_verification require_operational lift ◌>>=◌
  cached_verification_hit key j k open_ledger joined hit =
      let present : is_none q.idempotency_key ≡ false = rw k refl in
      rw present (rw open_ledger (rw joined (rw hit refl)))
