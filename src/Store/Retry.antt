-- ===== src/Store/Retry.antt =====
-- A decision is the answer to every retry of its key, for as long as its row is retained.
use onceproof.Base.{
  ℕ, String, ◌≡◌, sym, subst, ap, ◌∙◌, refl, true, false, Option, none, some, List, ◌==◌, arith,
  eq_self, All, is_some,
}
use onceproof.Errors.{Error, ok, err, value_error}
use onceproof.Model.{VerificationResult}
use onceproof.Model.Json.{Codec, RoundTrips}
use onceproof.Model.RoundTrip.{IsPersistable}
use onceproof.Store.Tx.{◌>>=◌, write, lift}
use onceproof.Store.Rows.{Database}
use onceproof.Store.Shared.{is_restore_required, Joined}
use onceproof.Store.Consume.{Request, Draws, verification_row, consume_uncached, consume_proof}
use onceproof.Store.Calls.{Call, run}
use onceproof.Store.Statements.{Allowed, run-kept}
use onceproof.Store.Outcome.{
  Outcome, unauthorized, replayed, decided, verifier, cached, consume_proof-Outcome,
}
use onceproof.Store.Idempotency.{
  within_retention, Remembers, Remembers-kept, consume_proof-cached, dumps-loads, remembered,
  recorded,
}

pub some_of {ℓ} : {A : Type ℓ} (o : Option A) → is_some o ≡ true → (a : A) × (o ≡ some a)
some_of none h = cc
some_of (some a) h = (a, refl)

module _ {Text : Type 0} (json : Codec Text) where
  recorded_by :
      (q : Request) (now : ℕ) (draws : Draws) (key : String) (r : VerificationResult)
      (db db' : Database Text)
      → q.idempotency_key ≡ some key
      → is_some (verifier q now db) ≡ true
      → cached json q db ≡ ok none
      → Outcome json q now draws db db' r
      → Remembers (verification_row json q r now) q.client_id key db'
  recorded_by q now draws key r db db' k auth fresh (unauthorized missing _ _) =
      let unfound = ap is_some missing in cc
  recorded_by q now draws key r db db' k auth fresh (replayed _ hit _) = ground arith
  recorded_by q now draws key r db db' k auth fresh (decided _ _ _ rows) =
      recorded json q now key r db db' k rows

  -- What an accepted call on an open ledger does with the row that its key finds.
  pub uncached_ok :
      (q : Request) (now : ℕ) (draws : Draws) (db : Database Text) (j : Joined Text)
      (r : VerificationResult)
      → cached json q db ≡ ok (some r)
      → write (lift (cached json q) >>= consume_uncached json j q now draws) db ≡ (ok r, db)
  unfolding consume_uncached write ◌>>=◌
  uncached_ok q now draws db j r hit = rw hit refl

  uncached_err :
      (q : Request) (now : ℕ) (draws : Draws) (db : Database Text) (j : Joined Text) (e : Error)
      → cached json q db ≡ err e
      → write (lift (cached json q) >>= consume_uncached json j q now draws) db ≡ (err e, db)
  unfolding consume_uncached write ◌>>=◌
  uncached_err q now draws db j e hit = rw hit refl

  -- What the key finds later: the row of the first decision.
  found_again :
      (q again : Request) (now : ℕ) (key : String) (r : VerificationResult) (db' : Database Text)
      → Remembers (verification_row json q r now) q.client_id key db'
      → (cs : List Call) → All (Allowed (within_retention now)) cs
      → again.client_id ≡ q.client_id
      → Remembers (verification_row json q r now) again.client_id key (run json cs db')
  found_again q again now key r db' first cs a client =
      let row = verification_row json q r now in
      subst (λ x. Remembers row x key (run json cs db')) (sym client)
        (run-kept json (Remembers-kept row q.client_id key) cs db' a first)

  -- A decision of an accepted credential under a key, which the key had not decided before, is the
  -- answer to every later call of the client with that key and the same fingerprint: the same
  -- result, and no change. Between the two there may be any calls, if each cleanup of them comes
  -- while the row is within its retention; the later call finds the ledger unsealed and its
  -- credential accepted. The result must be one that a ledger may persist, and the codec must read
  -- back what it writes.
  pub retry-consume_proof :
      (q : Request) (now : ℕ) (draws : Draws) (key : String) (r : VerificationResult)
      (db db' : Database Text)
      → RoundTrips json
      → IsPersistable r
      → q.idempotency_key ≡ some key
      → is_some (verifier q now db) ≡ true
      → cached json q db ≡ ok none
      → consume_proof json q now draws db ≡ (ok r, db')
      → (cs : List Call) → All (Allowed (within_retention now)) cs
      → (again : Request) (later : ℕ) (draws' : Draws) → again.client_id ≡ q.client_id
      → again.idempotency_key ≡ some key
      → again.request_fingerprint ≡ q.request_fingerprint
      → is_restore_required (run json cs db') ≡ false
      → is_some (verifier again later (run json cs db')) ≡ true
      → consume_proof json again later draws' (run json cs db') ≡ (ok r, run json cs db')
  retry-consume_proof q now draws key r db db' laws good k auth fresh h cs a again later draws'
        client key' same open_ ok_ =
      let first =
        recorded_by q now draws key r db db' k auth fresh
          (consume_proof-Outcome json q now draws db db' r h) in
      let hit =
        remembered json (verification_row json q r now) again key (run json cs db') key'
          (found_again q again now key r db' first cs a client) in
      let (j, found) = some_of (verifier again later (run json cs db')) ok_ in
      consume_proof-cached json again later draws' (run json cs db') j open_ found
      ∙ uncached_ok again later draws' (run json cs db') j r (
          hit
          ∙ rw same (rw (eq_self q.request_fingerprint) (rw (dumps-loads json r laws good) refl)))

  -- After a decision of an accepted credential under a key, which the key had not decided before, a
  -- later call of the client with that key and another fingerprint raises `idempotency_conflict` and
  -- changes nothing. Between the two there may be any calls, if each cleanup of them comes while the
  -- row is within its retention; the later call finds the ledger unsealed and its credential
  -- accepted.
  pub conflict-consume_proof :
      (q : Request) (now : ℕ) (draws : Draws) (key : String) (r : VerificationResult)
      (db db' : Database Text)
      → q.idempotency_key ≡ some key
      → is_some (verifier q now db) ≡ true
      → cached json q db ≡ ok none
      → consume_proof json q now draws db ≡ (ok r, db')
      → (cs : List Call) → All (Allowed (within_retention now)) cs
      → (again : Request) (later : ℕ) (draws' : Draws) → again.client_id ≡ q.client_id
      → again.idempotency_key ≡ some key
      → (q.request_fingerprint == again.request_fingerprint) ≡ false
      → is_restore_required (run json cs db') ≡ false
      → is_some (verifier again later (run json cs db')) ≡ true
      → consume_proof json again later draws' (run json cs db')
        ≡ (err (value_error "idempotency_conflict"), run json cs db')
  conflict-consume_proof q now draws key r db db' k auth fresh h cs a again later draws' client key'
        other open_ ok_ =
      let first =
        recorded_by q now draws key r db db' k auth fresh
          (consume_proof-Outcome json q now draws db db' r h) in
      let hit =
        remembered json (verification_row json q r now) again key (run json cs db') key'
          (found_again q again now key r db' first cs a client) in
      let (j, found) = some_of (verifier again later (run json cs db')) ok_ in
      consume_proof-cached json again later draws' (run json cs db') j open_ found
      ∙ uncached_err again later draws' (run json cs db') j _ (hit ∙ rw other refl)
