-- ===== src/Store/Decisions.antt =====
-- What one call of `consume_proof` does: when it accepts, and what it leaves alone otherwise.
use onceproof.Base.{
  ◌∙◌, ℕ, String, ◌≡◌, refl, ap, true, false, Option, none, some, arith, eq_sound, find, count,
  update, is_some,
}
use onceproof.Errors.{Result, ok, err}
use onceproof.Model.{VerificationResult}
use onceproof.Model.Json.{Codec}
use onceproof.Store.Keeps.{write-eq_err}
use onceproof.Store.Rows.{ProofRow, Database}
use onceproof.Store.Consume.{
  Request, Draws, rejected_result, accepted_result, redeemed, digest_is, is_redeemable,
  mark_consumed, owned, consume_proof,
}
use onceproof.Store.Answer.{affirmation, accepted_result-affirmation}
use onceproof.Store.Consistency.{IsConsistent}
use onceproof.Store.Outcome.{
  Outcome, unauthorized, replayed, decided, refused, applied, Redeems, cached, named_proof,
  verifier, consume_proof-Outcome,
}
use onceproof.Store.OnceOnly.{owned-some, one_redeemed, is_verified}

-- The row that a request redeems: found by its digest, owned by its client, unconsumed, in time and
-- with the three bindings of the request.
pub record IsRedeemedBy {Text : Type 0} (q : Request) (now : ℕ) (db : Database Text) (p : ProofRow)
    : Type 0 where
  pub found : find (digest_is q.token_digest) db.proofs ≡ some p
  pub owner : p.client_id ≡ q.client_id
  pub redeems : Redeems q now p

owned_client :
    (id : String) (o : Option ProofRow) (p : ProofRow) → owned id o ≡ some p → p.client_id ≡ id
owned_client id none p h = cc
owned_client id (some x) p h = ground (arith, eq_sound x.client_id id)

module _ {Text : Type 0} (json : Codec Text) (q : Request) (now : ℕ) (draws : Draws)
    (db : Database Text) where
  -- A new answer `verified: true`: what held before, and what changed.
  pub record Accepted (db' : Database Text) (r : VerificationResult) : Type 0 where
    pub authorized : is_some (verifier q now db) ≡ true
    pub row : ProofRow
    pub redeemed_row : IsRedeemedBy q now db row
    pub answer : r ≡ affirmation row draws.verification_id now
    pub proofs :
        db'.proofs
        ≡ update
            (is_redeemable q.token_digest now)
            (mark_consumed now draws.verification_id)
            db.proofs

  applied-Accepted :
      (db' : Database Text) (r : VerificationResult) (p : ProofRow)
      → is_some (verifier q now db) ≡ true
      → named_proof q db ≡ some p
      → Redeems q now p
      → r
        ≡ redeemed q now draws.verification_id p
            (count (is_redeemable q.token_digest now) db.proofs)
      → r.verified ≡ true
      → db'.proofs
        ≡ update
            (is_redeemable q.token_digest now)
            (mark_consumed now draws.verification_id)
            db.proofs
      → Accepted db' r
  unfolding redeemed
  applied-Accepted db' r p auth found by e v after =
      let accepted_as : r ≡ accepted_result p draws.verification_id now = ground arith in
      record {
        authorized = auth;
        row = p;
        redeemed_row = record {
          found = owned-some q.client_id _ p found;
          owner = owned_client q.client_id _ p found;
          redeems = by;
        };
        answer = accepted_as ∙ accepted_result-affirmation p draws.verification_id now;
        proofs = after;
      }

  -- An answer `verified: true` where the key has no earlier decision is given only to an accepted verifier credential, for a row of its
  -- client that was unconsumed, in time and bound to the request's subject, purpose and audience; it
  -- carries the claims of that row and the identifier drawn, and the row is consumed.
  pub consume_proof-Accepted :
      (db' : Database Text) (r : VerificationResult)
      → consume_proof json q now draws db ≡ (ok r, db')
      → cached json q db ≡ ok none
      → r.verified ≡ true
      → Accepted db' r
  unfolding rejected_result
  consume_proof-Accepted db' r e fresh v = go (consume_proof-Outcome json q now draws db db' r e)
    where
      go : Outcome json q now draws db db' r → Accepted db' r
      go (unauthorized _ e' _) = cc (ap (λ (x : VerificationResult). x.verified) e')
      go (replayed _ hit _) = cc
      go (decided auth _ (refused n _) _) = cc
      go (decided auth _ (applied p found by e' after) _) =
          applied-Accepted db' r p auth found by e' v after

  verified_if_applied :
      (r : VerificationResult) (p : ProofRow)
      → IsConsistent db
      → named_proof q db ≡ some p
      → Redeems q now p
      → r
        ≡ redeemed q now draws.verification_id p
            (count (is_redeemable q.token_digest now) db.proofs)
      → r.verified ≡ true
  unfolding redeemed accepted_result
  verified_if_applied r p c found by e =
      let one =
        one_redeemed q.token_digest now db.proofs p c.unique_proofs
          (owned-some q.client_id _ p found) by.fresh by.in_time in
      rw e (rw one refl)

  proofs-Outcome :
      (db' : Database Text) (r : VerificationResult)
      → IsConsistent db
      → r.verified ≡ false
      → Outcome json q now draws db db' r
      → db'.proofs ≡ db.proofs
  proofs-Outcome db' r c v (unauthorized _ _ same) = ap (λ (d : Database Text). d.proofs) same
  proofs-Outcome db' r c v (replayed _ _ same) = ap (λ (d : Database Text). d.proofs) same
  proofs-Outcome db' r c v (decided _ _ (refused _ same) _) = same
  proofs-Outcome db' r c v (decided _ _ (applied p found by e _) _) =
      cc (verified_if_applied r p c found by e)

  -- On a consistent database, a call that does not answer `verified: true`, whether it returns a
  -- rejection or raises, leaves the proofs as they were.
  pub proofs-consume_proof_rejected :
      IsConsistent db
      → is_verified (consume_proof json q now draws db).0 ≡ false
      → (consume_proof json q now draws db).1.proofs ≡ db.proofs
  unfolding consume_proof
  proofs-consume_proof_rejected c h = go (consume_proof json q now draws db) refl h
    where
      go :
          (o : Result VerificationResult × Database Text)
          → consume_proof json q now draws db ≡ o
          → is_verified o.0 ≡ false
          → o.1.proofs ≡ db.proofs
      go (ok r, db') e v =
          proofs-Outcome db' r c v (consume_proof-Outcome json q now draws db db' r e)
      go (err x, db') e v = ap (λ (d : Database Text). d.proofs) (write-eq_err _ db e)
