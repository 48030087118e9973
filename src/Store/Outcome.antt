-- ===== src/Store/Outcome.antt =====
-- What a call of `consume_proof` that returned went through: one constructor for each way.
use onceproof.Base.{
  ℕ, ◌<◌, String, ◌≡◌, refl, sym, subst, ap, true, false, Option, none, some, List, ◌∷◌, arith,
  eq_sound, find, update, count, is_some,
}
use onceproof.Errors.{Result, ok, err}
use onceproof.Model.{VerificationResult}
use onceproof.Model.Json.{Codec}
use onceproof.Store.Tx.{Tx, pure, ◌>>=◌, ◌>>◌}
use onceproof.Store.Keeps.{>>=-eq_ok, gets-eq_ok, lift-eq_ok, write-eq_ok}
use onceproof.Store.Rows.{verification, verify, Operation, ProofRow, Database}
use onceproof.Store.Tables.{insert_verification_row, insert_audit}
use onceproof.Store.Shared.{require_operational, Joined, join}
use onceproof.Store.Rate.{consume_rate_slot}
use onceproof.Store.Consume.{
  Request, Draws, rejected_result, digest_is, is_redeemable, mark_consumed, idempotent_result,
  redeem, refusal, redeemed, decide_on, decide, owned, record_decision, verification_row,
  consume_new, consume_uncached, accepted_join, consume_checked, consume_proof,
}

module _ {Text : Type 0} where
  -- The proof row that a request names, if it is the client's.
  abbrev pub named_proof : Request → Database Text → Option ProofRow
  named_proof q db = owned q.client_id (find (digest_is q.token_digest) db.proofs)

  abbrev pub verifier : Request → ℕ → Database Text → Option (Joined Text)
  verifier q now db =
      accepted_join q.client_id now (join q.credential_id verification db.clients db.credentials)

  abbrev pub cached : Codec Text → Request → Database Text → Result (Option VerificationResult)
  cached json q db = idempotent_result json q.client_id q.idempotency_key q.request_fingerprint db

-- The row may be redeemed by the request at this time.
pub record Redeems (q : Request) (now : ℕ) (p : ProofRow) : Type 0 where
  pub fresh : p.consumed_at ≡ none
  pub in_time : now < p.expires_at
  pub purpose : p.purpose ≡ q.purpose
  pub audience : p.audience ≡ q.audience
  pub subject : p.subject ≡ q.subject

refusal_none : (q : Request) (now : ℕ) (p : ProofRow) → refusal q now p ≡ none → Redeems q now p
unfolding refusal
refusal_none q now p h = ground (
  arith,
  eq_sound p.purpose q.purpose,
  eq_sound p.audience q.audience,
  eq_sound p.subject q.subject,
)

-- How `decide` comes to its result, from the rows `before` to the rows `after`.
pub data Decision (q : Request) (now : ℕ) (id : String) (o : Option ProofRow)
    (before after : List ProofRow) (r : VerificationResult) : Type 0 where
  refused : r.verified ≡ false → after ≡ before → Decision q now id o before after r
  applied :
      (p : ProofRow)
      → o ≡ some p
      → Redeems q now p
      → r ≡ redeemed q now id p (count (is_redeemable q.token_digest now) before)
      → after ≡ update (is_redeemable q.token_digest now) (mark_consumed now id) before
      → Decision q now id o before after r

module _ {Text : Type 0} where
  abbrev DecisionOf :
      Request
      → ℕ
      → String
      → Option ProofRow
      → Database Text
      → Result VerificationResult × Database Text
      → Type 0
  DecisionOf q now id o db (ok r, db') = Decision q now id o db.proofs db'.proofs r
  DecisionOf q now id o db (err e, db') = Unit

  decide_on-Decision :
      (q : Request) (now : ℕ) (id : String) (p : ProofRow) (o : Option String) (db : Database Text)
      → refusal q now p ≡ o
      → DecisionOf q now id (some p) db (decide_on q now id p o db)
  unfolding redeem rejected_result ◌>>=◌
  decide_on-Decision q now id p none db e = applied p refl (refusal_none q now p e) refl refl
  decide_on-Decision q now id p (some reason) db e = refused refl refl

  decide-Decision :
      (q : Request) (now : ℕ) (id : String) (o : Option ProofRow) (db : Database Text)
      → DecisionOf q now id o db (decide q now id o db)
  unfolding decide rejected_result ◌>>=◌
  decide-Decision q now id none db = refused refl refl
  decide-Decision q now id (some p) db = decide_on-Decision q now id p (refusal q now p) db refl

  verifications-decide :
      (q : Request) (now : ℕ) (id : String) (o : Option ProofRow) (db : Database Text)
      → (decide q now id o db).1.verifications ≡ db.verifications
  unfolding decide redeem ◌>>=◌
  verifications-decide q now id none db = refl
  verifications-decide q now id (some p) db = ground arith

  operational_state : (db db₁ : Database Text) → require_operational db ≡ (ok tt, db₁) → db₁ ≡ db
  unfolding require_operational ◌>>=◌
  operational_state db db₁ h = ground arith

  -- What follows the check of the seal runs on the same state.
  pub operational-eq_ok :
      {B : Type 0} (f : Unit {0} → Tx (Database Text) B) (db db' : Database Text) (b : B)
      → (require_operational >>= f) db ≡ (ok b, db')
      → f tt db ≡ (ok b, db')
  operational-eq_ok f db db' b h =
      let (_, db₁, first, rest) = >>=-eq_ok require_operational f db h in
      subst (λ (d : Database Text). f tt d ≡ (ok b, db')) (operational_state db db₁ first) rest

  pub rate-frame :
      (id : String) (op : Operation) (limit now : ℕ) (db db' : Database Text)
      → consume_rate_slot id op limit now db ≡ (ok tt, db')
      → (db'.proofs ≡ db.proofs) × (db'.verifications ≡ db.verifications)
  unfolding consume_rate_slot
  rate-frame id op limit now db db' h = ground arith

  record_decision-frame :
      (json : Codec Text) (q : Request) (r : VerificationResult) (now : ℕ) (e : String)
      (db db' : Database Text)
      → record_decision json q r now e db ≡ (ok tt, db')
      → (db'.proofs ≡ db.proofs)
        × (db'.verifications ≡ verification_row json q r now ∷ db.verifications)
  unfolding record_decision insert_verification_row insert_audit ◌>>=◌
  record_decision-frame json q r now e db db' h = ground arith

-- A call that returned: refused for its credential, replayed from an earlier decision, or decided
-- and recorded.
pub data Outcome {Text : Type 0} (json : Codec Text) (q : Request) (now : ℕ) (draws : Draws)
    (db db' : Database Text) (r : VerificationResult) : Type 0 where
  unauthorized :
      verifier q now db ≡ none
      → r ≡ rejected_result "credential_rejected" draws.verification_id none none now
      → db' ≡ db
      → Outcome json q now draws db db' r
  replayed :
      is_some (verifier q now db) ≡ true
      → cached json q db ≡ ok (some r)
      → db' ≡ db
      → Outcome json q now draws db db' r
  decided :
      is_some (verifier q now db) ≡ true
      → cached json q db ≡ ok none
      → Decision q now draws.verification_id (named_proof q db) db.proofs db'.proofs r
      → db'.verifications ≡ verification_row json q r now ∷ db.verifications
      → Outcome json q now draws db db' r

module _ {Text : Type 0} (json : Codec Text) (q : Request) (now : ℕ) (draws : Draws)
    (db : Database Text) where
  abbrev DecidedTo : Database Text → VerificationResult → Type 0
  DecidedTo db' r =
      Decision q now draws.verification_id (named_proof q db) db.proofs db'.proofs r
      × (db'.verifications ≡ verification_row json q r now ∷ db.verifications)

  -- The states between the steps put together: `db₁` after the rate slot, `db₂` after the decision.
  decided_through :
      (db₁ db₂ db' : Database Text) (r : VerificationResult)
      → (db₁.proofs ≡ db.proofs) × (db₁.verifications ≡ db.verifications)
      → decide q now draws.verification_id (named_proof q db₁) db₁ ≡ (ok r, db₂)
      → (db'.proofs ≡ db₂.proofs)
        × (db'.verifications ≡ verification_row json q r now ∷ db₂.verifications)
      → DecidedTo db' r
  decided_through db₁ db₂ db' r first decision last =
      let id = draws.verification_id in
      let found : Decision q now id (named_proof q db₁) db₁.proofs db₂.proofs r =
        subst (DecisionOf q now id (named_proof q db₁) db₁) decision
          (decide-Decision q now id (named_proof q db₁) db₁) in
      let from : Decision q now id (named_proof q db) db.proofs db₂.proofs r =
        subst
          (λ ps.
            Decision q now id (owned q.client_id (find (digest_is q.token_digest) ps)) ps db₂.proofs
              r)
          first.0 found in
      (
        subst (λ ps. Decision q now id (named_proof q db) db.proofs ps r) (sym last.0) from,
        cc (verifications-decide q now id (named_proof q db₁) db₁),
      )

  recorded_as :
      (db₂ db' : Database Text) (r r' : VerificationResult)
      → (record_decision json q r' now draws.event_id >> pure r') db₂ ≡ (ok r, db')
      → (r' ≡ r)
        × (db'.proofs ≡ db₂.proofs)
        × (db'.verifications ≡ verification_row json q r' now ∷ db₂.verifications)
  unfolding record_decision insert_verification_row insert_audit ◌>>=◌
  recorded_as db₂ db' r r' h = ground arith

  consume_new-Decision :
      (j : Joined Text) (db' : Database Text) (r : VerificationResult)
      → consume_new json j q now draws db ≡ (ok r, db')
      → DecidedTo db' r
  unfolding consume_new
  consume_new-Decision j db' r h =
      let limit = j.client.verify_limit_per_minute in
      let (_, db₁, rated, h₁) = >>=-eq_ok (consume_rate_slot q.client_id verify limit now) _ db h in
      let h₂ = gets-eq_ok (named_proof q) _ db₁ h₁ in
      let (r', db₂, decision, h₃) =
        >>=-eq_ok (decide q now draws.verification_id (named_proof q db₁)) _ db₁ h₂ in
      let last = recorded_as db₂ db' r r' h₃ in
      subst (DecidedTo db') last.0
        (decided_through db₁ db₂ db' r' (rate-frame _ _ _ _ db db₁ rated) decision (last.1, last.2))

  uncached-Outcome :
      (j : Joined Text) (o : Option VerificationResult) (db' : Database Text)
      (r : VerificationResult)
      → verifier q now db ≡ some j
      → cached json q db ≡ ok o
      → consume_uncached json j q now draws o db ≡ (ok r, db')
      → Outcome json q now draws db db' r
  unfolding consume_uncached ◌>>=◌
  uncached-Outcome j none db' r found fresh h =
      let (decision, row) = consume_new-Decision j db' r h in
      decided (ap is_some found) fresh decision row
  uncached-Outcome j (some old) db' r found hit h =
      replayed (ap is_some found) (ground arith) (ground arith)

  checked-Outcome :
      (o : Option (Joined Text)) (db' : Database Text) (r : VerificationResult)
      → verifier q now db ≡ o
      → consume_checked json q now draws o db ≡ (ok r, db')
      → Outcome json q now draws db db' r
  unfolding consume_checked pure
  checked-Outcome none db' r found h = unauthorized found (ground arith) (ground arith)
  checked-Outcome (some j) db' r found h =
      let (o, hit, rest) = lift-eq_ok (cached json q) _ db h in
      uncached-Outcome j o db' r found hit rest

  -- Every call that returns has one of the three outcomes.
  pub consume_proof-Outcome :
      (db' : Database Text) (r : VerificationResult)
      → consume_proof json q now draws db ≡ (ok r, db')
      → Outcome json q now draws db db' r
  unfolding consume_proof
  consume_proof-Outcome db' r h = checked-Outcome (verifier q now db) db' r refl (
      gets-eq_ok (λ d. join q.credential_id verification d.clients d.credentials) _ db
        (operational-eq_ok _ db db' r (write-eq_ok _ db h)))
