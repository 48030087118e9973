-- ===== src/Service/Issuing.antt =====
-- What a call of the service's `issue_proof` that returned has stored.
use onceproof.Base.{
  ℕ, ◌≤◌, String, ◌≡◌, refl, arith, ap, sym, ◌∙◌, subst, Bool, true, false, Option, none, some,
  List, ◌∷◌, ◌⊎◌, inl, inr,
}
use onceproof.Base.Int.{pos, negsuc}
use onceproof.Errors.{Error, Result, ok}
use onceproof.Model.{IssuedProof}
use onceproof.Model.Json.{Value, null, int, contains}
use onceproof.Store.Tx.{Tx, ◌>>=◌, raise_when}
use onceproof.Store.Keeps.{>>=-eq_ok, lift-eq_ok, gets-eq_ok}
use onceproof.Store.Rows.{
  issuance, is_active, ClientRecord, CredentialRecord, ProofRecord, ProofRow, Database,
}
use onceproof.Store.Clients.{client}
use onceproof.Store.Issue as Ledger
use onceproof.Store.Issue.{proof_row, committed}
use onceproof.Store.Issued.{issue_proof-stores, issue_proof-committed}
use onceproof.Keyring.Ring.{current_key}
use onceproof.Crypto.{proof_digest, key_check}
use onceproof.Service.Secrets.{new_proof}
use onceproof.Service.Inputs.{checked_text, checked_purpose, checked_audience}
use onceproof.Service.Runtime.{Library, Runtime, on_database, authenticate, maybe_cleanup, required}
use onceproof.Service.Issue.{
  IssueArguments, IssueDraws, AcceptedInput, accepted_input, checked_ttl, or_rejected, proof_record,
  issue_to, issue_for, issue_proof,
}
use onceproof.Service.Frames.{on_database-eq_ok}
use onceproof.Service.Verified.{read_only}

-- From the credential on: the new row, and the proof that it is the digest of.
pub record Stored {Text : Type 0} (lib : Library Text) (c : CredentialRecord)
    (input : AcceptedInput) (ttl : ℕ) (draws : IssueDraws) (w w' : Runtime Text)
    (issued : IssuedProof) : Type 0 where
  pub key : List ℕ
  pub digest : String
  pub row : ProofRow
  pub current : current_key w.ring.memory ≡ ok key
  pub text : issued.proof ≡ new_proof w.ring.memory.current_kid draws.token
  pub keyed : proof_digest lib.hashing key issued.proof ≡ ok digest
  pub ring : w'.ring ≡ w.ring
  pub added : w'.database.proofs ≡ row ∷ w.database.proofs
  pub is_row :
      row
      ≡ proof_row (
          committed
            (proof_record c input w.ring.memory.current_kid digest draws.now ttl)
            draws.commit_time)

module _ {Text : Type 0} (lib : Library Text) where
  ledger-stores :
      (c : CredentialRecord) (input : AcceptedInput) (ttl : ℕ) (draws : IssueDraws)
      (kid digest check : String) (r : ProofRecord) (db db' : Database Text)
      → Ledger.issue_proof
          (proof_record c input kid digest draws.now ttl)
          check
          draws.commit_time
          draws.event_id
          db
        ≡ (ok r, db')
      → (r ≡ committed (proof_record c input kid digest draws.now ttl) draws.commit_time)
        × (db'.proofs ≡ proof_row r ∷ db.proofs)
  ledger-stores c input ttl draws kid digest check r db db' h =
      let stores =
        issue_proof-stores (proof_record c input kid digest draws.now ttl) check draws.commit_time
          draws.event_id r db db' (omega arith) h in
      (
        issue_proof-committed (proof_record c input kid digest draws.now ttl) check
            draws.commit_time draws.event_id r db db' h,
        stores.4,
      )

  issue_to-Stored :
      (c : CredentialRecord) (input : AcceptedInput) (ttl : ℕ) (draws : IssueDraws)
      (w w' : Runtime Text) (issued : IssuedProof)
      → issue_to lib c input ttl draws w ≡ (ok issued, w')
      → Stored lib c input ttl draws w w' issued
  unfolding issue_to
  issue_to-Stored c input ttl draws w w' issued h =
      let kid = w.ring.memory.current_kid in
      let proof = new_proof kid draws.token in
      let (key, current, h₁) = lift-eq_ok (λ (x : Runtime Text). current_key x.ring.memory) _ w h in
      let h₂ = gets-eq_ok (λ (x : Runtime Text). x.ring.memory.current_kid) _ w h₁ in
      let (digest, keyed, h₃) = lift-eq_ok (λ _. proof_digest lib.hashing key proof) _ w h₂ in
      let (check, _, h₄) = lift-eq_ok (λ _. key_check lib.hashing key) _ w h₃ in
      let call =
        Ledger.issue_proof (proof_record c input kid digest draws.now ttl) check draws.commit_time
          draws.event_id in
      let (r, w₁, stored, h₅) = >>=-eq_ok (on_database call) _ w h₄ in
      let (stored', ring, _) = on_database-eq_ok call w w₁ r stored in
      let (answer, state) = read_only _ issued w₁ w' h₅ in
      let (same, rows) =
        ledger-stores c input ttl draws kid digest check r w.database w₁.database stored' in
      let text : issued.proof ≡ proof = sym (λ i. (answer i).proof) in
      record {
        key = key;
        digest = digest;
        row = proof_row r;
        current = current;
        text = text;
        keyed = rw text keyed;
        ring = ap (λ (x : Runtime Text). x.ring) state ∙ ring;
        added = ap (λ (x : Runtime Text). x.database.proofs) state ∙ rows;
        is_row = ap proof_row same;
      }

-- The lifetime that an argument asks for: that of the client where it is None, and else an int, in
-- both cases from one second to that of the client.
pub record Lifetime (asked : Value) (ttl maximum : ℕ) : Type 0 where
  pub source : ((asked ≡ null) × (ttl ≡ maximum)) ⊎ (asked ≡ int (pos ttl))
  pub positive : 1 ≤ ttl
  pub short : ttl ≤ maximum

-- What the call went through: its checks, the credential that its secret is of, and the row.
pub record Issues {Text : Type 0} (lib : Library Text) (args : IssueArguments) (draws : IssueDraws)
    (w w' : Runtime Text) (issued : IssuedProof) : Type 0 where
  pub input : AcceptedInput
  pub cleaned_state : Runtime Text
  pub credential : CredentialRecord
  pub owner : ClientRecord
  pub ttl : ℕ
  pub subject : checked_text args.subject "subject" 256 ≡ ok input.subject
  pub purpose : checked_purpose args.purpose ≡ ok input.purpose
  pub audience : checked_audience args.audience ≡ ok input.audience
  pub cleaned : maybe_cleanup draws.now draws.lock_is_free w ≡ (ok tt, cleaned_state)
  pub known :
      authenticate lib args.issuance_secret issuance draws.now cleaned_state ≡ ok (some credential)
  pub owned : client lib.json credential.client_id cleaned_state.database ≡ some (ok owner)
  pub active : is_active owner.status ≡ true
  pub allowed : contains input.audience owner.allowed_audiences ≡ true
  pub lifetime : Lifetime args.ttl_seconds ttl owner.proof_ttl_seconds
  pub stored : Stored lib credential input ttl draws cleaned_state w' issued

checked_ttl-Lifetime :
    (maximum ttl : ℕ) (v : Value) → checked_ttl maximum v ≡ ok ttl → Lifetime v ttl maximum
checked_ttl-Lifetime maximum ttl Value.null h = record {
  source = inl (refl, ground arith);
  positive = ground arith;
  short = ground arith;
}
checked_ttl-Lifetime maximum ttl (Value.int (pos n)) h =
    let same : n ≡ ttl = ground arith in
    record {
      source = inr (ap (λ m. int (pos m)) same);
      positive = ground arith;
      short = ground arith;
    }
checked_ttl-Lifetime maximum ttl (Value.int (negsuc n)) h = absurd (ground arith)
checked_ttl-Lifetime maximum ttl (Value.bool b) h = absurd (ground arith)
checked_ttl-Lifetime maximum ttl (Value.real s) h = absurd (ground arith)
checked_ttl-Lifetime maximum ttl (Value.text s) h = absurd (ground arith)
checked_ttl-Lifetime maximum ttl (Value.arr xs) h = absurd (ground arith)
checked_ttl-Lifetime maximum ttl (Value.obj fs) h = absurd (ground arith)

or_rejected-some :
    (o : Option (Result ClientRecord)) (c : ClientRecord) → or_rejected o ≡ ok c → o ≡ some (ok c)
or_rejected-some none c h = absurd (ground arith)
or_rejected-some (some r) c h = ap some h

module _ {Text : Type 0} where
  pub required-some :
      {A B : Type 0} (e : Error) (o : Option A) (f : A → Tx (Runtime Text) B) (w w' : Runtime Text)
      (b : B)
      → (required e o >>= f) w ≡ (ok b, w')
      → (a : A) × (o ≡ some a) × (f a w ≡ (ok b, w'))
  unfolding ◌>>=◌
  required-some e none f w w' b h = absurd (ground arith)
  required-some e (some a) f w w' b h = (a, refl, h)

  pub raise_when-passed :
      {B : Type 0} (t : Bool) (e : Error) (f : Unit {0} → Tx (Runtime Text) B) (w w' : Runtime Text)
      (b : B)
      → (raise_when t e >>= f) w ≡ (ok b, w')
      → (t ≡ false) × (f tt w ≡ (ok b, w'))
  unfolding ◌>>=◌
  raise_when-passed true e f w w' b h = absurd (ground arith)
  raise_when-passed false e f w w' b h = (refl, h)

  accepted_input-checks :
      (args : IssueArguments) (input : AcceptedInput) (w w' : Runtime Text)
      → accepted_input args w ≡ (ok input, w')
      → (w' ≡ w)
        × (checked_text args.subject "subject" 256 ≡ ok input.subject)
        × (checked_purpose args.purpose ≡ ok input.purpose)
        × (checked_audience args.audience ≡ ok input.audience)
  unfolding accepted_input
  accepted_input-checks args input w w' h =
      let (subject, h₁, k₁) = lift-eq_ok (λ w. checked_text args.subject "subject" 256) _ w h in
      let (purpose, h₂, k₂) = lift-eq_ok (λ w. checked_purpose args.purpose) _ w k₁ in
      let (audience, h₃, k₃) = lift-eq_ok (λ w. checked_audience args.audience) _ w k₂ in
      let (same, state) = read_only _ input w w' k₃ in
      (
        state,
        h₁ ∙ (λ i. ok (same i).subject),
        h₂ ∙ (λ i. ok (same i).purpose),
        h₃ ∙ (λ i. ok (same i).audience),
      )

module _ {Text : Type 0} (lib : Library Text) where
  -- A call of `issue_proof` that returns has checked its arguments and found, after its cleanup, the
  -- credential that the secret is of, with an active client that may name the audience. Its lifetime
  -- is the one that is asked for, or the client's where none is, from one second to the client's. It has
  -- added one row, which carries the accepted arguments, from
  -- the time of the transaction on, and the digest of the proof that it returns under the current
  -- root key; the proof names that key.
  pub issue_proof-Issues :
      (args : IssueArguments) (draws : IssueDraws) (w w' : Runtime Text) (issued : IssuedProof)
      → issue_proof lib args draws w ≡ (ok issued, w')
      → Issues lib args draws w w' issued
  unfolding issue_proof issue_for
  issue_proof-Issues args draws w w' issued h =
      let (input, w₀, accepted, h₁) = >>=-eq_ok (accepted_input args) _ w h in
      let (same, subject, purpose, audience) = accepted_input-checks args input w w₀ accepted in
      let (_, w₁, cleaned, h₂) = >>=-eq_ok (maybe_cleanup draws.now draws.lock_is_free) _ w₀ h₁ in
      let (found, known, h₃) =
        lift-eq_ok (authenticate lib args.issuance_secret issuance draws.now) _ w₁ h₂ in
      let (c, is_found, h₄) = required-some _ found _ w₁ w' issued h₃ in
      let (owner, owned, h₅) =
        lift-eq_ok (λ (x : Runtime Text). or_rejected (client lib.json c.client_id x.database)) _ w₁
          h₄ in
      let (active, h₆) = raise_when-passed _ _ _ w₁ w' issued h₅ in
      let (allowed, h₇) = raise_when-passed _ _ _ w₁ w' issued h₆ in
      let (ttl, lifetime, h₈) =
        lift-eq_ok (λ _. checked_ttl owner.proof_ttl_seconds args.ttl_seconds) _ w₁ h₇ in
      record {
        input = input;
        cleaned_state = w₁;
        credential = c;
        owner = owner;
        ttl = ttl;
        subject = subject;
        purpose = purpose;
        audience = audience;
        cleaned =
            subst (λ x. maybe_cleanup draws.now draws.lock_is_free x ≡ (ok tt, w₁)) same cleaned;
        known = known ∙ ap ok is_found;
        owned = or_rejected-some _ owner owned;
        active = ground arith;
        allowed = ground arith;
        lifetime = checked_ttl-Lifetime owner.proof_ttl_seconds ttl args.ttl_seconds lifetime;
        stored = issue_to-Stored lib c input ttl draws w₁ w' issued h₈;
      }
