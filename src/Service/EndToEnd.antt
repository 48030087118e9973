-- ===== src/Service/EndToEnd.antt =====
-- A proof that the service issued is verified by the service.
use onceproof.Base.{
  ℕ, ◌<◌, ◌+◌, String, ◌≡◌, refl, ap, sym, ◌∙◌, arith, true, false, none, some, ◌==◌, starts_with,
  ltb, eq_self, any, count, find,
}
use onceproof.Errors.{ok}
use onceproof.Model.{IssuedProof}
use onceproof.Model.Json.{Value}
use onceproof.Store.Tx.{◌>>=◌, lift, pure}
use onceproof.Store.Rows.{verification, verify, CredentialRecord, AuditRow}
use onceproof.Store.Tables.{same_verification}
use onceproof.Store.Shared.{is_restore_required, Joined}
use onceproof.Store.Rate.{in_window}
use onceproof.Store.Consume.{
  Request, accepted_result, verification_row, cached_verification, consume_proof, idempotent_result,
}
use onceproof.Store.Answer.{affirmation}
use onceproof.Store.Consistency.{IsConsistent}
use onceproof.Store.Outcome.{verifier, named_proof, Redeems}
use onceproof.Store.Acceptance.{consume_proof-accepts}
use onceproof.Service.Inputs.{all_chars, checked_text, checked_idempotency_key}
use onceproof.Keyring.Ring.{World, current_key}
use onceproof.Crypto.{proof_digest}
use onceproof.Service.Secrets.{new_proof}
use onceproof.Service.SecretNames.{not_dot}
use onceproof.Service.Redeemable.{token_digest_of-new_proof}
use onceproof.Service.Runtime.{Library, Runtime, on_database, authenticate, maybe_cleanup}
use onceproof.Service.Issue.{IssueArguments, IssueDraws}
use onceproof.Service.Verify.{
  VerifyArguments, VerifyDraws, AcceptedRequest, token_digest_of, store_request, verify_request,
  verify_as, accepted_request, verify_proof,
}
use onceproof.Service.Verified.{Accepts}
use onceproof.Service.Issuing.{Issues}

module _ {Text : Type 0} where
  accepted_request-ok :
      (args : VerifyArguments) (input : AcceptedRequest) (w : Runtime Text)
      → Accepts args input
      → accepted_request args w ≡ (ok input, w)
  unfolding accepted_request lift pure ◌>>=◌
  accepted_request-ok args input w a =
      rw a.proof (rw a.subject (rw a.purpose (rw a.audience (rw a.idempotency_key refl))))

  -- A cleanup that is not due does nothing.
  pub maybe_cleanup-early :
      (now : ℕ) (free : _) (w : Runtime Text)
      → ltb now w.next_cleanup_at ≡ true
      → maybe_cleanup now free w ≡ (ok tt, w)
  unfolding maybe_cleanup pure
  maybe_cleanup-early now free w early = rw early refl

module _ {Text : Type 0} (lib : Library Text) where
  -- Without an idempotency key, the call is one `consume_proof`.
  verify_request-keyless :
      (q : Request) (v : VerifyDraws) (w : Runtime Text)
      → q.idempotency_key ≡ none
      → verify_request lib q v w ≡ on_database (consume_proof lib.json q v.commit_time v.store) w
  unfolding verify_request cached_verification on_database pure ◌>>=◌
  verify_request-keyless q v w keyless = rw keyless refl

  verify_proof-keyless :
      (args : VerifyArguments) (v : VerifyDraws) (input : AcceptedRequest) (w : Runtime Text)
      (c : CredentialRecord) (digest : String)
      → Accepts args input
      → input.idempotency_key ≡ none
      → ltb v.now w.next_cleanup_at ≡ true
      → authenticate lib args.verification_secret verification v.now w ≡ ok (some c)
      → token_digest_of lib w.ring.memory input.proof ≡ ok digest
      → verify_proof lib args v w
        ≡ on_database
            (consume_proof lib.json (store_request lib c input digest) v.commit_time v.store)
            w
  unfolding verify_proof verify_as lift ◌>>=◌
  verify_proof-keyless args v input w c digest a keyless early known keyed =
      rw (accepted_request-ok args input w a) (
        rw (maybe_cleanup-early v.now v.lock_is_free w early) (
          rw known
            (rw keyed (verify_request-keyless (store_request lib c input digest) v w keyless))))

-- The request repeats what the proof was issued for, without an idempotency key.
pub record Repeats (args : IssueArguments) (issued : IssuedProof) (v : VerifyArguments)
    : Type 0 where
  pub proof : checked_text v.proof "proof" 512 ≡ ok issued.proof
  pub subject : v.subject ≡ args.subject
  pub purpose : v.purpose ≡ args.purpose
  pub audience : v.audience ≡ args.audience
  pub keyless : v.idempotency_key ≡ Value.null

module _ {Text : Type 0} (lib : Library Text) (args : IssueArguments) (draws : IssueDraws)
    (w w' : Runtime Text) (issued : IssuedProof) where
  abbrev pub repeated_request : Issues lib args draws w w' issued → AcceptedRequest
  repeated_request done = record {
    proof = issued.proof;
    subject = done.input.subject;
    purpose = done.input.purpose;
    audience = done.input.audience;
    idempotency_key = none;
  }

  repeated_request-Accepts :
      (done : Issues lib args draws w w' issued) (v : VerifyArguments)
      → Repeats args issued v
      → Accepts v (repeated_request done)
  unfolding checked_idempotency_key
  repeated_request-Accepts done v same = record {
    proof = same.proof;
    subject = rw same.subject done.subject;
    purpose = rw same.purpose done.purpose;
    audience = rw same.audience done.audience;
    idempotency_key = rw same.keyless refl;
  }

  names_row :
      (done : Issues lib args draws w w' issued) (c : CredentialRecord)
      → c.client_id ≡ done.credential.client_id
      → named_proof (store_request lib c (repeated_request done) done.stored.digest) w'.database
        ≡ some done.stored.row
  unfolding find
  names_row done c same =
      let s = done.stored in
      rw s.added (
        rw s.is_row (rw same (ground (arith, eq_self s.digest, eq_self done.credential.client_id))))

  redeems_row :
      (done : Issues lib args draws w w' issued) (c : CredentialRecord) (time : ℕ)
      → time < draws.commit_time + done.ttl
      → Redeems
          (store_request lib c (repeated_request done) done.stored.digest)
          time
          done.stored.row
  redeems_row done c time in_time =
      let s = done.stored in
      rw s.is_row (record {
        fresh = refl;
        in_time = omega arith;
        purpose = refl;
        audience = refl;
        subject = refl;
      })

  -- The texts that were drawn hold no dot, and the key in use is named as a key is.
  pub record IsPlain : Type 0 where
    pub kid_plain : all_chars not_dot w'.ring.memory.current_kid ≡ true
    pub kid_named : starts_with w'.ring.memory.current_kid "hk_" ≡ true
    pub token_plain : all_chars not_dot draws.token ≡ true
    pub token_full : (draws.token == "") ≡ false

  finds_digest :
      (done : Issues lib args draws w w' issued)
      → IsPlain
      → token_digest_of lib w'.ring.memory issued.proof ≡ ok done.stored.digest
  finds_digest done plain =
      let s = done.stored in
      let same = ap (λ (x : World Text). x.memory.current_kid) s.ring in
      let text : issued.proof ≡ new_proof w'.ring.memory.current_kid draws.token =
        s.text ∙ ap (λ k. new_proof k draws.token) (sym same) in
      rw text (
        token_digest_of-new_proof lib w'.ring.memory draws.token s.digest s.key plain.kid_plain
          plain.kid_named plain.token_plain plain.token_full
          (ap (λ (x : World Text). current_key x.memory) s.ring ∙ s.current)
          (ap (λ t. proof_digest lib.hashing s.key t) (sym text) ∙ s.keyed))

  -- A proof that `issue_proof` returned is verified: `verify_proof` on the state that the call left,
  -- with the proof and the same subject, purpose and audience and no idempotency key, is answered
  -- `verified: true` for the row that was added, if the secret is that of a verification credential
  -- of the same client that the ledger accepts at the time of the transaction, the proof has not
  -- expired by then, no cleanup is due, the ledger is consistent and unsealed, the rate window is
  -- not full, the identifiers drawn are new and the texts drawn hold no dot.
  pub issue_proof-verify_proof :
      (v : VerifyArguments) (t : VerifyDraws) (c : CredentialRecord) (j : Joined Text)
      (done : Issues lib args draws w w' issued)
      → Repeats args issued v
      → IsPlain
      → ltb t.now w'.next_cleanup_at ≡ true
      → authenticate lib v.verification_secret verification t.now w' ≡ ok (some c)
      → c.client_id ≡ done.credential.client_id
      → t.commit_time < draws.commit_time + done.ttl
      → IsConsistent w'.database
      → is_restore_required w'.database ≡ false
      → verifier
          (store_request lib c (repeated_request done) done.stored.digest)
          t.commit_time
          w'.database
        ≡ some j
      → count (in_window c.client_id verify t.commit_time) w'.database.rate_events
        < j.client.verify_limit_per_minute
      → any
          (same_verification (
            verification_row lib.json
              (store_request lib c (repeated_request done) done.stored.digest)
              (accepted_result done.stored.row t.store.verification_id t.commit_time)
              t.commit_time))
          w'.database.verifications
        ≡ false
      → any (λ (a : AuditRow). t.store.event_id == a.event_id) w'.database.audit_events ≡ false
      → (verify_proof lib v t w').0
        ≡ ok (affirmation done.stored.row t.store.verification_id t.commit_time)
  unfolding on_database idempotent_result
  issue_proof-verify_proof v t c j done same plain early known owner in_time good open_ accepted
        room unused unused' =
      let q = store_request lib c (repeated_request done) done.stored.digest in
      rw
        (verify_proof-keyless lib v t (repeated_request done) w' c done.stored.digest
          (repeated_request-Accepts done v same) refl early known (finds_digest done plain))
        (consume_proof-accepts lib.json q t.commit_time t.store w'.database j done.stored.row good
          open_ accepted refl (names_row done c owner) (redeems_row done c t.commit_time in_time)
          room unused unused')
