-- ===== src/Service/Verified.antt =====
-- `verify_proof` of the service comes down to one decision of the store.
use onceproof.Base.{
  ℕ, String, ◌≡◌, refl, arith, ap, sym, ◌∙◌, subst, ◌⊎◌, inl, inr, Option, none, some,
}
use onceproof.Errors.{ok}
use onceproof.Model.{VerificationResult}
use onceproof.Store.Tx.{pure}
use onceproof.Store.Keeps.{>>=-eq_ok, lift-eq_ok}
use onceproof.Store.Rows.{verification, CredentialRecord}
use onceproof.Store.Consume.{Request, rejected_result, cached_verification, consume_proof}
use onceproof.Store.CachedRead.{cached_verification-consume_proof}
use onceproof.Service.Inputs.{
  checked_text, checked_purpose, checked_audience, checked_idempotency_key,
}
use onceproof.Service.Runtime.{Library, Runtime, on_database, authenticate, maybe_cleanup}
use onceproof.Service.Verify.{
  VerifyArguments, VerifyDraws, AcceptedRequest, token_digest_of, store_request, unless_cached,
  verify_request, verify_as, accepted_request, verify_proof,
}
use onceproof.Service.Frames.{on_database-eq_ok, cached_verification-frame}

-- The arguments passed their checks.
pub record Accepts (args : VerifyArguments) (input : AcceptedRequest) : Type 0 where
  pub proof : checked_text args.proof "proof" 512 ≡ ok input.proof
  pub subject : checked_text args.subject "subject" 256 ≡ ok input.subject
  pub purpose : checked_purpose args.purpose ≡ ok input.purpose
  pub audience : checked_audience args.audience ≡ ok input.audience
  pub idempotency_key : checked_idempotency_key args.idempotency_key ≡ ok input.idempotency_key

module _ {Text : Type 0} (lib : Library Text) (draws : VerifyDraws) (input : AcceptedRequest)
    (found : Option CredentialRecord) where
  -- How the call answers from the state after its cleanup: it refuses a secret that is no
  -- credential's, or it gives the answer of one `consume_proof`, at the time of one of its two
  -- transactions.
  pub data Answers (w w' : Runtime Text) (r : VerificationResult) : Type 0 where
    refused :
        found ≡ none
        → r ≡ rejected_result "credential_rejected" draws.rejection_id none none draws.now
        → w' ≡ w
        → Answers w w' r
    decided :
        (c : CredentialRecord) (digest : String) (time : ℕ)
        → found ≡ some c
        → token_digest_of lib w.ring.memory input.proof ≡ ok digest
        → (time ≡ draws.read_time) ⊎ (time ≡ draws.commit_time)
        → consume_proof lib.json (store_request lib c input digest) time draws.store w.database
          ≡ (ok r, w'.database)
        → Answers w w' r

module _ {Text : Type 0} where
  pub read_only :
      {A : Type 0} (a b : A) (w w' : Runtime Text) → pure a w ≡ (ok b, w') → (a ≡ b) × (w' ≡ w)
  unfolding pure
  read_only a b w w' h = (ground arith, ap (λ x. x.1) (sym h))

  pub accepted_request-Accepts :
      (args : VerifyArguments) (input : AcceptedRequest) (w w' : Runtime Text)
      → accepted_request args w ≡ (ok input, w')
      → (w' ≡ w) × Accepts args input
  unfolding accepted_request
  accepted_request-Accepts args input w w' h =
      let (proof, h₁, k₁) = lift-eq_ok (λ w. checked_text args.proof "proof" 512) _ w h in
      let (subject, h₂, k₂) = lift-eq_ok (λ w. checked_text args.subject "subject" 256) _ w k₁ in
      let (purpose, h₃, k₃) = lift-eq_ok (λ w. checked_purpose args.purpose) _ w k₂ in
      let (audience, h₄, k₄) = lift-eq_ok (λ w. checked_audience args.audience) _ w k₃ in
      let (key, h₅, k₅) = lift-eq_ok (λ w. checked_idempotency_key args.idempotency_key) _ w k₄ in
      let (same, state) = read_only _ input w w' k₅ in
      (
        state,
        subst (Accepts args) same (record {
          proof = h₁;
          subject = h₂;
          purpose = h₃;
          audience = h₄;
          idempotency_key = h₅;
        }),
      )

module _ {Text : Type 0} (lib : Library Text) where
  cached-decides :
      (q : Request) (draws : VerifyDraws) (w w₁ w' : Runtime Text) (r : VerificationResult)
      (cached : Option VerificationResult)
      → cached_verification lib.json q draws.read_time w.database ≡ (ok cached, w₁.database)
      → w₁.database ≡ w.database
      → unless_cached lib q draws cached w₁ ≡ (ok r, w')
      → (time : ℕ) × ((time ≡ draws.read_time) ⊎ (time ≡ draws.commit_time))
        × (consume_proof lib.json q time draws.store w.database ≡ (ok r, w'.database))
  cached-decides q draws w w₁ w' r none read same h =
      let (call, _, _) =
        on_database-eq_ok (consume_proof lib.json q draws.commit_time draws.store) w₁ w' r h in
      (draws.commit_time, inr refl, rw (sym same) call)
  cached-decides q draws w w₁ w' r (some c) read same h =
      let (answer, state) = read_only c r w₁ w' h in
      let call =
        cached_verification-consume_proof lib.json q draws.read_time w.database w₁.database c
          draws.store read in
      (
        draws.read_time,
        inl refl,
        call ∙ (λ i.
            (ok (answer i), (sym same ∙ ap (λ (x : Runtime Text). x.database) (sym state)) i)),
      )

  request-decides :
      (q : Request) (draws : VerifyDraws) (w w' : Runtime Text) (r : VerificationResult)
      → verify_request lib q draws w ≡ (ok r, w')
      → (time : ℕ) × ((time ≡ draws.read_time) ⊎ (time ≡ draws.commit_time))
        × (consume_proof lib.json q time draws.store w.database ≡ (ok r, w'.database))
  unfolding verify_request
  request-decides q draws w w' r h =
      let read_call = cached_verification lib.json q draws.read_time in
      let (cached, w₁, read, rest) = >>=-eq_ok (on_database read_call) _ w h in
      let (read', _, _) = on_database-eq_ok read_call w w₁ cached read in
      let same : w₁.database ≡ w.database =
        sym (λ i. (read' i).1) ∙ cached_verification-frame lib.json q draws.read_time w.database in
      cached-decides q draws w w₁ w' r cached read' same rest

  as-Answers :
      (found : Option CredentialRecord) (input : AcceptedRequest) (draws : VerifyDraws)
      (w w' : Runtime Text) (r : VerificationResult)
      → verify_as lib found input draws w ≡ (ok r, w')
      → Answers lib draws input found w w' r
  unfolding verify_as
  as-Answers none input draws w w' r h =
      let (answer, state) = read_only _ r w w' h in Answers.refused refl (sym answer) state
  as-Answers (some c) input draws w w' r h =
      let (digest, keyed, rest) =
        lift-eq_ok (λ (x : Runtime Text). token_digest_of lib x.ring.memory input.proof) _ w h in
      let (time, when, call) =
        request-decides (store_request lib c input digest) draws w w' r rest in
      Answers.decided c digest time refl keyed when call

  -- A call of `verify_proof` that returns has accepted arguments, and answers from the state that
  -- its cleanup leaves. Where the secret is no credential's, it answers `credential_rejected` and
  -- changes nothing more; otherwise it gives the answer of one `consume_proof` on the ledger, for
  -- the keyed digest of the proof, as if the read of an earlier decision were not there.
  pub verify_proof-consume_proof :
      (args : VerifyArguments) (draws : VerifyDraws) (w w' : Runtime Text) (r : VerificationResult)
      → verify_proof lib args draws w ≡ (ok r, w')
      → (input : AcceptedRequest) × (w₁ : Runtime Text) × (found : Option CredentialRecord)
        × Accepts args input
        × (maybe_cleanup draws.now draws.lock_is_free w ≡ (ok tt, w₁))
        × (authenticate lib args.verification_secret verification draws.now w₁ ≡ ok found)
        × Answers lib draws input found w₁ w' r
  unfolding verify_proof
  verify_proof-consume_proof args draws w w' r h =
      let (input, w₀, accepted, h₁) = >>=-eq_ok (accepted_request args) _ w h in
      let (same, good) = accepted_request-Accepts args input w w₀ accepted in
      let (_, w₁, cleaned, h₂) = >>=-eq_ok (maybe_cleanup draws.now draws.lock_is_free) _ w₀ h₁ in
      let (found, known, h₃) =
        lift-eq_ok (authenticate lib args.verification_secret verification draws.now) _ w₁ h₂ in
      (
        input,
        w₁,
        found,
        good,
        subst (λ x. maybe_cleanup draws.now draws.lock_is_free x ≡ (ok tt, w₁)) same cleaned,
        known,
        as-Answers found input draws w₁ w' r h₃,
      )
