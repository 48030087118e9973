-- ===== src/Http/Answers.antt =====
-- What the responses of the two commands say.
use onceproof.Base.{
  ℕ, String, ◌≡◌, ◌≢◌, refl, ap, subst, sym, ◌∙◌, arith, Bool, true, false, Option, none, some, [],
  eq_iff,
}
use onceproof.Errors.{Result, ok, err}
use onceproof.Model.{IssuedProof, VerificationResult}
use onceproof.Model.Json.{text, get}
use onceproof.Model.Codec.{to_dict}
use onceproof.Store.Tx.{Tx}
use onceproof.Service.Runtime.{Library, Runtime, credential_is_accepted}
use onceproof.Service.Issue.{IssueArguments, issue_proof}
use onceproof.Service.Verify.{VerifyArguments, verify_proof}
use onceproof.Http.Headers.{Outcome, done, failed, Scope, bearer_secret, idempotency_key}
use onceproof.Http.Body.{Wire, read_json}
use onceproof.Http.Arguments.{IsArgumentsOf, arguments-IsArgumentsOf}
use onceproof.Http.Handler.{
  Http, Exchange, Response, response, issued_to_dict, authenticated, issue, verify, unless_reason,
  required_true, item_of, key_value, verify_fields, issue_fields, issue_required, ttl_of, outcome,
  continue, pure, from, service, ◌>>=◌,
}

-- What a handler that returned went through.
module _ {Text A B : Type 0} where
  continue-eq_done :
      (o : Outcome A) (w : Runtime Text) (f : A → Http Text B) (b : B) (w' : Runtime Text)
      → continue (o, w) f ≡ (done b, w')
      → (a : A) × (o ≡ done a) × (f a w ≡ (done b, w'))
  continue-eq_done (done a) w f b w' h = (a, refl, h)
  continue-eq_done (failed e) w f b w' h = absurd (ground arith)

  >>=-eq_done :
      (m : Http Text A) (f : A → Http Text B) (w : Runtime Text) (b : B) (w' : Runtime Text)
      → (m >>= f) w ≡ (done b, w')
      → (a : A) × (w₁ : Runtime Text) × (m w ≡ (done a, w₁)) × (f a w₁ ≡ (done b, w'))
  unfolding ◌>>=◌
  >>=-eq_done m f w b w' h =
      let (o, w₁) = m w in
      let (a, e, rest) = continue-eq_done o w₁ f b w' h in (a, w₁, (λ i. (e i, w₁)), rest)

  from-eq_done :
      (o : Outcome A) (f : A → Http Text B) (w : Runtime Text) (b : B) (w' : Runtime Text)
      → (from o >>= f) w ≡ (done b, w')
      → (a : A) × (o ≡ done a) × (f a w ≡ (done b, w'))
  unfolding ◌>>=◌
  from-eq_done o f w b w' h = continue-eq_done o w f b w' h

module _ {Text A : Type 0} where
  outcome-ok :
      (r : Result A) (w : Runtime Text) (a : A) (w' : Runtime Text)
      → outcome (r, w) ≡ (done a, w')
      → (r ≡ ok a) × (w ≡ w')
  outcome-ok (ok x) w a w' h = (ground arith, ap (λ x. x.1) h)
  outcome-ok (err e) w a w' h = absurd (ground arith)

  service-eq_done :
      (m : Tx (Runtime Text) A) (w : Runtime Text) (a : A) (w' : Runtime Text)
      → service m w ≡ (done a, w')
      → m w ≡ (ok a, w')
  unfolding service
  service-eq_done m w a w' h =
      let (r, w₁) = m w in let (e, e') = outcome-ok r w₁ a w' h in λ i. (e i, e' i)

  pure-eq_done : (a b : A) (w w' : Runtime Text) → pure a w ≡ (done b, w') → (a ≡ b) × (w ≡ w')
  unfolding pure
  pure-eq_done a b w w' h = (ground arith, ap (λ x. x.1) h)

not_rejected :
    (reason : Option String) (r result : VerificationResult)
    → unless_reason reason r ≡ done result
    → (result ≡ r) × (reason ≢ some "credential_rejected")
not_rejected none r result h = (ground arith, λ e. absurd cc)
not_rejected (some reason) r result h =
    let same = eq_iff reason "credential_rejected" in
    (ground (arith, same), λ e. absurd (ground (arith, same)))

required-true : (b : Bool) (u : Unit {0}) → required_true b ≡ done u → b ≡ true
required-true true u h = refl
required-true false u h = absurd (ground arith)

module _ {Text : Type 0} where
  authenticated-same :
      (lib : Library Text) (role : String) (scope : Scope) (now : ℕ) (w w' : Runtime Text)
      (secret : String)
      → authenticated lib role scope now w ≡ (done secret, w')
      → (w' ≡ w)
        × (bearer_secret scope.headers ≡ done secret)
        × (credential_is_accepted lib (text secret) role now w ≡ ok true)
  unfolding authenticated
  authenticated-same lib role scope now w w' secret h =
      let (s, e, h₁) = from-eq_done (bearer_secret scope.headers) _ w secret w' h in
      let ask : Tx (Runtime Text) Bool = λ x. (credential_is_accepted lib (text s) role now x, x) in
      let (b, w₁, asked, h₂) = >>=-eq_done (service ask) _ w secret w' h₁ in
      let answer = service-eq_done ask w b w₁ asked in
      let (u, true_, h₃) = from-eq_done (required_true b) _ w₁ secret w' h₂ in
      let (same, state) = pure-eq_done s secret w₁ w' h₃ in
      (
        sym state ∙ sym (ap (λ x. x.1) answer),
        e ∙ ap done same,
        subst (λ t. credential_is_accepted lib (text t) role now w ≡ ok true) same
            (ap (λ x. x.0) answer ∙ ap ok (required-true b u true_)),
      )

module _ {Text : Type 0} (lib : Library Text) (wire : Wire) (limit : ℕ) (scope : Scope)
    (x : Exchange) (w w' : Runtime Text) (r : Response) where
  -- A response of `_verify` that is no error is a 200 with the result of one call of `verify_proof`
  -- with the secret of the header, which was accepted as a verification credential, with the items
  -- `proof`, `purpose`, `audience` and `subject` of the object in the body, and with the idempotency
  -- key of its header, or None where there is none; the result is not a rejection of the credential.
  pub verify-verify_proof :
      verify lib wire limit scope x w ≡ (done r, w')
      → (args : VerifyArguments) × (result : VerificationResult) × (secret : String)
        × (bearer_secret scope.headers ≡ done secret)
        × (credential_is_accepted lib (text secret) "verification" x.checked_at w ≡ ok true)
        × IsArgumentsOf wire limit scope x.messages secret args
        × (verify_proof lib args x.verify w ≡ (ok result, w'))
        × (result.reason ≢ some "credential_rejected")
        × (r ≡ response 200 (to_dict result) [])
  unfolding verify
  verify-verify_proof h =
      let (secret, w₁, known, h₁) =
        >>=-eq_done (authenticated lib "verification" scope x.checked_at) _ w r w' h in
      let (same, e, accepted) =
        authenticated-same lib "verification" scope x.checked_at w w₁ secret known in
      let (key, header, h₂) = from-eq_done (idempotency_key scope.headers) _ w₁ r w' h₁ in
      let (payload, body, h₃) =
        from-eq_done (read_json wire limit verify_fields verify_fields scope.headers x.messages) _
          w₁ r w' h₂ in
      let args : VerifyArguments = record {
        verification_secret = text secret;
        proof = item_of "proof" payload;
        purpose = item_of "purpose" payload;
        audience = item_of "audience" payload;
        subject = item_of "subject" payload;
        idempotency_key = key_value key;
      } in
      let (result, w₂, called, h₄) =
        >>=-eq_done (service (verify_proof lib args x.verify)) _ w₁ r w' h₃ in
      let called' = service-eq_done (verify_proof lib args x.verify) w₁ result w₂ called in
      let (kept, fine, h₅) = from-eq_done (unless_reason result.reason result) _ w₂ r w' h₄ in
      let (same_result, reason) = not_rejected result.reason result kept fine in
      let (answer, state) = pure-eq_done _ r w₂ w' h₅ in
      (
        args,
        result,
        secret,
        e,
        accepted,
        arguments-IsArgumentsOf wire limit scope x.messages secret payload key body header,
        subst (λ v. verify_proof lib args x.verify v ≡ (ok result, w')) same
            (called' ∙ ap (λ v. (ok result, v)) state),
        reason,
        sym answer ∙ ap (λ v. response 200 (to_dict v) []) same_result,
      )

  -- A response of `_issue` that is no error is a 201 with the proof and the receipt of one call of
  -- `issue_proof` with the secret of the header, which was accepted as an issuance credential.
  pub issue-issue_proof :
      issue lib wire limit scope x w ≡ (done r, w')
      → (args : IssueArguments) × (issued : IssuedProof) × (secret : String) × (bearer_secret
            scope.headers
          ≡ done secret)
        × (credential_is_accepted lib (text secret) "issuance" x.checked_at w ≡ ok true)
        × (args.issuance_secret ≡ text secret)
        × (issue_proof lib args x.issue w ≡ (ok issued, w'))
        × (r ≡ response 201 (issued_to_dict issued) [])
  unfolding issue
  issue-issue_proof h =
      let (secret, w₁, known, h₁) =
        >>=-eq_done (authenticated lib "issuance" scope x.checked_at) _ w r w' h in
      let (same, e, accepted) =
        authenticated-same lib "issuance" scope x.checked_at w w₁ secret known in
      let (payload, _, h₂) =
        from-eq_done (read_json wire limit issue_fields issue_required scope.headers x.messages) _
          w₁ r w' h₁ in
      let (ttl, _, h₃) = from-eq_done (ttl_of wire (get "ttl_seconds" payload)) _ w₁ r w' h₂ in
      let args : IssueArguments = record {
        issuance_secret = text secret;
        subject = item_of "subject" payload;
        purpose = item_of "purpose" payload;
        audience = item_of "audience" payload;
        ttl_seconds = ttl;
      } in
      let (issued, w₂, called, h₄) =
        >>=-eq_done (service (issue_proof lib args x.issue)) _ w₁ r w' h₃ in
      let called' = service-eq_done (issue_proof lib args x.issue) w₁ issued w₂ called in
      let (answer, state) = pure-eq_done _ r w₂ w' h₄ in
      (
        args,
        issued,
        secret,
        e,
        accepted,
        refl,
        subst (λ v. issue_proof lib args x.issue v ≡ (ok issued, w')) same
            (called' ∙ ap (λ v. (ok issued, v)) state),
        sym answer,
      )
