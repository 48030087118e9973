-- ===== src/Tests/Decisions.antt =====
-- Decisions on the opened ledger.
use onceproof.Base.{◌≡◌, ◌∙◌, refl, some, List, [], inl, ◌∷◌, arith}
use onceproof.Errors.{ok, err, value_error}
use onceproof.Model.Json.{plain_codec, plain_codec-RoundTrips}
use onceproof.Model.RoundTrip.{IsPersistable}
use onceproof.Store.Calls.{Call, run}
use onceproof.Store.Consume.{
  Request, accepted_result, consume_proof, cached_verification, verification_row,
}
use onceproof.Store.Maintenance.{default_retention}
use onceproof.Store.Outcome.{Redeems, cached}
use onceproof.Store.Decisions.{Accepted, consume_proof-Accepted, proofs-consume_proof_rejected}
use onceproof.Store.Acceptance.{consume_proof-accepts}
use onceproof.Store.CachedRead.{cached_verification_hit, cached_verification-consume_proof}
use onceproof.Store.Idempotency.{Remembers, remembered, dumps-loads}
use onceproof.Model.Json.{Value}
use onceproof.Store.Rows.{VerificationRow}
use onceproof.Store.Retry.{retry-consume_proof, conflict-consume_proof}
use onceproof.Tests.Ledger.{
  play, keyed, draws, first_draws, opened, opened-IsConsistent, stored, answer, verified_once,
  first_answer, no_answer_yet, verifier_is_accepted,
}

consume_proof-Accepted_example :
    Accepted plain_codec keyed 1020 first_draws opened verified_once answer
unfolding play
consume_proof-Accepted_example =
    consume_proof-Accepted plain_codec keyed 1020 first_draws opened verified_once answer
      first_answer no_answer_yet refl

-- The proof is asked for another purpose.
abbrev elsewhere : Request
elsewhere = record keyed { purpose = "payment" }

proofs-consume_proof_rejected_example :
    (consume_proof plain_codec elsewhere 1020 first_draws opened).1.proofs ≡ opened.proofs
unfolding play
proofs-consume_proof_rejected_example =
    proofs-consume_proof_rejected plain_codec elsewhere 1020 first_draws opened opened-IsConsistent
      refl

stored-Redeems : Redeems keyed 1020 stored
stored-Redeems = record {
  fresh = refl;
  in_time = omega arith;
  purpose = refl;
  audience = refl;
  subject = refl;
}

consume_proof-accepts_example :
    (consume_proof plain_codec keyed 1020 first_draws opened).0
    ≡ ok (accepted_result stored "vr_1" 1020)
unfolding play
consume_proof-accepts_example =
    consume_proof-accepts plain_codec keyed 1020 first_draws opened _ stored opened-IsConsistent
      refl refl refl refl stored-Redeems (omega arith) refl refl

-- A cleanup between the two calls.
abbrev between_calls : List Call
between_calls = Call.cleanup 1050 default_retention ∷ []

pub answer-IsPersistable : IsPersistable answer
unfolding play
answer-IsPersistable = inl (
  record {
    client_id = "opc_1";
    subject = "user";
    purpose = "login";
    audience = "urn:shop";
    issued_at = 1010;
    expires_at = 1110;
  },
  record {
    verified = refl;
    claims = refl;
    no_reason = refl;
    state = refl;
    tagged = refl;
    client = refl;
    no_witness_reason = refl;
    valid_claims = record {
      client = refl;
      subject = refl;
      purpose = refl;
      audience = refl;
      lifetime = omega arith;
    };
    valid_witness = record {
      state = refl;
      verification = refl;
      tag = refl;
      client = refl;
      reason = tt;
    };
  },
)

retry-consume_proof_example :
    consume_proof plain_codec keyed 1060
      (draws "vr_2" "ae_4")
      (run plain_codec between_calls verified_once)
    ≡ (ok answer, run plain_codec between_calls verified_once)
unfolding play
retry-consume_proof_example =
    retry-consume_proof plain_codec keyed 1020 first_draws "k1" answer opened verified_once
      plain_codec-RoundTrips answer-IsPersistable refl verifier_is_accepted no_answer_yet
      first_answer between_calls ((tt, omega arith), tt) keyed 1060 (draws "vr_2" "ae_4") refl refl
      refl refl refl

conflict-consume_proof_example :
    consume_proof plain_codec
      (record keyed { request_fingerprint = "f2" })
      1060
      (draws "vr_2" "ae_4")
      (run plain_codec between_calls verified_once)
    ≡ (err (value_error "idempotency_conflict"), run plain_codec between_calls verified_once)
unfolding play
conflict-consume_proof_example =
    conflict-consume_proof plain_codec keyed 1020 first_draws "k1" answer opened verified_once refl
      verifier_is_accepted no_answer_yet first_answer between_calls ((tt, omega arith), tt)
      (record keyed { request_fingerprint = "f2" }) 1060 (draws "vr_2" "ae_4") refl refl refl refl
      refl

abbrev row : VerificationRow Value
row = verification_row plain_codec keyed answer 1020

row-Remembers : Remembers row "opc_1" "k1" verified_once
unfolding play
row-Remembers = refl

recorded_answer : cached plain_codec keyed verified_once ≡ ok (some answer)
recorded_answer =
    remembered plain_codec row keyed "k1" verified_once refl row-Remembers
    ∙ rw (dumps-loads plain_codec answer plain_codec-RoundTrips answer-IsPersistable) refl

read_answer :
    cached_verification plain_codec keyed 1060 verified_once ≡ (ok (some answer), verified_once)
unfolding play
read_answer =
    cached_verification_hit plain_codec keyed 1060 verified_once verified_once answer "k1" _ refl
      refl refl recorded_answer

cached_verification-consume_proof_example :
    consume_proof plain_codec keyed 1060 (draws "vr_2" "ae_4") verified_once
    ≡ (ok answer, verified_once)
cached_verification-consume_proof_example =
    cached_verification-consume_proof plain_codec keyed 1060 verified_once verified_once answer
      (draws "vr_2" "ae_4") read_answer
