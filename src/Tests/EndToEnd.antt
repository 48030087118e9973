-- ===== src/Tests/EndToEnd.antt =====
-- A proof is issued and verified.
use onceproof.Base.{inr, ◌≡◌, refl, none, List, [], ◌∷◌, arith}
use onceproof.Errors.{ok}
use onceproof.Model.Json.{plain_codec}
use onceproof.Store.Rows.{ProofRecord}
use onceproof.Store.Clients.{NewClient}
use onceproof.Store.Calls.{Call}
use onceproof.Store.Consistency.{IsConsistent, run-IsConsistent}
use onceproof.Service.Verify.{verify_proof}
use onceproof.Service.Issuing.{Issues}
use onceproof.Service.EndToEnd.{Repeats, IsPlain, issue_proof-verify_proof}
use onceproof.Tests.Ledger.{empty, empty-IsConsistent}
use onceproof.Tests.Shop.{lib, serve, registered, issue_arguments, issue_draws, issued, new_one}
use onceproof.Tests.Calls.{zeros, issuer, checker, verify_arguments, verify_draws, row, answer}

abbrev shop : NewClient
shop = record {
  client_id = "opc_1";
  name = "shop";
  allowed_audiences = "urn:shop" ∷ [];
  proof_ttl_seconds = 120;
  issue_limit_per_minute = 2;
  verify_limit_per_minute = 2;
  issuance_credential = issuer;
  verification_credential = checker;
  hash_key_check = "sd";
}

abbrev pub record_of : ProofRecord
record_of = record {
  token_digest = "sd";
  proof_tag = "pf_sd";
  hash_kid = "hk_1";
  client_id = "opc_1";
  issue_credential_id = "ic_1";
  subject = "user";
  purpose = "login";
  audience = "urn:shop";
  issued_at = 1000;
  expires_at = 1100;
  consumed_at = none;
}

-- What the two calls of the service came to.
abbrev calls : List Call
calls = Call.create_client shop 900 "ae_1" ∷ Call.issue_proof record_of "sd" 1010 "ae_2" ∷ []

pub issued-IsConsistent : IsConsistent issued.database
unfolding serve
issued-IsConsistent = run-IsConsistent plain_codec calls empty empty-IsConsistent

abbrev done : Issues lib issue_arguments issue_draws registered issued new_one
unfolding serve
done = record {
  input = record { subject = "user"; purpose = "login"; audience = "urn:shop" };
  cleaned_state = registered;
  credential = issuer;
  owner = record {
    client_id = "opc_1";
    name = "shop";
    status = _;
    allowed_audiences = "urn:shop" ∷ [];
    proof_ttl_seconds = 120;
    issue_limit_per_minute = 2;
    verify_limit_per_minute = 2;
  };
  ttl = 100;
  subject = refl;
  purpose = refl;
  audience = refl;
  cleaned = refl;
  known = refl;
  owned = refl;
  active = refl;
  allowed = refl;
  lifetime = record { source = inr refl; positive = omega arith; short = omega arith };
  stored = record {
    key = zeros;
    digest = "sd";
    row = row;
    current = refl;
    text = refl;
    keyed = refl;
    ring = refl;
    added = refl;
    is_row = refl;
  };
}

repeats : Repeats issue_arguments new_one verify_arguments
unfolding serve
repeats = record { proof = refl; subject = refl; purpose = refl; audience = refl; keyless = refl }

plain : IsPlain lib issue_arguments issue_draws registered issued new_one
unfolding serve
plain = record { kid_plain = refl; kid_named = refl; token_plain = refl; token_full = refl }

issue_proof-verify_proof_example :
    (verify_proof lib verify_arguments verify_draws issued).0 ≡ ok answer
unfolding serve
issue_proof-verify_proof_example =
    issue_proof-verify_proof lib issue_arguments issue_draws registered issued new_one
      verify_arguments verify_draws checker _ done repeats plain refl refl refl (omega arith)
      issued-IsConsistent refl refl (omega arith) refl refl
