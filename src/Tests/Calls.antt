-- ===== src/Tests/Calls.antt =====
-- The theorems on the service, on its registered client.
use onceproof.Base.{◌≢◌, ◌≡◌, ◌↔◌, ◌⊎◌, refl, ℕ, true, none, some, List, [], ◌∷◌, if◌then◌else◌}
use Prim.Native.String.{◌++◌}
use onceproof.Errors.{ok}
use onceproof.Model.{VerificationResult}
use onceproof.Model.Json.{Value, text, null}
use onceproof.Store.Rows.{issuance, verification, same_role, current, CredentialRecord, ProofRow}
use onceproof.Store.Consume.{accepted_result}
use onceproof.Crypto.Domains.{info_block, derived_key, credential_digest-proof_digest}
use onceproof.Service.Secrets.{new_secret, id_prefix, credential_id_from_secret}
use onceproof.Service.SecretNames.{credential_id_from_secret-new_secret}
use onceproof.Service.Runtime.{authenticate, maybe_cleanup, Runtime}
use onceproof.Service.Authentication.{Authenticates, authenticate-Authenticates}
use onceproof.Service.Verify.{VerifyArguments, VerifyDraws, AcceptedRequest, verify_proof}
use onceproof.Service.Verified.{Accepts, Answers, verify_proof-consume_proof}
use onceproof.Service.Issuing.{Issues, issue_proof-Issues}
use onceproof.Service.Clients.{ClientCredentials}
use onceproof.Service.Registered.{create_client-authenticate}
use onceproof.Tests.Ledger.{draws}
use onceproof.Tests.Shop.{
  lib, hashing, serve, start, shop_arguments, shop_draws, registered, issue_arguments, issue_draws,
  issued, new_one, issues,
}

abbrev pub zeros : List ℕ
zeros =
    0 ∷ 0 ∷ 0 ∷ 0 ∷ 0 ∷ 0 ∷ 0 ∷ 0 ∷ 0 ∷ 0 ∷ 0 ∷ 0 ∷ 0 ∷ 0 ∷ 0 ∷ 0 ∷ 0 ∷ 0 ∷ 0 ∷ 0 ∷ 0 ∷ 0 ∷ 0 ∷ 0
    ∷ 0 ∷ 0 ∷ 0 ∷ 0 ∷ 0 ∷ 0 ∷ 0 ∷ 0 ∷ []

credential_digest-proof_digest_example :
    ((info_block "credential-digest" ≢ info_block "proof-digest")
      × (derived_key hashing zeros "credential-digest" ≡ derived_key hashing zeros "proof-digest"))
    ⊎ ((derived_key hashing zeros "credential-digest" ≢ derived_key hashing zeros "proof-digest")
        × (hashing.hexdigest
              (derived_key hashing zeros "credential-digest")
              (hashing.encode "opi1.ic_1.aa")
            ≡ hashing.hexdigest
                (derived_key hashing zeros "proof-digest")
                (hashing.encode "op1.hk_1.cc")))
unfolding serve
credential_digest-proof_digest_example =
    credential_digest-proof_digest hashing zeros "opi1.ic_1.aa" "op1.hk_1.cc" "sd" refl refl

credential_id_from_secret-new_secret_example :
    credential_id_from_secret (new_secret issuance (id_prefix issuance ++ "1") "aa") verification
    ≡ (if same_role issuance verification then some (id_prefix issuance ++ "1") else none)
unfolding serve
credential_id_from_secret-new_secret_example =
    credential_id_from_secret-new_secret issuance verification "1" "aa" refl refl refl

abbrev pub issuer : CredentialRecord
issuer = record {
  credential_id = "ic_1";
  client_id = "opc_1";
  role = issuance;
  hash_kid = "hk_1";
  secret_digest = "sd";
  status = current;
  valid_until = none;
}

abbrev pub checker : CredentialRecord
checker = record issuer { credential_id = "vc_1"; role = verification }

authenticate-Authenticates_example :
    (authenticate lib (text "opi1.ic_1.aa") issuance 1000 registered ≡ ok (some issuer))
    ↔ Authenticates lib "opi1.ic_1.aa" issuance 1000 registered issuer
authenticate-Authenticates_example =
    authenticate-Authenticates lib "opi1.ic_1.aa" issuance 1000 registered issuer

is_issuer : Authenticates lib "opi1.ic_1.aa" issuance 1000 registered issuer
unfolding serve
is_issuer = authenticate-Authenticates_example.0 refl

issue_proof-Issues_example : Issues lib issue_arguments issue_draws registered issued new_one
issue_proof-Issues_example =
    issue_proof-Issues lib issue_arguments issue_draws registered issued new_one issues

abbrev pub verify_arguments : VerifyArguments
verify_arguments = record {
  verification_secret = text "opv1.vc_1.bb";
  proof = text "op1.hk_1.cc";
  purpose = text "login";
  audience = text "urn:shop";
  subject = text "user";
  idempotency_key = null;
}

abbrev pub verify_draws : VerifyDraws
verify_draws = record {
  now = 1020;
  read_time = 1020;
  commit_time = 1020;
  lock_is_free = true;
  rejection_id = "vr_0";
  store = draws "vr_1" "ae_3";
}

abbrev pub verified : Runtime Value
verified = (verify_proof lib verify_arguments verify_draws issued).1

abbrev pub row : ProofRow
row = record {
  token_digest = "sd";
  proof_tag = "pf_sd";
  hash_kid = "hk_1";
  client_id = "opc_1";
  issue_credential_id = "ic_1";
  subject = "user";
  purpose = "login";
  audience = "urn:shop";
  issued_at = 1010;
  expires_at = 1110;
  consumed_at = none;
  consume_verification_id = none;
}

abbrev pub answer : VerificationResult
answer = accepted_result row "vr_1" 1020

verify_proof-consume_proof_example :
    (input : AcceptedRequest) × (w₁ : Runtime Value) × (found : _) × Accepts verify_arguments input
    × (maybe_cleanup 1020 true issued ≡ (ok tt, w₁))
    × (authenticate lib (text "opv1.vc_1.bb") verification 1020 w₁ ≡ ok found)
    × Answers lib verify_draws input found w₁ verified answer
unfolding serve
verify_proof-consume_proof_example =
    verify_proof-consume_proof lib verify_arguments verify_draws issued verified answer refl

abbrev shop_credentials : ClientCredentials
shop_credentials = record {
  client_id = "opc_1";
  issuance_credential_id = "ic_1";
  issuance_secret = "opi1.ic_1.aa";
  verification_credential_id = "vc_1";
  verification_secret = "opv1.vc_1.bb";
}

create_client-authenticate_example :
    ((r : CredentialRecord) × (authenticate lib (text "opi1.ic_1.aa") issuance 5000 registered
        ≡ ok (some r))
      × (r.client_id ≡ "opc_1")
      × (r.credential_id ≡ "ic_1"))
    × ((r : CredentialRecord) × (authenticate lib (text "opv1.vc_1.bb") verification 5000 registered
          ≡ ok (some r))
        × (r.client_id ≡ "opc_1")
        × (r.credential_id ≡ "vc_1"))
unfolding serve
create_client-authenticate_example =
    create_client-authenticate lib shop_arguments none shop_draws start registered shop_credentials
      5000 (record { hex = refl; token = refl; full = refl })
      (record { hex = refl; token = refl; full = refl }) refl
