-- ===== src/Tests/Shop.antt =====
-- The service, with one client that was registered through it, and one proof.
use onceproof.Base.{◌≡◌, refl, Bool, true, none, [], ◌∷◌}
use onceproof.Base.Int.{pos}
use onceproof.Errors.{ok}
use onceproof.Model.{IssuedProof}
use onceproof.Model.Json.{Value, text, int, plain_codec, sort_keys}
use onceproof.Keyring.Payload.{Payload, serialized_payload}
use onceproof.Keyring.Ring.{key_for, current_key}
use onceproof.Crypto.{Hashing, hkdf_sha256, credential_digest, proof_digest, key_check}
use onceproof.Service.Secrets.{
  split_dots, new_secret, new_proof, credential_id_from_secret, proof_kid, new_credential,
}
use onceproof.Service.Inputs.{
  all_chars, checked_text, is_word, checked_purpose, is_authority, after_prefix, is_audience,
  checked_audience, checked_idempotency_key, request_fingerprint,
}
use onceproof.Service.Runtime.{
  Library, Runtime, on_database, on_ring, authenticate, credential_is_accepted, maybe_cleanup,
}
use onceproof.Service.Issue.{
  IssueArguments, IssueDraws, take_chars, issue_to, issue_for, accepted_input, issue_proof,
}
use onceproof.Service.Verify.{
  token_digest_of, verify_request, verify_as, accepted_request, verify_proof,
}
use onceproof.Service.Clients.{
  ClientArguments, ClientDraws, distinct_audiences, client_input, register, create_client,
}
use onceproof.Store.Clients.{credential, client, client_from_row, audiences_of}
use onceproof.Store.Consume.{cached_verification}
use onceproof.Tests.Documents.{one_key, two_keys, open_ring}
use onceproof.Tests.Ledger.{play, empty}

-- A digest that is the same text for all messages.
abbrev pub hashing : Hashing
hashing = record {
  digest = λ k m. [];
  hexdigest = λ k m. "sd";
  sha256 = λ m. "sha";
  encode = λ s. [];
}

abbrev pub lib : Library Value
lib = record { json = plain_codec; base64 = one_key; hashing = hashing; canonical = λ v. [] }

abbrev pub held : Payload
held = record two_keys { current_kid = "hk_1" }

abbrev pub start : Runtime Value
start = record {
  database = empty;
  ring = record { file = sort_keys (serialized_payload one_key held); memory = held };
  next_cleanup_at = 2000;
}

-- The operations of the service, open.
unfoldable pub serve : Value → Bool
unfolding play open_ring hkdf_sha256 credential_digest proof_digest key_check key_for current_key
    split_dots new_secret new_proof credential_id_from_secret proof_kid new_credential all_chars
    checked_text is_word checked_purpose is_authority after_prefix is_audience checked_audience
    checked_idempotency_key request_fingerprint on_database on_ring authenticate
    credential_is_accepted maybe_cleanup take_chars issue_to issue_for accepted_input issue_proof
    token_digest_of verify_request verify_as accepted_request verify_proof distinct_audiences
    client_input register create_client credential client client_from_row audiences_of
    cached_verification
serve v = true

abbrev pub shop_arguments : ClientArguments
shop_arguments = record {
  name = text "shop";
  allowed_audiences = text "urn:shop" ∷ [];
  proof_ttl_seconds = int (pos 120);
  issue_limit_per_minute = int (pos 2);
  verify_limit_per_minute = int (pos 2);
}

abbrev pub shop_draws : ClientDraws
shop_draws = record {
  client_hex = "1";
  issuance = record { hex = "1"; token = "aa" };
  verification = record { hex = "1"; token = "bb" };
  now = 900;
  event_id = "ae_1";
}

abbrev pub registered : Runtime Value
registered = (create_client lib shop_arguments none shop_draws start).1

abbrev pub issue_arguments : IssueArguments
issue_arguments = record {
  issuance_secret = text "opi1.ic_1.aa";
  subject = text "user";
  purpose = text "login";
  audience = text "urn:shop";
  ttl_seconds = int (pos 100);
}

abbrev pub issue_draws : IssueDraws
issue_draws = record {
  now = 1000;
  commit_time = 1010;
  lock_is_free = true;
  token = "cc";
  event_id = "ae_2";
}

abbrev pub issued : Runtime Value
issued = (issue_proof lib issue_arguments issue_draws registered).1

abbrev pub new_one : IssuedProof
new_one = record {
  proof = "op1.hk_1.cc";
  receipt = record {
    state = "issued";
    proof_tag = "pf_sd";
    client_id = "opc_1";
    subject = "user";
    purpose = "login";
    audience = "urn:shop";
    issued_at = 1010;
    expires_at = 1110;
  };
}

pub issues : issue_proof lib issue_arguments issue_draws registered ≡ (ok new_one, issued)
unfolding serve
issues = refl
