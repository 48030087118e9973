-- ===== src/Store/Idempotency.antt =====
-- A request that is repeated under its idempotency key.
use onceproof.Base.{
  ℕ, ◌+◌, ◌≤◌, String, ◌≡◌, refl, true, false, not, Option, none, some, List, [], ◌∷◌, ◌==◌, arith,
  eq_iff, eq_self, if◌then◌else◌, any, find, find-select,
}
use onceproof.Errors.{ok, err, value_error}
use onceproof.Model.{VerificationResult}
use onceproof.Model.Json.{Codec, RoundTrips}
use onceproof.Model.Codec.{to_dict}
use onceproof.Model.RoundTrip.{IsPersistable, from_dict-to_dict, to_dict-has_distinct_keys}
use onceproof.Store.Tx.{◌>>=◌, write, lift}
use onceproof.Store.Rows.{VerificationRow, Database}
use onceproof.Store.Tables.{
  same_key, same_verification, insert_client, insert_credential, insert_proof,
  insert_verification_row, insert_audit, delete_credentials,
}
use onceproof.Store.Shared.{register_hash_key, is_restore_required, require_operational, Joined}
use onceproof.Store.Rate.{consume_rate_slot}
use onceproof.Store.Consume.{
  Request, Draws, same_as, key_matches, verification_row, idempotent_result, some_result,
  result_from_json, redeem, consume_uncached, consume_checked, consume_proof,
}
use onceproof.Store.Clients.{demote, revoke_rows}
use onceproof.Store.Maintenance.{
  delete_proofs, delete_verifications, delete_audit_events, delete_rate_events, put_maintenance,
  revoke_everything, clear_restore, verification_is_stale,
}
use onceproof.Store.Statements.{KeptByStatements, Limits}
use onceproof.Store.Outcome.{verifier, cached}

-- Every cleanup of verifications comes while a row of this time is within the retention.
abbrev pub within_retention : ℕ → Limits
within_retention t = record {
  proof = λ row. Unit;
  forget_proofs = λ now keep. Unit;
  forget_verifications = λ now keep. now ≤ t + keep;
}

same_key_of :
    (key : String) (j k : Option String)
    → same_as key j ≡ true
    → same_as key k ≡ true
    → same_key j k ≡ true
same_key_of key none k h h' = cc
same_key_of key (some j) none h h' = cc
same_key_of key (some j) (some k) h h' = ground (arith, eq_iff j key, eq_iff k key, eq_iff j k)

module _ {Text : Type 0} (client_id key : String) where
  -- The unique index: two rows that answer for the same client and key clash.
  key_matches-same_verification :
      (a b : VerificationRow Text)
      → key_matches client_id key a ≡ true
      → key_matches client_id key b ≡ true
      → same_verification a b ≡ true
  key_matches-same_verification a b h h' = ground (
    arith,
    eq_iff a.client_id client_id,
    eq_iff b.client_id client_id,
    eq_iff a.client_id b.client_id,
    same_key_of key a.idempotency_key b.idempotency_key,
  )

module _ {Text : Type 0} (v : VerificationRow Text) (client_id key : String) where
  -- The row answers for the client and the key.
  abbrev pub Remembers : Database Text → Type 0
  Remembers db = find (key_matches client_id key) db.verifications ≡ some v

  other_key :
      (row : VerificationRow Text) (vs : List (VerificationRow Text))
      → find (key_matches client_id key) vs ≡ some v
      → any (same_verification row) vs ≡ false
      → key_matches client_id key row ≡ false
  unfolding find any
  other_key row [] f u = cc
  other_key row (x ∷ vs) f u =
      ground (arith, key_matches-same_verification client_id key row x, other_key row vs)

  pub Remembers-kept : KeptByStatements {Text = Text} Remembers (within_retention v.created_at)
  unfolding register_hash_key insert_client insert_credential insert_proof insert_verification_row
      insert_audit consume_rate_slot redeem demote revoke_rows delete_proofs delete_credentials
      delete_verifications delete_audit_events delete_rate_events put_maintenance revoke_everything
      clear_restore find ◌>>=◌
  Remembers-kept = record {
    on_hash_key = λ kid check. record { at = λ db h. ground arith };
    on_client = λ row. record { at = λ db h. ground arith };
    on_credential = λ row. record { at = λ db h. ground arith };
    on_proof = λ row other. record { at = λ db h. ground arith };
    on_verification =
        λ row. record { at = λ db h. ground (arith, other_key row db.verifications h) };
    on_audit = λ row. record { at = λ db h. ground arith };
    on_rate = λ id op limit now. record { at = λ db h. ground arith };
    on_redeem = λ c now id. record { at = λ db h. h };
    on_demote = λ id until db h. h;
    on_revoke = λ id now db h. h;
    on_delete_proofs = λ now keep _. record { at = λ db h. h };
    on_delete_credentials = λ doomed. record { at = λ db h. ground arith };
    on_delete_verifications = λ now keep young. record {
      at = λ db h.
          find-select _ (λ x. not (verification_is_stale now keep x)) db.verifications v h
            (ground arith);
    };
    on_delete_audit = λ now keep. record { at = λ db h. h };
    on_delete_rate = λ now. record { at = λ db h. h };
    on_maintenance = λ name n db h. h;
    on_revoke_all = λ now db h. h;
    on_clear = λ db h. h;
  }

module _ {Text : Type 0} (json : Codec Text) where
  -- A call of an accepted credential on an open ledger goes on with the row that its key finds.
  pub consume_proof-cached :
      (q : Request) (now : ℕ) (draws : Draws) (db : Database Text) (j : Joined Text)
      → is_restore_required db ≡ false
      → verifier q now db ≡ some j
      → consume_proof json q now draws db
        ≡ write (lift (cached json q) >>= consume_uncached json j q now draws) db
  unfolding consume_proof consume_checked require_operational write ◌>>=◌
  consume_proof-cached q now draws db j open_ accepted = rw open_ (rw accepted refl)

  pub dumps-loads :
      (r : VerificationResult)
      → RoundTrips json
      → IsPersistable r
      → result_from_json json (json.dumps (to_dict r)) ≡ ok r
  unfolding result_from_json
  dumps-loads r laws good =
      rw (laws.loads-dumps (to_dict r) (to_dict-has_distinct_keys r))
        (rw (from_dict-to_dict r good) refl)

  -- The key finds the recorded answer, for the fingerprint that it was recorded with.
  pub remembered :
      (v : VerificationRow Text) (q : Request) (key : String) (db : Database Text)
      → q.idempotency_key ≡ some key
      → Remembers v q.client_id key db
      → cached json q db ≡ (
          if v.request_fingerprint == q.request_fingerprint
          then some_result (result_from_json json v.result_json)
          else err (value_error "idempotency_conflict"))
  unfolding idempotent_result
  remembered v q key db k h = rw k (rw h refl)

  -- A decision that was recorded under a key is remembered at once.
  pub recorded :
      (q : Request) (now : ℕ) (key : String) (r : VerificationResult) (db db' : Database Text)
      → q.idempotency_key ≡ some key
      → db'.verifications ≡ verification_row json q r now ∷ db.verifications
      → Remembers (verification_row json q r now) q.client_id key db'
  unfolding find
  recorded q now key r db db' k h = rw h (ground (arith, eq_self q.client_id, eq_self key))
