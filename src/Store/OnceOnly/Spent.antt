-- ===== src/Store/OnceOnly/Spent.antt =====
-- A digest with no unconsumed row stays so, until it is issued again.
use onceproof.Base.{
  ℕ, ◌<◌, String, ◌≡◌, refl, Bool, true, false, ◌&&◌, none, some, List, [], ◌∷◌, ◌==◌, arith,
  eq_iff, eq_sound, any, update, find, any-select, any-update, any_weaken, is_none, count,
  count_zero, Distinct,
}
use onceproof.Store.Tx.{◌>>=◌}
use onceproof.Store.Rows.{ProofRow, Database}
use onceproof.Store.Tables.{
  same_proof, insert_client, insert_credential, insert_proof, insert_verification_row, insert_audit,
  delete_credentials,
}
use onceproof.Store.Shared.{register_hash_key}
use onceproof.Store.Rate.{consume_rate_slot}
use onceproof.Store.Consume.{digest_is, is_redeemable, mark_consumed, redeem}
use onceproof.Store.Clients.{demote, revoke_rows}
use onceproof.Store.Maintenance.{
  delete_proofs, delete_verifications, delete_audit_events, delete_rate_events, put_maintenance,
  revoke_everything, clear_restore,
}
use onceproof.Store.Statements.{KeptByStatements, Limits}

-- An unconsumed row of the digest.
abbrev pub is_live : String → ProofRow → Bool
is_live d p = p.token_digest == d && is_none p.consumed_at

-- New proofs have other digests.
abbrev pub others_only : String → Limits
others_only d = record {
  proof = λ row. (row.token_digest == d) ≡ false;
  forget_proofs = λ now keep. Unit;
  forget_verifications = λ now keep. Unit;
}

-- Every row of the digest has been consumed, or there is none.
abbrev pub IsSpent : {Text : Type 0} → String → Database Text → Type 0
IsSpent d db = any (is_live d) db.proofs ≡ false

live_update :
    (d : String) (q : ProofRow → Bool) (f : ProofRow → ProofRow)
    → ((p : ProofRow) → is_live d p ≡ false → is_live d (f p) ≡ false)
    → (ps : List ProofRow) → any (is_live d) ps ≡ false
    → any (is_live d) (update q f ps) ≡ false
live_update d q f keep ps h = any-update (is_live d) q f ps (λ p a b. keep p a) h

module _ {Text : Type 0} (d : String) where
  pub IsSpent-kept : KeptByStatements {Text = Text} (IsSpent d) (others_only d)
  unfolding register_hash_key insert_client insert_credential insert_proof insert_verification_row
      insert_audit consume_rate_slot redeem demote revoke_rows delete_proofs delete_credentials
      delete_verifications delete_audit_events delete_rate_events put_maintenance revoke_everything
      clear_restore any ◌>>=◌
  IsSpent-kept = record {
    on_hash_key = λ kid check. record { at = λ db h. ground arith };
    on_client = λ row. record { at = λ db h. ground arith };
    on_credential = λ row. record { at = λ db h. ground arith };
    on_proof = λ row other. record { at = λ db h. ground arith };
    on_verification = λ row. record { at = λ db h. ground arith };
    on_audit = λ row. record { at = λ db h. ground arith };
    on_rate = λ id op limit now. record { at = λ db h. ground arith };
    on_redeem =
        λ c now id. record { at = λ db h. live_update d _ _ (λ p a. ground arith) db.proofs h };
    on_demote = λ id until db h. h;
    on_revoke = λ id now db h. live_update d _ _ (λ p a. a) db.proofs h;
    on_delete_proofs = λ now keep _. record { at = λ db h. any-select _ _ db.proofs h };
    on_delete_credentials = λ doomed. record { at = λ db h. ground arith };
    on_delete_verifications = λ now keep _. record { at = λ db h. h };
    on_delete_audit = λ now keep. record { at = λ db h. h };
    on_delete_rate = λ now. record { at = λ db h. h };
    on_maintenance = λ name n db h. h;
    on_revoke_all = λ now db h. live_update d _ _ (λ p a. a) db.proofs h;
    on_clear = λ db h. h;
  }

-- Beside a row of a digest there is no other.
pub digest_alone :
    (d : String) (p : ProofRow) (ps : List ProofRow)
    → p.token_digest ≡ d
    → any (same_proof p) ps ≡ false
    → any (digest_is d) ps ≡ false
digest_alone d p ps e h =
    any_weaken (digest_is d) (same_proof p)
      (λ x n. ground (arith, eq_iff x.token_digest d, eq_iff p.token_digest x.token_digest)) ps h

spent_if_absent :
    (d : String) (now : ℕ) (id : String) (ps : List ProofRow)
    → any (digest_is d) ps ≡ false
    → any (is_live d) (update (is_redeemable d now) (mark_consumed now id) ps) ≡ false
spent_if_absent d now id ps h =
    live_update d _ _ (λ p a. ground arith) ps
      (any_weaken (is_live d) (digest_is d) (λ x n. ground arith) ps h)

none_redeemable :
    (d : String) (now : ℕ) (ps : List ProofRow)
    → any (digest_is d) ps ≡ false
    → count (is_redeemable d now) ps ≡ 0
none_redeemable d now ps h =
    count_zero _ ps (any_weaken (is_redeemable d now) (digest_is d) (λ x n. ground arith) ps h)

-- The UPDATE of a redemption leaves no unconsumed row.
pub spent_by_redeem :
    (d : String) (now : ℕ) (id : String) (ps : List ProofRow) (p : ProofRow)
    → Distinct same_proof ps
    → find (digest_is d) ps ≡ some p
    → p.consumed_at ≡ none
    → now < p.expires_at
    → any (is_live d) (update (is_redeemable d now) (mark_consumed now id) ps) ≡ false
unfolding find update any
spent_by_redeem d now id [] p u f c t = refl
spent_by_redeem d now id (x ∷ ps) p u f c t = ground (
  arith,
  eq_sound x.token_digest d,
  digest_alone d x ps,
  spent_if_absent d now id ps,
  spent_by_redeem d now id ps p u.1,
)

pub live_before :
    (d : String) (ps : List ProofRow) (p : ProofRow)
    → find (digest_is d) ps ≡ some p
    → p.consumed_at ≡ none
    → any (is_live d) ps ≡ true
unfolding find any
live_before d [] p f c = cc
live_before d (x ∷ ps) p f c = ground (arith, live_before d ps p)

-- The UPDATE of a redemption changes one row.
pub one_redeemed :
    (d : String) (now : ℕ) (ps : List ProofRow) (p : ProofRow)
    → Distinct same_proof ps
    → find (digest_is d) ps ≡ some p
    → p.consumed_at ≡ none
    → now < p.expires_at
    → count (is_redeemable d now) ps ≡ 1
unfolding find count
one_redeemed d now [] p u f c t = cc
one_redeemed d now (x ∷ ps) p u f c t = ground (
  arith,
  eq_sound x.token_digest d,
  digest_alone d x ps,
  none_redeemable d now ps,
  one_redeemed d now ps p u.1,
)
