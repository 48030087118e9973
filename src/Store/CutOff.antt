-- ===== src/Store/CutOff.antt =====
-- What a revoked client can still do: nothing, after any further calls.
use onceproof.Base.{
  ℕ, String, sym, subst, ◌≡◌, refl, ap, Bool, false, Option, none, some, List, arith, any, is_some,
}
use onceproof.Errors.{Result, ok, err, is_ok}
use onceproof.Model.Json.{Codec}
use onceproof.Store.Tx.{raise, ◌>>=◌}
use onceproof.Store.Rows.{issuance, verification, Database, ProofRecord}
use onceproof.Store.Shared.{Joined, join, register_hash_key}
use onceproof.Store.Consume.{Request, Draws, rejected_result, consume_proof, accepted_join}
use onceproof.Store.Clients.{revoke_client}
use onceproof.Store.Issue.{issue_proof, issue_checked, committed}
use onceproof.Store.Consistency.{IsConsistent}
use onceproof.Store.Keeps.{>>=-eq_ok, gets-eq_ok, write-eq_ok}
use onceproof.Model.{VerificationResult}
use onceproof.Store.Outcome.{
  Outcome, unauthorized, replayed, decided, operational-eq_ok, verifier, consume_proof-Outcome,
}
use onceproof.Store.OnceOnly.{is_verified}
use onceproof.Store.Calls.{Call, run}
use onceproof.Store.Statements.{run-kept, All-no_limits}
use onceproof.Store.Revocation.{
  is_active_client, IsRevokedClient, IsRevokedClient-kept, join_inactive, revoke_client-IsRevoked,
}

module _ {Text : Type 0} (json : Codec Text) (id : String) (db : Database Text) (now : ℕ) where
  no_verifier :
      (q : Request) → IsRevokedClient id db → q.client_id ≡ id → is_some (verifier q now db) ≡ false
  no_verifier q v same = ap is_some (
      join_inactive q.client_id q.credential_id verification now db.clients db.credentials
        (subst (λ x. any (is_active_client x) db.clients ≡ false) (sym same) v.inactive))

  consume-cut_off :
      (q : Request) (draws : Draws) (db' : Database Text) (r : VerificationResult)
      → IsRevokedClient id db
      → q.client_id ≡ id
      → Outcome json q now draws db db' r
      → r.verified ≡ false
  unfolding rejected_result
  consume-cut_off q draws db' r v same (unauthorized _ e _) =
      ap (λ (x : VerificationResult). x.verified) e
  consume-cut_off q draws db' r v same (replayed auth _ _) = cc (no_verifier q v same)
  consume-cut_off q draws db' r v same (decided auth _ _ _) = cc (no_verifier q v same)

  hash_key_clients :
      (kid check : String) (db' : Database Text)
      → register_hash_key kid check db ≡ (ok tt, db')
      → db'.clients ≡ db.clients
  unfolding register_hash_key ◌>>=◌
  hash_key_clients kid check db' h = ground arith

  -- A client that is registered with no active row is refused: no verification of it is accepted,
  -- and no proof is issued to it.
  pub revoked-consume_proof :
      IsRevokedClient id db
      → (q : Request) (draws : Draws) → q.client_id ≡ id
      → is_verified (consume_proof json q now draws db).0 ≡ false
  revoked-consume_proof v q draws same = go (consume_proof json q now draws db) refl
    where
      go :
          (o : Result VerificationResult × Database Text)
          → consume_proof json q now draws db ≡ o
          → is_verified o.0 ≡ false
      go (ok r, db') e =
          consume-cut_off q draws db' r v same (consume_proof-Outcome json q now draws db db' r e)
      go (err x, db') e = refl

  issue_checked-rejected :
      (o : Option (Joined Text)) (r : ProofRecord) (e : String) (d : Database Text)
      → accepted_join r.client_id now o ≡ none
      → is_ok (issue_checked o r now e d).0 ≡ false
  unfolding issue_checked raise
  issue_checked-rejected none r e d h = refl
  issue_checked-rejected (some j) r e d h = ground arith

  pub revoked-issue_proof :
      IsRevokedClient id db
      → (r : ProofRecord) (check e : String) → r.client_id ≡ id
      → is_ok (issue_proof r check now e db).0 ≡ false
  unfolding issue_proof
  revoked-issue_proof v r check e same = go (issue_proof r check now e db) refl
    where
      go :
          (o : Result ProofRecord × Database Text)
          → issue_proof r check now e db ≡ o
          → is_ok o.0 ≡ false
      go (ok p, db') h =
          let rest = operational-eq_ok _ db db' p (write-eq_ok _ db h) in
          let (_, d, keyed, rest') = >>=-eq_ok (register_hash_key r.hash_kid check) _ db rest in
          let joined = join r.issue_credential_id issuance d.clients d.credentials in
          let last =
            gets-eq_ok (λ x. join r.issue_credential_id issuance x.clients x.credentials) _ d
              rest' in
          let same_rows = hash_key_clients r.hash_kid check d keyed in
          let off : any (is_active_client r.client_id) d.clients ≡ false =
            rw same_rows (rw same v.inactive) in
          let no =
            join_inactive r.client_id r.issue_credential_id issuance now d.clients d.credentials
              off in
          let rejected = issue_checked-rejected joined (committed r now) e d no in
          let issued = ap (λ (x : Result ProofRecord × Database Text). is_ok x.0) last in cc
      go (err x, db') h = refl

module _ {Text : Type 0} (json : Codec Text) where
  -- Once `revoke_client` has returned for a client on a consistent database, then after any further
  -- calls, whatever they are, no verification of the client is accepted and no proof is issued to it.
  pub revoke_client-cut_off :
      (id : String) (now : ℕ) (e : String) (db db' : Database Text) (b : Bool)
      → IsConsistent db
      → revoke_client id now e db ≡ (ok b, db')
      → (cs : List Call) (later : ℕ) (q : Request) (draws : Draws) (r : ProofRecord)
        (check e' : String)
      → q.client_id ≡ id
      → r.client_id ≡ id
      → (is_verified (consume_proof json q later draws (run json cs db')).0 ≡ false)
        × (is_ok (issue_proof r check later e' (run json cs db')).0 ≡ false)
  revoke_client-cut_off id now e db db' b c h cs later q draws r check e' same same' =
      let off =
        run-kept json (IsRevokedClient-kept id) cs db' (All-no_limits cs)
          (revoke_client-IsRevoked id now e db db' b c h) in
      (
        revoked-consume_proof json id (run json cs db') later off q draws same,
        revoked-issue_proof json id (run json cs db') later off r check e' same',
      )
