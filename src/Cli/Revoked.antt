-- ===== src/Cli/Revoked.antt =====
-- What the command `client revoke` establishes.
use onceproof.Base.{ℕ, String, ◌≡◌, subst, sym, Bool, true, false, not, List, arith}
use onceproof.Errors.{ok, is_ok, value_error}
use onceproof.Model.Json.{Value, text}
use onceproof.Store.Tx.{raise_when}
use onceproof.Store.Keeps.{>>=-eq_ok, lift-eq_ok}
use onceproof.Store.Rows.{ProofRecord}
use onceproof.Store.Clients as Ledger
use onceproof.Store.Consume.{Request, Draws, consume_proof}
use onceproof.Store.Issue.{issue_proof}
use onceproof.Store.Consistency.{IsConsistent}
use onceproof.Store.OnceOnly.{is_verified}
use onceproof.Store.Calls.{Call, run}
use onceproof.Store.CutOff.{revoke_client-cut_off}
use onceproof.Service.Inputs.{checked_text}
use onceproof.Service.Runtime.{Library, Runtime}
use onceproof.Service.Upkeep.{revoke_client}
use onceproof.Service.Frames.{on_database-eq_ok}
use onceproof.Cli.Commands.{Instance, service, client_revoke}
use onceproof.Cli.Opened.{pure-eq_ok, raise_when-eq_ok, service-Opened}

checked_text-eq_ok : (s t name : String) (max : ℕ) → checked_text (text s) name max ≡ ok t → t ≡ s
unfolding checked_text
checked_text-eq_ok s t name max h = ground arith

module _ {Text : Type 0} (lib : Library Text) (instance_ : Instance Text) where
  service-revoked :
      (id e : String) (now : ℕ) (w w' : Runtime Text) (b : Bool)
      → revoke_client (text id) now e w ≡ (ok b, w')
      → Ledger.revoke_client id now e w.database ≡ (ok b, w'.database)
  unfolding revoke_client
  service-revoked id e now w w' b h =
      let (accepted, same, rest) = lift-eq_ok (λ x. checked_text (text id) "client_id" 128) _ w h in
      let (revoked, _, _) = on_database-eq_ok (Ledger.revoke_client accepted now e) w w' b rest in
      subst (λ x. Ledger.revoke_client x now e w.database ≡ (ok b, w'.database))
        (checked_text-eq_ok id accepted "client_id" 128 same) revoked

  -- The command `client revoke` that prints its line was confirmed; and after any further calls on the
  -- ledger, which was consistent, no verification of the client is accepted and no proof is issued
  -- to it.
  pub client_revoke-cut_off :
      (confirmed : Bool) (id e : String) (now : ℕ) (w w' : Runtime Text) (v : Value)
      → IsConsistent w.database
      → client_revoke lib instance_ confirmed id now e w ≡ (ok v, w')
      → (cs : List Call) (later : ℕ) (q : Request) (draws : Draws) (r : ProofRecord)
        (check e' : String)
      → q.client_id ≡ id
      → r.client_id ≡ id
      → (confirmed ≡ true)
        × (is_verified (consume_proof lib.json q later draws (run lib.json cs w'.database)).0
            ≡ false)
        × (is_ok (issue_proof r check later e' (run lib.json cs w'.database)).0 ≡ false)
  unfolding client_revoke
  client_revoke-cut_off confirmed id e now w w' v consistent h cs later q draws r check e' for_q
        for_r =
      let (_, s, asked, h₁) =
        >>=-eq_ok (raise_when (not confirmed) (value_error "revocation_confirmation_required")) _ w
          h in
      let (said, same) = raise_when-eq_ok (not confirmed) _ w s asked in
      let (c, s', opened, h₂) = >>=-eq_ok (service lib instance_) _ s h₁ in
      let o = service-Opened lib instance_ c s s' opened in
      let (b, s'', revoked, h₃) = >>=-eq_ok (revoke_client (text id) now e) _ s' h₂ in
      let (_, last) = pure-eq_ok _ v s'' w' h₃ in
      let there : IsConsistent s'.database =
        subst (λ (x : Runtime Text). IsConsistent x.database) (sym o.held)
          (subst (λ (x : Runtime Text). IsConsistent x.database) same consistent) in
      let at_end : Ledger.revoke_client id now e s'.database ≡ (ok b, w'.database) =
        subst (λ (x : Runtime Text). Ledger.revoke_client id now e s'.database ≡ (ok b, x.database))
          last (service-revoked id e now s' s'' b revoked) in
      let (no_verification, no_proof) =
        revoke_client-cut_off lib.json id now e s'.database w'.database b there at_end cs later q
          draws r check e' for_q for_r in
      (ground arith, no_verification, no_proof)
