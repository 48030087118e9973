-- ===== src/Service/Registered.antt =====
-- The secrets that `create_client` of the service hands out.
use Prim.Native.String.{◌++◌}
use onceproof.Base.{
  ℕ, String, ◌≡◌, refl, ap, subst, sym, ◌∙◌, arith, true, false, none, some, List, ◌∷◌, ◌==◌,
  eq_self, find,
}
use onceproof.Errors.{ok}
use onceproof.Model.Json.{Value}
use onceproof.Store.Tx.{lift, pure}
use onceproof.Store.Keeps.{>>=-eq_ok, lift-eq_ok, gets-eq_ok}
use onceproof.Store.Rows.{
  Role, issuance, verification, same_role, current, CredentialRow, CredentialRecord, Database,
}
use onceproof.Store.Clients as Ledger
use onceproof.Store.Clients.{credential, credential_row, credential_from_row}
use onceproof.Store.Registered.{create_client-credentials}
use onceproof.Keyring.Ring.{World, current_key, require_generation}
use onceproof.Crypto.{key_check}
use onceproof.Service.Secrets.{CredentialDraw, new_credential}
use onceproof.Service.SecretNames.{credential_id_from_secret-new_secret}
use onceproof.Service.Runtime.{Library, Runtime, on_database, on_ring, authenticate}
use onceproof.Service.Clients.{
  ClientInput, ClientCredentials, ClientDraws, ClientArguments, Sink, register, create_client,
  new_client, client_credentials, hand_over, client_input,
}
use onceproof.Service.Authentication.{Authenticates, authenticate_found}
use onceproof.Service.Minted.{IsDraw, IsNew, new_credential-IsNew}
use onceproof.Service.Frames.{on_database-eq_ok}
use onceproof.Service.Redeemable.{current_key-key_for}
use onceproof.Service.Verified.{read_only}

same_role_self : (role : Role) → same_role role role ≡ true
same_role_self issuance = refl
same_role_self verification = refl

module _ {Text : Type 0} (lib : Library Text) (client_id : String) (d : CredentialDraw) where
  -- A secret is accepted by a ledger that has its record, with the keys that it was made with.
  new_secret-Authenticates :
      (role : Role) (now : ℕ) (w : Runtime Text) (made : CredentialRecord × String)
      → IsDraw d
      → IsNew lib.hashing role client_id w.ring.memory d made
      → credential made.0.credential_id w.database ≡ some made.0
      → Authenticates lib made.1 role now w made.0
  new_secret-Authenticates role now w made plain new stored = record {
    id = made.0.credential_id;
    key = new.key;
    names = rw new.secret (
        rw new.id (
          rw
            (credential_id_from_secret-new_secret role role d.hex d.token plain.hex plain.token
              plain.full)
            (rw (same_role_self role) refl)));
    stored = stored;
    has_role = rw new.role_of (same_role_self role);
    held = rw new.kid (current_key-key_for w.ring.memory new.key new.held);
    digest = new.digest;
    accepted = rw new.status refl;
  }

-- The row that is written for a new record is read back as the record.
row-record :
    (r : CredentialRecord) (now : ℕ)
    → r.status ≡ current
    → r.valid_until ≡ none
    → credential_from_row (credential_row r now) ≡ r
row-record r now e e' = λ i. record r { status = sym e i; valid_until = sym e' i }

module _ {Text : Type 0} where
  first_found :
      (a b : CredentialRecord) (now : ℕ) (cs : List CredentialRow) (db : Database Text)
      → db.credentials ≡ credential_row a now ∷ credential_row b now ∷ cs
      → a.status ≡ current
      → a.valid_until ≡ none
      → credential a.credential_id db ≡ some a
  unfolding credential find
  first_found a b now cs db rows s v =
      rw rows (rw (eq_self a.credential_id) (ap some (row-record a now s v)))

  second_found :
      (a b : CredentialRecord) (now : ℕ) (cs : List CredentialRow) (db : Database Text)
      → db.credentials ≡ credential_row a now ∷ credential_row b now ∷ cs
      → (a.credential_id == b.credential_id) ≡ false
      → b.status ≡ current
      → b.valid_until ≡ none
      → credential b.credential_id db ≡ some b
  unfolding credential find
  second_found a b now cs db rows differ s v =
      rw rows (rw differ (rw (eq_self b.credential_id) (ap some (row-record b now s v))))

  handed_over :
      {C : Type 0} (sink : Sink C) (c : C) (w w' : Runtime Text)
      → hand_over sink c w ≡ (ok tt, w')
      → w' ≡ w
  unfolding lift pure
  handed_over none c w w' h = ground arith
  handed_over (some f) c w w' h = ground arith

-- The two credentials that a registration left in the ledger.
pub record Registers {Text : Type 0} (lib : Library Text) (draws : ClientDraws) (w' : Runtime Text)
    (creds : ClientCredentials) : Type 0 where
  pub client_id : String
  pub issuing : CredentialRecord × String
  pub verifying : CredentialRecord × String
  pub is_issuing : IsNew lib.hashing issuance client_id w'.ring.memory draws.issuance issuing
  pub is_verifying :
      IsNew lib.hashing verification client_id w'.ring.memory draws.verification verifying
  pub stored_issuing : credential issuing.0.credential_id w'.database ≡ some issuing.0
  pub stored_verifying : credential verifying.0.credential_id w'.database ≡ some verifying.0
  pub result : creds ≡ client_credentials client_id issuing verifying

module _ {Text : Type 0} (lib : Library Text) where
  register-Registers :
      (input : ClientInput) (sink : Sink ClientCredentials) (draws : ClientDraws)
      (w w' : Runtime Text) (creds : ClientCredentials)
      → register lib input sink draws w ≡ (ok creds, w')
      → Registers lib draws w' creds
  unfolding register
  register-Registers input sink draws w w' creds h =
      let client_id = "opc_" ++ draws.client_hex in
      let (_, w₁, _, h₁) = >>=-eq_ok (on_ring (require_generation lib.json lib.base64)) _ w h in
      let p = w₁.ring.memory in
      let h₂ = gets-eq_ok (λ (x : Runtime Text). x.ring.memory) _ w₁ h₁ in
      let (issuing, made, h₃) =
        lift-eq_ok (λ _. new_credential lib.hashing issuance client_id p draws.issuance) _ w₁ h₂ in
      let (verifying, made', h₄) =
        lift-eq_ok (λ _. new_credential lib.hashing verification client_id p draws.verification) _
          w₁ h₃ in
      let creds₀ = client_credentials client_id issuing verifying in
      let (_, w₂, handed, h₅) = >>=-eq_ok (hand_over sink creds₀) _ w₁ h₄ in
      let (root, _, h₆) = lift-eq_ok (λ _. current_key p) _ w₂ h₅ in
      let (check, _, h₇) = lift-eq_ok (λ _. key_check lib.hashing root) _ w₂ h₆ in
      let call =
        Ledger.create_client lib.json (new_client input client_id issuing.0 verifying.0 check)
          draws.now draws.event_id in
      let (_, w₃, stored, h₈) = >>=-eq_ok (on_database call) _ w₂ h₇ in
      let (stored', ring, _) = on_database-eq_ok call w₂ w₃ tt stored in
      let (answer, state) = read_only creds₀ creds w₃ w' h₈ in
      let same_ring : w₁.ring ≡ w'.ring = sym (
        ap (λ (x : Runtime Text). x.ring) state
        ∙ ring
        ∙ ap (λ (x : Runtime Text). x.ring) (handed_over sink creds₀ w₁ w₂ handed)) in
      let (rows, differ) =
        create_client-credentials lib.json (new_client input client_id issuing.0 verifying.0 check)
          draws.now draws.event_id w₂.database w₃.database stored' in
      let rows' = ap (λ (x : Runtime Text). x.database.credentials) state ∙ rows in
      let new = new_credential-IsNew lib.hashing issuance client_id p draws.issuance issuing made in
      let new' =
        new_credential-IsNew lib.hashing verification client_id p draws.verification verifying
          made' in
      record {
        client_id = client_id;
        issuing = issuing;
        verifying = verifying;
        is_issuing =
            subst
              (λ (x : World Text).
                IsNew lib.hashing issuance client_id x.memory draws.issuance issuing)
              same_ring new;
        is_verifying =
            subst
              (λ (x : World Text).
                IsNew lib.hashing verification client_id x.memory draws.verification verifying)
              same_ring new';
        stored_issuing =
            second_found verifying.0 issuing.0 draws.now w₂.database.credentials w'.database rows'
              differ new.status new.valid_until;
        stored_verifying =
            first_found verifying.0 issuing.0 draws.now w₂.database.credentials w'.database rows'
              new'.status new'.valid_until;
        result = sym answer;
      }

  -- The secrets that `create_client` returns are accepted at once, and at every later time as long
  -- as the ledger and the keyring stay as they are: the one for issuing and the other for verifying,
  -- each as the credential of the new client that the result names. The texts drawn hold no dot, and
  -- the tokens are not empty.
  pub create_client-authenticate :
      (args : ClientArguments) (sink : Sink ClientCredentials) (draws : ClientDraws)
      (w w' : Runtime Text) (creds : ClientCredentials) (now : ℕ)
      → IsDraw draws.issuance
      → IsDraw draws.verification
      → create_client lib args sink draws w ≡ (ok creds, w')
      → ((r : CredentialRecord) × (authenticate lib
              (Value.text creds.issuance_secret)
              issuance
              now
              w'
            ≡ ok (some r))
          × (r.client_id ≡ creds.client_id)
          × (r.credential_id ≡ creds.issuance_credential_id))
        × ((r : CredentialRecord) × (authenticate lib
                (Value.text creds.verification_secret)
                verification
                now
                w'
              ≡ ok (some r))
            × (r.client_id ≡ creds.client_id)
            × (r.credential_id ≡ creds.verification_credential_id))
  unfolding create_client
  create_client-authenticate args sink draws w w' creds now plain plain' h =
      let (input, w₀, _, h₁) = >>=-eq_ok (client_input args) _ w h in
      let made = register-Registers input sink draws w₀ w' creds h₁ in
      let iss = made.is_issuing in
      let ver = made.is_verifying in
      rw made.result (
        (
          made.issuing.0,
          authenticate_found lib made.issuing.1 issuance now w' made.issuing.0 (
              new_secret-Authenticates lib made.client_id draws.issuance issuance now w'
                made.issuing plain iss made.stored_issuing),
          iss.owner,
          refl,
        ),
        (
          made.verifying.0,
          authenticate_found lib made.verifying.1 verification now w' made.verifying.0 (
              new_secret-Authenticates lib made.client_id draws.verification verification now w'
                made.verifying plain' ver made.stored_verifying),
          ver.owner,
          refl,
        ),
      )
