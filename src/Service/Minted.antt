-- ===== src/Service/Minted.antt =====
-- A new credential: what `_new_credential` gives.
use Prim.Native.String.{◌++◌}
use onceproof.Base.{ℕ, String, ◌≡◌, refl, subst, true, false, none, List, ◌==◌}
use onceproof.Errors.{ok, >>=-eq_ok}
use onceproof.Store.Rows.{Role, current, CredentialRecord}
use onceproof.Keyring.Payload.{Payload}
use onceproof.Keyring.Ring.{current_key}
use onceproof.Crypto.{Hashing, credential_digest}
use onceproof.Service.Secrets.{CredentialDraw, id_prefix, new_secret, new_credential}
use onceproof.Service.Inputs.{all_chars}
use onceproof.Service.SecretNames.{not_dot}

-- What is drawn for a credential is text without dots, and the token is not empty.
pub record IsDraw (d : CredentialDraw) : Type 0 where
  pub hex : all_chars not_dot d.hex ≡ true
  pub token : all_chars not_dot d.token ≡ true
  pub full : (d.token == "") ≡ false

-- A new credential: its key, its record and its secret.
pub record IsNew (h : Hashing) (role : Role) (client_id : String) (p : Payload) (d : CredentialDraw)
    (made : CredentialRecord × String) : Type 0 where
  pub key : List ℕ
  pub held : current_key p ≡ ok key
  pub id : made.0.credential_id ≡ (id_prefix role ++ d.hex)
  pub role_of : made.0.role ≡ role
  pub kid : made.0.hash_kid ≡ p.current_kid
  pub owner : made.0.client_id ≡ client_id
  pub status : made.0.status ≡ current
  pub valid_until : made.0.valid_until ≡ none
  pub secret : made.1 ≡ new_secret role (id_prefix role ++ d.hex) d.token
  pub digest : credential_digest h key made.1 ≡ ok made.0.secret_digest

module _ (h : Hashing) (role : Role) (client_id : String) (p : Payload) (d : CredentialDraw) where
  same_value : {A : Type 0} (a b : A) → ok a ≡ ok b → a ≡ b
  same_value a b e = cc

  pub new_credential-IsNew :
      (made : CredentialRecord × String)
      → new_credential h role client_id p d ≡ ok made
      → IsNew h role client_id p d made
  unfolding new_credential
  new_credential-IsNew made e =
      let (key, held, e₁) = >>=-eq_ok (current_key p) _ e in
      let secret = new_secret role (id_prefix role ++ d.hex) d.token in
      let (digest, keyed, e₂) = >>=-eq_ok (credential_digest h key secret) _ e₁ in
      subst (IsNew h role client_id p d) (same_value _ made e₂) (record {
        key = key;
        held = held;
        id = refl;
        role_of = refl;
        kid = refl;
        owner = refl;
        status = refl;
        valid_until = refl;
        secret = refl;
        digest = keyed;
      })
