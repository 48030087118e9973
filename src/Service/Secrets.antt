-- ===== src/Service/Secrets.antt =====
-- The texts of secrets and of proofs: `_new_secret`, `_new_credential`, `_credential_id_from_secret`
-- and `_proof_kid` of src/onceproof/service.py. What the module `secrets` draws is an argument.
use Prim.Native.Char.{Char, code}
use Prim.Native.String.{◌++◌}
use onceproof.Base.{
  String, not, ◌||◌, Option, none, some, List, [], ◌∷◌, ◌==◌, eqb, if◌then◌else◌, starts_with,
}
use onceproof.Errors.{Result, ok, ◌>>=◌}
use onceproof.Store.Rows.{Role, issuance, verification, current, CredentialRecord}
use onceproof.Keyring.Payload.{Payload}
use onceproof.Keyring.Ring.{current_key}
use onceproof.Crypto.{Hashing, credential_digest}

abbrev extend_first : Char → List String → List String
extend_first c [] = String.◌∷◌ c String.[] ∷ []
extend_first c (part ∷ parts) = String.◌∷◌ c part ∷ parts

-- s.split(".")
unfoldable pub split_dots : String → List String
split_dots String.[] = "" ∷ []
split_dots (String.◌∷◌ c s) =
    let rest = split_dots s in if eqb (code c) 46 then "" ∷ rest else extend_first c rest

abbrev pub secret_prefix : Role → String
secret_prefix issuance = "opi1"
secret_prefix verification = "opv1"

abbrev pub id_prefix : Role → String
id_prefix issuance = "ic_"
id_prefix verification = "vc_"

-- `_new_secret`, with the token that is drawn
unfoldable pub new_secret : Role → String → String → String
new_secret role credential_id token = secret_prefix role ++ "." ++ credential_id ++ "." ++ token

abbrev pub id_of_parts : Role → List String → Option String
id_of_parts role (prefix ∷ id ∷ token ∷ []) =
    if not (prefix == secret_prefix role) || id == "" || token == ""
    then none
    else if starts_with id (id_prefix role)
    then some id
    else none
id_of_parts role _ = none

-- `_credential_id_from_secret`
unfoldable pub credential_id_from_secret : String → Role → Option String
unfolding split_dots
credential_id_from_secret secret role = id_of_parts role (split_dots secret)

abbrev pub kid_of_parts : List String → Option String
kid_of_parts (prefix ∷ kid ∷ token ∷ []) =
    if not (prefix == "op1") || token == ""
    then none
    else if starts_with kid "hk_"
    then some kid
    else none
kid_of_parts _ = none

-- `_proof_kid`
unfoldable pub proof_kid : String → Option String
unfolding split_dots
proof_kid proof = kid_of_parts (split_dots proof)

-- The text of a new proof.
unfoldable pub new_proof : String → String → String
new_proof kid token = "op1" ++ "." ++ kid ++ "." ++ token

-- The random texts of a new credential: `token_hex(12)` and `token_urlsafe(32)`.
pub record CredentialDraw : Type 0 where
  pub hex : String
  pub token : String

-- `_new_credential`: the record and the secret
unfoldable pub new_credential :
    Hashing → Role → String → Payload → CredentialDraw → Result (CredentialRecord × String)
unfolding new_secret current_key credential_digest
new_credential h role client_id p draw =
    let id = id_prefix role ++ draw.hex in
    let secret = new_secret role id draw.token in
    current_key p >>= λ key. credential_digest h key secret >>= λ digest. ok (
      record {
        credential_id = id;
        client_id = client_id;
        role = role;
        hash_kid = p.current_kid;
        secret_digest = digest;
        status = current;
        valid_until = none;
      },
      secret,
    )
