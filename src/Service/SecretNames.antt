-- ===== src/Service/SecretNames.antt =====
-- The secret that a credential is issued with names the credential.
use Prim.Native.Char.{Char, code}
use Prim.Native.String.append
use Prim.Native.String.{len}
use Prim.Native.String.{◌++◌}
use text.Mathlib.TextPositions.{starts_with-append, len-append}
use onceproof.Base.{
  ℕ, String, ◌≡◌, refl, ap, ◌∙◌, Bool, true, false, not, ◌&&◌, none, some, [], ◌∷◌, ◌==◌, arith,
  eqb, suc, inl, inr, Bool-cases, eq_sound, starts_with, if◌then◌else◌,
}
use onceproof.Store.Rows.{Role, issuance, verification, same_role}
use onceproof.Service.Inputs.{all_chars}
use onceproof.Service.Secrets.{
  split_dots, id_of_parts, secret_prefix, id_prefix, new_secret, new_proof,
  credential_id_from_secret, proof_kid,
}

abbrev pub not_dot : ℕ → Bool
not_dot c = not (eqb c 46)

one-append : (c : Char) (s : String) → (String.◌∷◌ c String.[] ++ s) ≡ String.◌∷◌ c s
one-append c s = append.cons c String.[] s ∙ ap (String.◌∷◌ c) (append.nil s)

split_dots-dot : (b : String) → split_dots ("." ++ b) ≡ "" ∷ split_dots b
unfolding split_dots
split_dots-dot b = ap split_dots (one-append _ b)

pub all_chars-append :
    (p : ℕ → Bool) (a b : String) → all_chars p (a ++ b) ≡ (all_chars p a && all_chars p b)
unfolding all_chars
all_chars-append p String.[] b = rw (append.nil b) refl
all_chars-append p (String.◌∷◌ c s) b =
    rw (append.cons c s b) (ground (arith, all_chars-append p s b))

-- The first part of a text ends at the first dot.
split_dots-append :
    (a b : String) → all_chars not_dot a ≡ true → split_dots (a ++ "." ++ b) ≡ a ∷ split_dots b
unfolding split_dots all_chars
split_dots-append String.[] b h = rw (append.nil ("." ++ b)) (split_dots-dot b)
split_dots-append (String.◌∷◌ c s) b h =
    let plain : eqb (code c) 46 ≡ false = ground arith in
    let rest = split_dots-append s b (ground arith) in
    rw (append.cons c s ("." ++ b)) (rw plain (rw rest refl))

split_dots-last : (a : String) → all_chars not_dot a ≡ true → split_dots a ≡ a ∷ []
unfolding split_dots all_chars
split_dots-last String.[] h = refl
split_dots-last (String.◌∷◌ c s) h =
    let plain : eqb (code c) 46 ≡ false = ground arith in
    let rest = split_dots-last s (ground arith) in rw plain (rw rest refl)

prefix-not_dot : (role : Role) → all_chars not_dot (secret_prefix role) ≡ true
unfolding all_chars
prefix-not_dot issuance = refl
prefix-not_dot verification = refl

id_prefix-not_dot : (role : Role) → all_chars not_dot (id_prefix role) ≡ true
unfolding all_chars
id_prefix-not_dot issuance = refl
id_prefix-not_dot verification = refl

pub id-not_dot :
    (role : Role) (hex : String)
    → all_chars not_dot hex ≡ true
    → all_chars not_dot (id_prefix role ++ hex) ≡ true
id-not_dot role hex h =
    rw (all_chars-append not_dot (id_prefix role) hex) (rw (id_prefix-not_dot role) (rw h refl))

split-new_secret :
    (role : Role) (id token : String)
    → all_chars not_dot id ≡ true
    → all_chars not_dot token ≡ true
    → split_dots (new_secret role id token) ≡ secret_prefix role ∷ id ∷ token ∷ []
unfolding new_secret
split-new_secret role id token h k =
    rw (split_dots-append (secret_prefix role) (id ++ "." ++ token) (prefix-not_dot role))
      (rw (split_dots-append id token h) (rw (split_dots-last token k) refl))

id_prefix-long : (role : Role) → (k : ℕ) × (len (id_prefix role) ≡ suc k)
id_prefix-long issuance = (2, refl)
id_prefix-long verification = (2, refl)

id_not_empty : (role : Role) (hex : String) → ((id_prefix role ++ hex) == "") ≡ false
id_not_empty role hex = elim (Bool-cases ((id_prefix role ++ hex) == "")) [
  | inl empty ↦
      let (k, long) = id_prefix-long role in
      let zero_length : len (id_prefix role ++ hex) ≡ 0 =
        ap len (eq_sound (id_prefix role ++ hex) "" empty) in
      let sum = len-append (id_prefix role) hex in absurd (ground arith)
  | inr full ↦ full
]

named_by_parts :
    (role other : Role) (id token : String)
    → (id == "") ≡ false
    → (token == "") ≡ false
    → starts_with id (id_prefix role) ≡ true
    → id_of_parts other (secret_prefix role ∷ id ∷ token ∷ [])
      ≡ (if same_role role other then some id else none)
named_by_parts issuance issuance id token h k l = rw h (rw k (rw l refl))
named_by_parts verification verification id token h k l = rw h (rw k (rw l refl))
named_by_parts issuance verification id token h k l = refl
named_by_parts verification issuance id token h k l = refl

-- The secret of a new credential is read back as the identifier of the credential, and it is no
-- secret of the other role: for a token that is not empty, if neither the token nor the drawn part
-- of the identifier holds a dot.
pub credential_id_from_secret-new_secret :
    (role other : Role) (hex token : String)
    → all_chars not_dot hex ≡ true
    → all_chars not_dot token ≡ true
    → (token == "") ≡ false
    → credential_id_from_secret (new_secret role (id_prefix role ++ hex) token) other
      ≡ (if same_role role other then some (id_prefix role ++ hex) else none)
unfolding credential_id_from_secret
credential_id_from_secret-new_secret role other hex token h k full =
    rw (split-new_secret role (id_prefix role ++ hex) token (id-not_dot role hex h) k) (
      named_by_parts role other (id_prefix role ++ hex) token (id_not_empty role hex) full
        (starts_with-append (id_prefix role) hex))

-- The text of a new proof names the key of its digest.
pub proof_kid-new_proof :
    (kid token : String)
    → all_chars not_dot kid ≡ true
    → all_chars not_dot token ≡ true
    → starts_with kid "hk_" ≡ true
    → (token == "") ≡ false
    → proof_kid (new_proof kid token) ≡ some kid
unfolding proof_kid new_proof all_chars
proof_kid-new_proof kid token plain plain' named full =
    rw (split_dots-append "op1" (kid ++ "." ++ token) refl) (
      rw (split_dots-append kid token plain)
        (rw (split_dots-last token plain') (rw full (rw named refl))))
