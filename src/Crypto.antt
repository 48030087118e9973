-- ===== src/Crypto.antt =====
-- src/onceproof/crypto.py: the digests of credentials, of proofs and of root keys. `hmac`, `hashlib`
-- and the encoding of texts are parameters.
pub mod Domains
use Prim.Native.Char.{code}
use onceproof.Base.{ℕ, String, not, List, [], ◌∷◌, ◌++◌, eqb, if◌then◌else◌}
use onceproof.Errors.{Result, ok, err, value_error, ◌>>=◌}
use onceproof.Keyring.Payload.{byte_count}

-- `hmac.new(key, message, sha256)` with `digest()` and `hexdigest()`, `sha256(message).hexdigest()`,
-- and `encode("utf-8")`.
pub record Hashing : Type 0 where
  pub digest : List ℕ → List ℕ → List ℕ
  pub hexdigest : List ℕ → List ℕ → String
  pub sha256 : List ℕ → String
  pub encode : String → List ℕ

-- A literal of bytes.
abbrev pub ascii : String → List ℕ
ascii String.[] = []
ascii (String.◌∷◌ c s) = code c ∷ ascii s

abbrev pub hkdf_salt : List ℕ
hkdf_salt = ascii "onceproof:v1:hkdf-sha256"

abbrev pub credential_info : List ℕ
credential_info = ascii "credential-digest"

abbrev pub proof_info : List ℕ
proof_info = ascii "proof-digest"

abbrev pub key_check_info : List ℕ
key_check_info = ascii "key-check"

abbrev key_check_value : List ℕ
key_check_value = ascii "onceproof:v1:key-check"

module _ (h : Hashing) where
  -- `_hkdf_sha256`
  unfoldable pub hkdf_sha256 : List ℕ → List ℕ → Result (List ℕ)
  unfolding byte_count
  hkdf_sha256 root_key info =
      let extracted = h.digest hkdf_salt root_key in
      if not (eqb (byte_count root_key) 32)
      then err (value_error "invalid_root_key_length")
      else ok (h.digest extracted (info ++ (1 ∷ [])))

  -- `_digest`
  abbrev pub keyed_digest : List ℕ → String → String
  keyed_digest derived_key value = h.hexdigest derived_key (h.encode value)

  unfoldable pub credential_digest : List ℕ → String → Result String
  unfolding hkdf_sha256
  credential_digest root_key credential =
      hkdf_sha256 root_key credential_info >>= λ derived. ok (keyed_digest derived credential)

  unfoldable pub proof_digest : List ℕ → String → Result String
  unfolding hkdf_sha256
  proof_digest root_key proof =
      hkdf_sha256 root_key proof_info >>= λ derived. ok (keyed_digest derived proof)

  unfoldable pub key_check : List ℕ → Result String
  unfolding hkdf_sha256
  key_check root_key =
      hkdf_sha256 root_key key_check_info >>= λ derived. ok (h.hexdigest derived key_check_value)
