-- ===== src/Config/Safe.antt =====
-- What a configuration that is loaded has.
use onceproof.Base.{
  ℕ, ◌≤◌, String, ◌≡◌, refl, subst, arith, Bool, Option, none, some, true, false, not, ◌&&◌, ◌||◌,
}
use onceproof.Base.Int.{pos, negsuc}
use onceproof.Errors.{
  Error, ok, raise_if, map_ok, >>=-eq_ok, map_ok-ok, then-passed, raise_if-passed, raise_if-ok,
}
use onceproof.Model.Json.{Value, int, Fields, Codec}
use onceproof.Keyring.Payload.{Base64, Payload}
use onceproof.Files.{refuse_mode, Files, others_may_write, others_may_access, load_keyring}
use onceproof.Config.{
  Parsers, InstanceConfig, strict_int, strict_text, strict_bool, is_loopback_host, validate_parent,
  validate_keyring, validate_instance, config_values, config_of, load_config, collide, value_at,
  table_of,
}

-- The test of the mode of a path; a path that has no mode fails it.
abbrev pub grants : (ℕ → Bool) → Option ℕ → Bool
grants test none = true
grants test (some mode) = test mode

refuse_mode-ok :
    (is_posix : Bool) (found : Option ℕ) (test : ℕ → Bool) (e : Error)
    → refuse_mode is_posix found test e ≡ ok tt
    → (is_posix && grants test found) ≡ false
refuse_mode-ok false found test e h = refl
refuse_mode-ok true none test e h = absurd (ground arith)
refuse_mode-ok true (some mode) test e h = raise_if-ok (test mode) e h

strict_int-bounds :
    (v : Value) (name : String) (low high n : ℕ)
    → strict_int v name low high ≡ ok n
    → (low ≤ n) × (n ≤ high)
unfolding strict_int
strict_int-bounds (int (pos m)) name low high n h = (ground arith, ground arith)
strict_int-bounds (int (negsuc m)) name low high n h = absurd (ground arith)
strict_int-bounds Value.null name low high n h = absurd (ground arith)
strict_int-bounds (Value.bool b) name low high n h = absurd (ground arith)
strict_int-bounds (Value.real s) name low high n h = absurd (ground arith)
strict_int-bounds (Value.text s) name low high n h = absurd (ground arith)
strict_int-bounds (Value.arr xs) name low high n h = absurd (ground arith)
strict_int-bounds (Value.obj fs) name low high n h = absurd (ground arith)

module _ {Text : Type 0} (json : Codec Text) (b64 : Base64) (files : Files Text)
    (parsers : Parsers) where
  -- The values are in their bounds, a host that is no loopback is allowed, the three files are
  -- different, no other user may write beside the database or read the keyring, and the keyring is
  -- one that is loaded.
  pub record IsSafe (c : InstanceConfig) : Type 0 where
    pub port_low : 1 ≤ c.port
    pub port_high : c.port ≤ 65535
    pub request_low : 1024 ≤ c.max_request_bytes
    pub request_high : c.max_request_bytes ≤ 1048576
    pub bound : (not (is_loopback_host parsers c.host) && not c.allow_public_bind) ≡ false
    pub apart : collide files c ≡ false
    pub database_parent :
        (files.is_posix && grants others_may_write (files.mode (files.parent c.database_path)))
        ≡ false
    pub keyring_parent :
        (files.is_posix && grants others_may_write (files.mode (files.parent c.keyring_path)))
        ≡ false
    pub keyring_regular :
        (files.is_symlink c.keyring_path || not (files.is_file c.keyring_path)) ≡ false
    pub keyring_private :
        (files.is_posix && grants others_may_access (files.mode c.keyring_path)) ≡ false
    pub keyring : Payload
    pub keyring_loads : load_keyring json b64 files c.keyring_path ≡ ok keyring

  -- The bounds of the two numbers.
  record HasBounds (c : InstanceConfig) : Type 0 where
    port : (1 ≤ c.port) × (c.port ≤ 65535)
    limit : (1024 ≤ c.max_request_bytes) × (c.max_request_bytes ≤ 1048576)

  same_config : (a b : InstanceConfig) → ok a ≡ ok b → a ≡ b
  same_config a b e = cc

  config_values-HasBounds :
      (path : String) (raw : Fields) (c : InstanceConfig)
      → config_values files path raw ≡ ok c
      → HasBounds c
  unfolding config_values
  config_values-HasBounds path raw c h =
      let (database, _, h₁) = >>=-eq_ok (strict_text (value_at "database" raw) "database") _ h in
      let (keyring, _, h₂) = >>=-eq_ok (strict_text (value_at "keyring" raw) "keyring") _ h₁ in
      let (host, _, h₃) = >>=-eq_ok (strict_text (value_at "host" raw) "host") _ h₂ in
      let (port, e, h₄) = >>=-eq_ok (strict_int (value_at "port" raw) "port" 1 65535) _ h₃ in
      let (limit, e', h₅) =
        >>=-eq_ok (strict_int (value_at "max_request_bytes" raw) "max_request_bytes" 1024 1048576) _
          h₄ in
      let (public_bind, _, h₆) =
        >>=-eq_ok (strict_bool (value_at "allow_public_bind" raw) "allow_public_bind") _ h₅ in
      subst HasBounds (same_config _ c h₆) (record {
        port = strict_int-bounds (value_at "port" raw) "port" 1 65535 port e;
        limit =
            strict_int-bounds (value_at "max_request_bytes" raw) "max_request_bytes" 1024 1048576
              limit e';
      })

  validate_instance-IsSafe :
      (c : InstanceConfig)
      → HasBounds c
      → validate_instance json b64 files parsers c ≡ ok tt
      → IsSafe c
  unfolding validate_instance validate_parent validate_keyring
  validate_instance-IsSafe c bounds h =
      let (h₁, ring) =
        then-passed _ (map_ok (λ p. tt) (validate_keyring json b64 files c.keyring_path)) tt h in
      let (h₂, beside) = then-passed _ (validate_parent files c.keyring_path "keyring") tt h₁ in
      let (h₃, beside') = then-passed _ (validate_parent files c.database_path "database") tt h₂ in
      let (distinct, public_bind) = raise_if-passed (collide files c) _ _ tt h₃ in
      let (p, checked, _) = map_ok-ok _ (validate_keyring json b64 files c.keyring_path) tt ring in
      let (k₁, loaded) = then-passed _ (load_keyring json b64 files c.keyring_path) p checked in
      let (k₂, private) =
        then-passed _ (refuse_mode files.is_posix (files.mode c.keyring_path) others_may_access _)
          tt k₁ in
      let (_, regular) =
        then-passed _
          (raise_if (files.is_symlink c.keyring_path || not (files.is_file c.keyring_path)) _) tt
          k₂ in
      record {
        port_low = bounds.port.0;
        port_high = bounds.port.1;
        request_low = bounds.limit.0;
        request_high = bounds.limit.1;
        bound = raise_if-ok _ _ public_bind;
        apart = distinct;
        database_parent =
            refuse_mode-ok files.is_posix (files.mode (files.parent c.database_path))
              others_may_write _ beside';
        keyring_parent =
            refuse_mode-ok files.is_posix (files.mode (files.parent c.keyring_path))
              others_may_write _ beside;
        keyring_regular = raise_if-ok _ _ regular;
        keyring_private =
            refuse_mode-ok files.is_posix (files.mode c.keyring_path) others_may_access _ private;
        keyring = p;
        keyring_loads = loaded;
      }

  config_of-IsSafe :
      (path : String) (raw : Fields) (c : InstanceConfig)
      → config_of json b64 files parsers path raw ≡ ok c
      → IsSafe c
  unfolding config_of
  config_of-IsSafe path raw c h =
      let (_, rest) = then-passed _ _ c h in
      let (c', values, h₁) = >>=-eq_ok (config_values files path raw) _ rest in
      let (valid, h₂) = then-passed (validate_instance json b64 files parsers c') (ok c') c h₁ in
      subst IsSafe (same_config c' c h₂)
        (validate_instance-IsSafe c' (config_values-HasBounds path raw c' values) valid)

  -- A configuration that `load_config` returns has a port from 1 to 65535 and a limit of the request
  -- from 1 KiB to 1 MiB; its host is a loopback unless a public one is allowed; its three paths are
  -- different; nobody else may write beside the database or the keyring; and the keyring is a regular
  -- file, with no access for others, that `KeyRing.load` reads. (The modes are those of a system
  -- that is not Windows.)
  pub load_config-IsSafe :
      (path : String) (c : InstanceConfig)
      → load_config json b64 files parsers path ≡ ok c
      → IsSafe c
  unfolding load_config
  load_config-IsSafe path c h =
      let (_, rest) = then-passed _ _ c h in
      let (raw, _, h₁) = >>=-eq_ok (table_of (parsers.toml (files.resolve path))) _ rest in
      config_of-IsSafe (files.resolve path) raw c h₁
