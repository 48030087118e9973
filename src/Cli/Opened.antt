-- ===== src/Cli/Opened.antt =====
-- What a command that opened its instance went through.
use onceproof.Base.{arith, true, false, ◌≡◌, refl, subst, sym, ◌∙◌}
use onceproof.Errors.{Result, ok}
use onceproof.Store.Tx.{modify, pure, raise_when, lift}
use onceproof.Store.Keeps.{>>=-eq_ok, lift-eq_ok}
use onceproof.Keyring.Payload.{Payload}
use onceproof.Service.Runtime.{Library, Runtime, returning}
use onceproof.Files.{load_keyring}
use onceproof.Config.{InstanceConfig, load_config}
use onceproof.Cli.Commands.{Instance, disk, hold, open_service, service}

module _ {S A : Type 0} where
  pub pure-eq_ok : (a b : A) (s s' : S) → pure a s ≡ (ok b, s') → (a ≡ b) × (s ≡ s')
  unfolding pure
  pure-eq_ok a b s s' h = (cc, cc)

module _ {S : Type 0} where
  pub raise_when-eq_ok :
      (b : _) (e : _) (s s' : S) → raise_when b e s ≡ (ok tt, s') → (b ≡ false) × (s ≡ s')
  unfolding raise_when
  raise_when-eq_ok true e s s' h = absurd (ground arith)
  raise_when-eq_ok false e s s' h = (refl, cc)

  modify-returning :
      (f : S → S) (r : Result (Unit {0})) (s v s' : S)
      → modify f s ≡ (ok tt, v)
      → returning r v ≡ (ok tt, s')
      → f s ≡ s'
  unfolding modify lift
  modify-returning f r s v s' h k = cc

module _ {Text : Type 0} (lib : Library Text) (instance_ : Instance Text) where
  -- The configuration and the keyring were loaded, and the ring that is held is the one of the file.
  pub record Opened (c : InstanceConfig) (w w' : Runtime Text) : Type 0 where
    pub ring : Payload
    pub config_loads :
        load_config lib.json lib.base64 (disk lib instance_ w) instance_.parsers instance_.config
        ≡ ok c
    pub ring_loads :
        load_keyring lib.json lib.base64 (disk lib instance_ w) c.keyring_path ≡ ok ring
    pub held : w' ≡ hold lib instance_ ring w

  open_service-steps :
      (c : InstanceConfig) (w w' : Runtime Text)
      → open_service lib instance_ c w ≡ (ok tt, w')
      → (p : Payload) × (load_keyring lib.json lib.base64 (disk lib instance_ w) c.keyring_path
          ≡ ok p)
        × (hold lib instance_ p w ≡ w')
  unfolding open_service
  open_service-steps c w w' h =
      let (p, loads, rest) =
        lift-eq_ok (λ x. load_keyring lib.json lib.base64 (disk lib instance_ x) c.keyring_path) _ w
          h in
      let (_, v, held, last) =
        >>=-eq_ok (modify (hold lib instance_ p)) (λ u. returning instance_.opens) w rest in
      (p, loads, modify-returning (hold lib instance_ p) instance_.opens w v w' held last)

  pub service-Opened :
      (c : InstanceConfig) (w w' : Runtime Text)
      → service lib instance_ w ≡ (ok c, w')
      → Opened c w w'
  unfolding service
  service-Opened c w w' h =
      let (c', loads, rest) =
        lift-eq_ok
          (λ x.
            load_config lib.json lib.base64 (disk lib instance_ x) instance_.parsers
              instance_.config)
          _ w h in
      let (_, v, opened, last) = >>=-eq_ok (open_service lib instance_ c') _ w rest in
      let (p, ring_loads, held) = open_service-steps c' w v opened in
      let (same, same_state) = pure-eq_ok c' c v w' last in
      subst (λ x. Opened x w w') same
        (record {
          ring = p;
          config_loads = loads;
          ring_loads = ring_loads;
          held = sym same_state ∙ sym held;
        })
