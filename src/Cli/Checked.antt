-- ===== src/Cli/Checked.antt =====
-- What the command `check` establishes.
use onceproof.Base.{◌≡◌, refl, subst, sym, ◌∙◌, true, false, not, arith}
use onceproof.Errors.{ok, value_error}
use onceproof.Model.Json.{Value, text, field, end}
use onceproof.Store.Tx.{◌>>=◌, raise_when, pure, gets}
use onceproof.Store.Keeps.{>>=-eq_ok, lift-eq_ok}
use onceproof.Store.Shared.{is_restore_required}
use onceproof.Service.Runtime.{Library, Runtime}
use onceproof.Service.Ready.{ready}
use onceproof.Service.KeysHeld.{AllHeld, ready-AllHeld}
use onceproof.Files.{load_keyring}
use onceproof.Config.{InstanceConfig, load_config}
use onceproof.Config.Safe.{IsSafe, load_config-IsSafe}
use onceproof.Cli.Commands.{Instance, disk, service, check}
use onceproof.Cli.Payloads.{status_line}
use onceproof.Cli.Opened.{Opened, pure-eq_ok, raise_when-eq_ok, service-Opened}

module _ {S : Type 0} where
  -- A line that is printed of the state changes nothing.
  printed-eq_ok :
      {A B : Type 0} (f : S → A) (line : A → B) (s s' : S) (v : B)
      → (gets f >>= λ a. pure (line a)) s ≡ (ok v, s')
      → s ≡ s'
  unfolding ◌>>=◌
  printed-eq_ok f line s s' v h = (pure-eq_ok (line (f s)) v s s' h).1

module _ {Text : Type 0} (lib : Library Text) (instance_ : Instance Text) where
  -- The configuration that `load_config` returns of the file that was named is safe, the ring that is held is the one of its keyring file, the ledger is as
  -- it was and not sealed, and the ring has the key of each of its credentials and proofs.
  pub record Checked (w w' : Runtime Text) : Type 0 where
    pub config : InstanceConfig
    pub config_loads :
        load_config lib.json lib.base64 (disk lib instance_ w) instance_.parsers instance_.config
        ≡ ok config
    pub safe : IsSafe lib.json lib.base64 (disk lib instance_ w) instance_.parsers config
    pub ring_loads :
        load_keyring lib.json lib.base64 (disk lib instance_ w) config.keyring_path
        ≡ ok w'.ring.memory
    pub same_file : w'.ring.file ≡ w.ring.file
    pub same_database : w'.database ≡ w.database
    pub unsealed : is_restore_required w.database ≡ false
    pub keys : AllHeld lib.hashing w'.ring.memory w.database

  held-Checked :
      (c : InstanceConfig) (w w' : Runtime Text)
      → Opened lib instance_ c w w'
      → ready lib.hashing w'.ring.memory instance_.connection w'.database ≡ ok true
      → Checked w w'
  held-Checked c w w' o r =
      let same = o.held in
      let r' =
        subst (λ x. ready lib.hashing x.ring.memory instance_.connection x.database ≡ ok true) same
          r in
      let (unsealed, keys) = ready-AllHeld lib.hashing o.ring w.database instance_.connection r' in
      subst (Checked w) (sym same) (record {
        config = c;
        config_loads = o.config_loads;
        safe =
            load_config-IsSafe lib.json lib.base64 (disk lib instance_ w) instance_.parsers
              instance_.config c o.config_loads;
        ring_loads = o.ring_loads;
        same_file = refl;
        same_database = refl;
        unsealed = unsealed;
        keys = keys;
      })

  -- The command `check` that prints its line has loaded, from the file that was
  -- named, a configuration that is safe, and the ring of its
  -- keyring file, has written neither the file nor the ledger, and has found the ledger not sealed and
  -- the ring with the key of each of its credentials and proofs.
  pub check-Checked :
      (w w' : Runtime Text) (v : Value) → check lib instance_ w ≡ (ok v, w') → Checked w w'
  unfolding check
  check-Checked w w' v h =
      let (c, s, opened, h₁) = >>=-eq_ok (service lib instance_) _ w h in
      let (b, is_ready, h₂) =
        lift-eq_ok (λ x. ready lib.hashing x.ring.memory instance_.connection x.database) _ s h₁ in
      let (_, s', passed, h₃) =
        >>=-eq_ok (raise_when (not b) (value_error "instance_not_ready")) _ s h₂ in
      let (open_, same) = raise_when-eq_ok (not b) _ s s' passed in
      let same' =
        printed-eq_ok (λ x. x.ring.memory.current_kid)
          (λ kid. status_line "ready" (
            field "database_path" (text c.database_path) (field "current_hash_kid" (text kid) end)))
          s' w' v h₃ in
      let found : ready lib.hashing s.ring.memory instance_.connection s.database ≡ ok true =
        ground (arith, is_ready) in
      subst (Checked w) (same ∙ same')
        (held-Checked c w s (service-Opened lib instance_ c w s opened) found)
