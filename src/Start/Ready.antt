-- ===== src/Start/Ready.antt =====
-- With what `run` of cmd/minisshd/main.go calls `Serve`.
use minisshd.Prelude.{
  ℕ, ◌*◌, ◌≤◌, ◌≡◌, ◌≢◌, refl, ap, ◌∙◌, ◌⊎◌, inl, Bool, true, false, Option, none, some, List, [],
  ◌∷◌, arith, Bytes, length, ◌=s=◌, =s=_iff,
}
use minisshd.Auth.Keyset
use minisshd.Auth.Keyset.{Source, Log, count}
use minisshd.Auth.Credentials.{new_credentials}
use minisshd.Auth.Methods
use minisshd.Auth.Methods.{
  Methods, contains, method_password, method_publickey, IsMethods, resolve_methods,
}
use minisshd.Logging.Scrub.{scrubs_of, generate_password}
use minisshd.Logging.Scrub.Absence.{scrubs_of-cons}
use minisshd.Start.Ran.{running, exit_bad_config, ◌>>=◌}
use minisshd.Start.World.{Flags, World}
use minisshd.Start.Run.{
  Settings, Config, or_exit, resolve_settings, pick_shell, host_key_path, keys_path, load_host_key,
  bind_listener, pick_password, check_keys, load_keys, configure, run_bound, run_keyed, run_shelled,
  run_settled, run,
}
use minisshd.Start.Settled.{bind-running, or_exit-running, resolve_settings-IsSettled}

module _ {S K : Type 0} (w : World S K) where
  -- What `Serve` is given.
  pub record IsReady (c : Config K) : Type 0 where
    pub known : IsMethods c.methods
    pub guarded :
        (user password : Bytes) × (ss : List Bytes) × (user ≢ [])
        × (password ≢ [])
        × (c.credentials ≡ new_credentials w.sha256 user password)
        × (c.scrubs ≡ password ∷ ss)
    pub reachable :
        (contains c.methods method_password ≡ true)
        ⊎ ((source : Source) × (c.keyset_source ≡ some source) × (1 ≤ count source.cur))

  abbrev IsReachable : Methods → Option Source → Type 0
  IsReachable ms o =
      (contains ms method_password ≡ true)
      ⊎ ((source : Source) × (o ≡ some source) × (1 ≤ count source.cur))

  check_keys-IsReachable :
      (ms : Methods) (r : Source × Bool × List Log) (o : Option Source)
      → (check_keys w ms r).outcome ≡ running o
      → IsReachable ms o
  check_keys-IsReachable ms (source, true, logs) o h = cc
  check_keys-IsReachable ms (source, false, logs) o h = grind arith

  load_keys-IsReachable :
      (path : Bytes) (ms : Methods) (o : Option Source)
      → IsMethods ms
      → (load_keys w path ms).outcome ≡ running o
      → IsReachable ms o
  unfolding load_keys contains ◌=s=◌
  load_keys-IsReachable path ms o Methods.password_only h = inl refl
  load_keys-IsReachable path ms o Methods.publickey_only h =
      check_keys-IsReachable (method_publickey ∷ [])
        (Keyset.load w.sha256 w.key_fingerprint w.trim_line w.parse_line (w.keys_file path)
          (record { path = path; cur = none }))
        o h
  load_keys-IsReachable path ms o Methods.password_first h = inl refl
  load_keys-IsReachable path ms o Methods.publickey_first h = inl refl

  -- The password of the server, given what hex and the random source do.
  module _ (hexed : (b : Bytes) → length (w.hex b) ≡ 2 * length b)
      (filled : (b : Bytes) → w.sentinel ≡ some b → length b ≡ 32) where
    hex-ne-nil : (b : Bytes) → w.sentinel ≡ some b → w.hex b ≢ []
    hex-ne-nil b h e = omega (arith, ap length e, hexed b, filled b h)

    pick_password-ne-nil :
        (password : Bytes) (ms : Methods) (p : Bytes)
        → (pick_password w password ms).outcome ≡ running p
        → p ≢ []
    unfolding pick_password generate_password
    pick_password-ne-nil password ms p h = grind (arith, hex-ne-nil, =s=_iff password [])

  scrubs_of_some : (p encoded : Bytes) → p ≢ [] → (ss : List Bytes) × (scrubs_of p encoded ≡ p ∷ ss)
  scrubs_of_some [] encoded ne = absurd (ne refl)
  scrubs_of_some (a ∷ p) encoded ne = scrubs_of-cons a p encoded

  IsConfigured : Bytes → Settings → Config K → Type 0
  IsConfigured path set c =
      (password : Bytes) × ((pick_password w set.password set.methods).outcome ≡ running password)
      × ((load_keys w path set.methods).outcome ≡ running c.keyset_source)
      × (c.credentials ≡ new_credentials w.sha256 set.username password)
      × (c.scrubs ≡ scrubs_of password (w.marshal_string password))
      × (c.methods ≡ set.methods)

  configure-IsConfigured :
      (shell path : Bytes) (set : Settings) (signer : K × Bytes) (bound : Bytes × ℕ) (c : Config K)
      → (configure w shell path set signer bound).outcome ≡ running c
      → IsConfigured path set c
  unfolding configure IsConfigured
  configure-IsConfigured shell path set signer bound c h = grind arith

  configure-IsReady :
      (hexed : (b : Bytes) → length (w.hex b) ≡ 2 * length b)
      → (filled : (b : Bytes) → w.sentinel ≡ some b → length b ≡ 32)
      → (path : Bytes) (set : Settings) (c : Config K) → IsMethods set.methods
      → set.username ≢ []
      → IsConfigured path set c
      → IsReady c
  unfolding IsConfigured
  configure-IsReady hexed filled path set c known named
        (p, picked, loaded_keys, creds, scrubs, ms) =
      let ne = pick_password-ne-nil hexed filled set.password set.methods p picked in
      let (ss, first) = scrubs_of_some p (w.marshal_string p) ne in
      record {
        known = rw ms known;
        guarded = (set.username, p, ss, named, ne, creds, scrubs ∙ first);
        reachable =
            rw ms (load_keys-IsReachable path set.methods c.keyset_source known loaded_keys);
      }

  run_bound-stages :
      (f : Flags) (set : Settings) (shell path : Bytes) (signer : K × Bytes) (c : Config K)
      → (run_bound w f set shell path signer).outcome ≡ running c
      → IsConfigured path set c
  unfolding run_bound
  run_bound-stages f set shell path signer c h =
      let (bound, _, made) =
        bind-running (bind_listener w f set.port) (configure w shell path set signer) c h in
      configure-IsConfigured shell path set signer bound c made

  run_keyed-stages :
      (f : Flags) (set : Settings) (shell path : Bytes) (host_key : S × Bytes) (c : Config K)
      → (run_keyed w f set shell path host_key).outcome ≡ running c
      → IsConfigured path set c
  unfolding run_keyed
  run_keyed-stages f set shell path host_key c h =
      let (signer, _, made) =
        bind-running (load_host_key w host_key) (run_bound w f set shell path) c h in
      run_bound-stages f set shell path signer c made

  run_shelled-stages :
      (f : Flags) (set : Settings) (shell : Bytes) (s : S) (c : Config K)
      → (run_shelled w f set shell s).outcome ≡ running c
      → (path : Bytes) × IsConfigured path set c
  unfolding run_shelled
  run_shelled-stages f set shell s c h =
      let (host_key, _, rest) =
        bind-running (host_key_path w f s)
          (λ host_key. keys_path w f set.methods >>= λ path. run_keyed w f set shell path host_key)
          c h in
      let (path, _, made) =
        bind-running (keys_path w f set.methods) (λ path. run_keyed w f set shell path host_key) c
          rest in
      (path, run_keyed-stages f set shell path host_key c made)

  run_settled-stages :
      (f : Flags) (set : Settings) (s : S) (c : Config K)
      → (run_settled w f set s).outcome ≡ running c
      → (path : Bytes) × IsConfigured path set c
  unfolding run_settled
  run_settled-stages f set s c h =
      let (shell, _, made) =
        bind-running (pick_shell w f s) (λ shell. run_shelled w f set shell s) c h in
      run_shelled-stages f set shell s c made

  -- The stages that a run has gone through when it calls `Serve`.
  run-stages :
      (s : S) (c : Config K)
      → (run w s).outcome ≡ running c
      → (f : Flags) × (set : Settings) × (path : Bytes) × (w.flags ≡ some f)
        × ((resolve_settings w f).outcome ≡ running set)
        × IsConfigured path set c
  unfolding run
  run-stages s c h =
      let (f, given, rest) =
        bind-running (or_exit exit_bad_config w.flags)
          (λ f. resolve_settings w f >>= λ set. run_settled w f set s) c h in
      let (set, settled, made) =
        bind-running (resolve_settings w f) (λ set. run_settled w f set s) c rest in
      let (path, conf) = run_settled-stages f set s c made in
      (f, set, path, or_exit-running exit_bad_config w.flags f given, settled, conf)

  -- The credentials and the scrubs that a run comes to serve with are those of the password picked.
  pub run-picked :
      (s : S) (c : Config K)
      → (run w s).outcome ≡ running c
      → (f : Flags) × (set : Settings) × (password : Bytes) × (w.flags ≡ some f)
        × ((resolve_settings w f).outcome ≡ running set)
        × ((pick_password w set.password set.methods).outcome ≡ running password)
        × (c.credentials ≡ new_credentials w.sha256 set.username password)
        × (c.scrubs ≡ scrubs_of password (w.marshal_string password))
        × (c.methods ≡ set.methods)
  unfolding IsConfigured
  run-picked s c h =
      let (f, set, path, given, settled, (p, picked, keyed, creds, scrubs, ms)) =
        run-stages s c h in
      (f, set, p, given, settled, picked, creds, scrubs, ms)

  -- Whenever the program comes to serve, the methods are password, publickey or both; the credentials
  -- are those of a user name and a password that are not empty, and that password is the first text
  -- that the logger scrubs; and somebody can log in: password is among the methods, or at least one
  -- key is loaded. It relies on hex writing two digits for a byte, and on the random source filling
  -- its 32 bytes.
  pub run-IsReady :
      (hexed : (b : Bytes) → length (w.hex b) ≡ 2 * length b)
      → (filled : (b : Bytes) → w.sentinel ≡ some b → length b ≡ 32) → (s : S) (c : Config K)
      → (run w s).outcome ≡ running c
      → IsReady c
  run-IsReady hexed filled s c h =
      let (f, set, path, _, settled, conf) = run-stages s c h in
      let (known, named, _) = resolve_settings-IsSettled w f set settled in
      configure-IsReady hexed filled path set c known named conf
