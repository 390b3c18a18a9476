-- ===== src/Start/Exits.antt =====
-- Why `run` of cmd/minisshd/main.go exits before it serves.
use minisshd.Prelude.{
  ℕ, ◌≡◌, refl, ap, Bool, true, false, not, ◌&&◌, Option, none, some, List, [], ◌∷◌, Bytes, ◌=s=◌,
  ◌==◌, if◌then◌else◌, arith,
}
use minisshd.Auth.Keyset.{Source, Log, count}
use minisshd.Auth.Methods.{contains, method_password, method_publickey}
use minisshd.Auth.Resolve
use minisshd.Auth.Resolve.{Home, directory, unknown, resolve_password_strict, resolve_username}
use minisshd.Logging.Scrub.{generate_password}
use minisshd.Start.Ran.{
  banner, running, stopped, pure, ◌>>=◌, exit_internal_error, exit_bad_config, exit_bind_failure,
  exit_fs_failure,
}
use minisshd.Start.Settled.{or_exit-running}
use minisshd.Start.Causes.{
  Cause, bad_flags, no_keys_path, bad_bind, bind_refused, no_password, no_sentinel, no_keys_file,
  no_key, read_keys, keys_path_of, IsCaused, stop-IsCaused, write-IsCaused, bind-IsCaused,
  or_exit-IsCaused, if-IsCaused,
}
use minisshd.Start.Stops.{
  resolved-IsCaused, resolve_settings-IsCaused, pick_shell-IsCaused, host_key_path-IsCaused,
  load_host_key-IsCaused,
}
use minisshd.Start.World.{Flags, World}
use minisshd.Start.Run.{
  Settings, or_exit, resolved, resolve_settings, pick_shell, host_key_path, keys_path,
  load_host_key, bind_listener, print_password, random_password, pick_password, check_keys,
  load_keys, configure, run_bound, run_keyed, run_shelled, run_settled, run,
}

module _ {S K : Type 0} (w : World S K) (s : S) where
  module _ (f : Flags) (given : w.flags ≡ some f) where
    module _ (set : Settings) (settled : (resolve_settings w f).outcome ≡ running set) where
      keys_path-IsCaused : IsCaused w s (keys_path w f set.methods)
      unfolding keys_path
      keys_path-IsCaused =
          if-IsCaused w s (contains set.methods method_publickey) (resolved (keys_path_of w f))
            (pure [])
            (λ has.
              resolved-IsCaused w s (keys_path_of w f)
                (λ x e. no_keys_path f set x given settled has e))
            (λ e. write-IsCaused w s [] [])

      bind_listener-IsCaused : IsCaused w s (bind_listener w f set.port)
      unfolding bind_listener
      bind_listener-IsCaused =
          bind-IsCaused w s (or_exit exit_bad_config (w.parse_ip f.bind))
            (λ ip. or_exit exit_bind_failure (w.listen ip set.port) >>= λ bound. pure (ip, bound))
            (or_exit-IsCaused w s exit_bad_config (w.parse_ip f.bind) (λ e. bad_bind f given e))
            (λ ip found.
              bind-IsCaused w s (or_exit exit_bind_failure (w.listen ip set.port))
                (λ bound. pure (ip, bound))
                (or_exit-IsCaused w s exit_bind_failure (w.listen ip set.port) (λ e.
                  bind_refused f set ip given settled
                    (or_exit-running exit_bad_config (w.parse_ip f.bind) ip found) e))
                (λ bound _. write-IsCaused w s [] (ip, bound)))

      print_password-IsCaused :
          (o : Option ℕ)
          → w.drawn ≡ o
          → (set.password =s= [] && contains set.methods method_password) ≡ true
          → IsCaused w s (print_password w o)
      print_password-IsCaused none e asked =
          stop-IsCaused w s _ [] exit_internal_error (no_password f set given settled asked e)
      print_password-IsCaused (some n) e asked =
          write-IsCaused w s (banner (generate_password n) ∷ []) (generate_password n)

      random_password-IsCaused :
          (o : Option Bytes)
          → w.sentinel ≡ o
          → (not (contains set.methods method_password) && set.password =s= []) ≡ true
          → IsCaused w s (random_password w o)
      random_password-IsCaused none e asked =
          stop-IsCaused w s _ [] exit_internal_error (no_sentinel f set given settled asked e)
      random_password-IsCaused (some n) e asked = write-IsCaused w s [] (w.hex n)

      pick_password-IsCaused : IsCaused w s (pick_password w set.password set.methods)
      unfolding pick_password
      pick_password-IsCaused =
          let prints = set.password =s= [] && contains set.methods method_password in
          let draws = not (contains set.methods method_password) && set.password =s= [] in
          if-IsCaused w s prints (print_password w w.drawn)
            (if draws then random_password w w.sentinel else pure set.password)
            (λ e. print_password-IsCaused w.drawn refl e)
            (λ e.
              if-IsCaused w s draws (random_password w w.sentinel) (pure set.password)
                (λ e'. random_password-IsCaused w.sentinel refl e')
                (λ e'. write-IsCaused w s [] set.password))

      check_keys-IsCaused :
          (path : Bytes) (r : Source × Bool × List Log)
          → contains set.methods method_publickey ≡ true
          → keys_path_of w f ≡ Resolve.ok path
          → read_keys w path ≡ r
          → IsCaused w s (check_keys w set.methods r)
      check_keys-IsCaused path (source, true, logs) has at_path e =
          stop-IsCaused w s _ _ exit_fs_failure
            (no_keys_file f set path given settled has at_path (ap (λ p. p.1) e))
      check_keys-IsCaused path (source, false, logs) has at_path e =
          if-IsCaused w s (not (contains set.methods method_password) && count source.cur == 0) _ _
            (λ empty. stop-IsCaused w s _ _ exit_bad_config (
              no_key f set path given settled has (only_keys empty) at_path
                (rw e (zero_keys empty))))
            (λ e'. write-IsCaused w s _ (some source))
        where
          only_keys :
              (not (contains set.methods method_password) && count source.cur == 0) ≡ true
              → contains set.methods method_password ≡ false
          only_keys h = ground arith

          zero_keys :
              (not (contains set.methods method_password) && count source.cur == 0) ≡ true
              → count source.cur ≡ 0
          zero_keys h = ground arith

      keys_path-resolved :
          (path : Bytes)
          → contains set.methods method_publickey ≡ true
          → (keys_path w f set.methods).outcome ≡ running path
          → keys_path_of w f ≡ Resolve.ok path
      unfolding keys_path
      keys_path-resolved path has h = grind arith

      load_keys-IsCaused :
          (path : Bytes)
          → (keys_path w f set.methods).outcome ≡ running path
          → IsCaused w s (load_keys w path set.methods)
      unfolding load_keys
      load_keys-IsCaused path found =
          if-IsCaused w s (contains set.methods method_publickey)
            (check_keys w set.methods (read_keys w path)) (pure none)
            (λ has.
              check_keys-IsCaused path (read_keys w path) has (keys_path-resolved path has found)
                refl)
            (λ e. write-IsCaused w s [] none)

      configure-IsCaused :
          (shell path : Bytes) (signer : K × Bytes) (bound : Bytes × ℕ)
          → (keys_path w f set.methods).outcome ≡ running path
          → IsCaused w s (configure w shell path set signer bound)
      unfolding configure
      configure-IsCaused shell path (signer, fp) (ip, bound) found =
          bind-IsCaused w s (pick_password w set.password set.methods) _ pick_password-IsCaused
            (λ password _.
              bind-IsCaused w s (load_keys w path set.methods) _ (load_keys-IsCaused path found)
                (λ source _. write-IsCaused w s _ _))

      run_keyed-IsCaused :
          (shell path : Bytes) (host_key : S × Bytes)
          → (host_key_path w f s).outcome ≡ running host_key
          → (keys_path w f set.methods).outcome ≡ running path
          → IsCaused w s (run_keyed w f set shell path host_key)
      unfolding run_keyed run_bound
      run_keyed-IsCaused shell path host_key located found =
          bind-IsCaused w s (load_host_key w host_key) (run_bound w f set shell path)
            (load_host_key-IsCaused w s f given host_key located)
            (λ signer _.
              bind-IsCaused w s (bind_listener w f set.port) (configure w shell path set signer)
                bind_listener-IsCaused
                (λ bound _. configure-IsCaused shell path signer bound found))

      run_settled-IsCaused : IsCaused w s (run_settled w f set s)
      unfolding run_settled run_shelled
      run_settled-IsCaused =
          bind-IsCaused w s (pick_shell w f s) (λ shell. run_shelled w f set shell s)
            (pick_shell-IsCaused w s f given)
            (λ shell _.
              bind-IsCaused w s (host_key_path w f s)
                (λ host_key.
                  keys_path w f set.methods >>= λ path. run_keyed w f set shell path host_key)
                (host_key_path-IsCaused w s f given)
                (λ host_key located.
                  bind-IsCaused w s (keys_path w f set.methods)
                    (λ path. run_keyed w f set shell path host_key) keys_path-IsCaused
                    (λ path found. run_keyed-IsCaused shell path host_key located found)))

  run-IsCaused : IsCaused w s (run w s)
  unfolding run
  run-IsCaused =
      bind-IsCaused w s (or_exit exit_bad_config w.flags)
        (λ f. resolve_settings w f >>= λ set. run_settled w f set s)
        (or_exit-IsCaused w s exit_bad_config w.flags (λ e. bad_flags e))
        (λ f found.
          let given = or_exit-running exit_bad_config w.flags f found in
          bind-IsCaused w s (resolve_settings w f) (λ set. run_settled w f set s)
            (resolve_settings-IsCaused w s f given)
            (λ set settled. run_settled-IsCaused f given set settled))

  -- If the program exits before it serves, its code says what has failed in this run, with the run's
  -- own flags, settings, paths and file system. 2: the flags do not parse; or one of the settings, the
  -- shell, the path of the keys file or the address to bind is refused; or a publickey-only server
  -- has no key. 3: the listener on that address and that port is refused. 4: the home directory, which
  -- is needed for the host key, is unknown, or its directory, the host key or the keys file has failed.
  -- 1: the random source has failed for the password that was to be drawn.
  pub run-caused : (code : ℕ) → (run w s).outcome ≡ stopped code → Cause w s code
  unfolding IsCaused
  run-caused = run-IsCaused
