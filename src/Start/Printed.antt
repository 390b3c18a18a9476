-- ===== src/Start/Printed.antt =====
-- What `run` of cmd/minisshd/main.go prints on standard output.
use minisshd.Prelude.{ℕ, ◌≡◌, refl, some, [], arith, Bytes}
use minisshd.Auth.Methods.{Methods}
use minisshd.Start.Ran.{running, exit_bad_config, ◌>>=◌}
use minisshd.Start.World.{Flags, World}
use minisshd.Start.Run.{
  Settings, or_exit, resolve_settings, pick_shell, host_key_path, keys_path, load_host_key,
  bind_listener, configure, run_bound, run_keyed, run_shelled, run_settled, run,
}
use minisshd.Start.Output.{IsOutput, nothing, printed, IsParts, configure-IsParts}
use minisshd.Start.Settled.{quiet-out, or_exit-out, or_exit-running, resolve_settings-out}

module _ {S K : Type 0} (w : World S K) where
  bind_listener-bound :
      (f : Flags) (port : ℕ) (b : Bytes × ℕ)
      → (bind_listener w f port).outcome ≡ running b
      → (w.parse_ip f.bind ≡ some b.0) × (w.listen b.0 port ≡ some b.1)
  unfolding bind_listener
  bind_listener-bound f port (ip, bound) h = grind arith

  pick_shell-out : (f : Flags) (s : S) → (pick_shell w f s).out ≡ []
  unfolding pick_shell
  pick_shell-out f s = ground arith

  host_key_path-out : (f : Flags) (s : S) → (host_key_path w f s).out ≡ []
  unfolding host_key_path
  host_key_path-out f s = ground arith

  keys_path-out : (f : Flags) (ms : Methods) → (keys_path w f ms).out ≡ []
  unfolding keys_path
  keys_path-out f ms = ground arith

  load_host_key-out : (r : S × Bytes) → (load_host_key w r).out ≡ []
  unfolding load_host_key
  load_host_key-out (s, path) = ground arith

  bind_listener-out : (f : Flags) (port : ℕ) → (bind_listener w f port).out ≡ []
  unfolding bind_listener
  bind_listener-out f port = ground arith

  module _ (s : S) (f : Flags) (set : Settings) (given : w.flags ≡ some f)
      (settled : (resolve_settings w f).outcome ≡ running set) where
    module _ (shell path : Bytes) (host_key : S × Bytes)
        (located : (host_key_path w f s).outcome ≡ running host_key)
        (found : (keys_path w f set.methods).outcome ≡ running path) where
      configure-IsOutput :
          (signer : K × Bytes) (bound : Bytes × ℕ)
          → (load_host_key w host_key).outcome ≡ running signer
          → (bind_listener w f set.port).outcome ≡ running bound
          → IsOutput w s (configure w shell path set signer bound).out
      unfolding IsParts
      configure-IsOutput (key, fingerprint) (ip, port) signs bound =
          let (banners, logs, announced, whole, b, l, a) =
            configure-IsParts w f set path ip port fingerprint shell key settled in
          printed (record {
            f = f;
            set = set;
            host_key = host_key;
            path = path;
            key = key;
            fingerprint = fingerprint;
            ip = ip;
            port = port;
            given = given;
            settled = settled;
            located = located;
            found = found;
            signs = signs;
            listens = bind_listener-bound f set.port (ip, port) bound;
            banners = banners;
            logs = logs;
            announced = announced;
            whole = whole;
            is_banner = b;
            is_log = l;
            is_announced = a;
          })

      run_keyed-IsOutput : IsOutput w s (run_keyed w f set shell path host_key).out
      unfolding run_keyed run_bound
      run_keyed-IsOutput =
          quiet-out (load_host_key w host_key) (run_bound w f set shell path) (IsOutput w s)
            (load_host_key-out host_key) (nothing refl)
            (λ signer signs.
              quiet-out (bind_listener w f set.port) (configure w shell path set signer)
                (IsOutput w s) (bind_listener-out f set.port) (nothing refl)
                (λ bound e. configure-IsOutput signer bound signs e))

    run_settled-IsOutput : IsOutput w s (run_settled w f set s).out
    unfolding run_settled run_shelled
    run_settled-IsOutput =
        quiet-out (pick_shell w f s) (λ shell. run_shelled w f set shell s) (IsOutput w s)
          (pick_shell-out f s) (nothing refl)
          (λ shell _.
            quiet-out (host_key_path w f s)
              (λ host_key.
                keys_path w f set.methods >>= λ path. run_keyed w f set shell path host_key)
              (IsOutput w s) (host_key_path-out f s) (nothing refl)
              (λ host_key located.
                quiet-out (keys_path w f set.methods)
                  (λ path. run_keyed w f set shell path host_key) (IsOutput w s)
                  (keys_path-out f set.methods) (nothing refl)
                  (λ path found. run_keyed-IsOutput shell path host_key located found)))

  -- Standard output, up to the call of `Serve`, is empty, or else the listener is bound to the address
  -- and port of the settings, and it is, in this order: at most one banner, only with the six digits
  -- that the program has drawn itself because the methods ask for a password and neither the flag nor
  -- the variable has supplied one; nothing, or the log of the keys file, only if the methods ask for
  -- public keys; and at most one `listening` event, whose fields are the bound address and port, the fingerprint of the host key, the
  -- user name, the process, the methods and the number of keys.
  pub run-printed : (s : S) → IsOutput w s (run w s).out
  unfolding run
  run-printed s =
      quiet-out (or_exit exit_bad_config w.flags)
        (λ f. resolve_settings w f >>= λ set. run_settled w f set s) (IsOutput w s)
        (or_exit-out exit_bad_config w.flags) (nothing refl)
        (λ f e.
          let given = or_exit-running exit_bad_config w.flags f e in
          quiet-out (resolve_settings w f) (λ set. run_settled w f set s) (IsOutput w s)
            (resolve_settings-out w f) (nothing refl)
            (λ set settled. run_settled-IsOutput s f set given settled))
