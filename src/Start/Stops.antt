-- ===== src/Start/Stops.antt =====
-- Why `run` of cmd/minisshd/main.go exits over its settings, its shell and its host key.
use minisshd.Prelude.{ℕ, ◌≡◌, refl, false, some, [], Bytes, codes}
use minisshd.HostKey.Load
use minisshd.HostKey.Load.{load_or_generate}
use minisshd.Auth.Methods
use minisshd.Auth.Methods.{contains, method_password, method_publickey, resolve_methods}
use minisshd.Auth.Resolve
use minisshd.Auth.Resolve.{Home, directory, unknown, resolve_password_strict, resolve_username}
use minisshd.Start.Ran.{running, pure, exit, ◌>>=◌, exit_bad_config, exit_fs_failure}
use minisshd.Start.Settings.{resolve_forward_max, parse_format, validate_shell, ensure_minisshd_dir}
use minisshd.Start.Causes.{
  Refused, port, forward_max, password, methods, user, format, Cause, bad_setting, bad_shell,
  home_unknown, no_directory, no_host_key, shell_of, default_host_key_of, IsCaused, stop-IsCaused,
  write-IsCaused, bind-IsCaused, or_exit-IsCaused, if-IsCaused,
}
use minisshd.Start.World.{Flags, World, is_set, getenv}
use minisshd.Start.Run.{
  Settings, or_exit, check_port, resolved, methods_of, os_user, resolve_settings, pick_shell,
  default_host_key, host_key_path, loaded, load_host_key,
}

module _ {S K : Type 0} (w : World S K) (s : S) where
  pub resolved-IsCaused :
      (r : Resolve.Result)
      → ((e : Resolve.Error) → r ≡ Resolve.err e → Cause w s exit_bad_config)
      → IsCaused w s (resolved r)
  resolved-IsCaused (Resolve.ok v) cause = write-IsCaused w s [] v
  resolved-IsCaused (Resolve.err e) cause = stop-IsCaused w s _ [] exit_bad_config (cause e refl)

  methods_of-IsCaused :
      (r : Methods.Result Methods.Methods)
      → ((e : Methods.Error) → r ≡ Methods.err e → Cause w s exit_bad_config)
      → IsCaused w s (methods_of r)
  methods_of-IsCaused (Methods.ok ms) cause = write-IsCaused w s [] ms
  methods_of-IsCaused (Methods.err e) cause = stop-IsCaused w s _ [] exit_bad_config (cause e refl)

  module _ (f : Flags) (given : w.flags ≡ some f) where
    refused : Refused w f → Cause w s exit_bad_config
    refused r = bad_setting f given r

    pub resolve_settings-IsCaused : IsCaused w s (resolve_settings w f)
    unfolding resolve_settings
    resolve_settings-IsCaused =
        bind-IsCaused w s (or_exit exit_bad_config (check_port f.port)) _
          (or_exit-IsCaused w s _ _ (λ e. refused (port e)))
          (λ number _.
            bind-IsCaused w s
              (or_exit exit_bad_config (
                resolve_forward_max w.atoi f.forward_max f.forward_max_set
                  (getenv w (codes "MINISSHD_FORWARD_MAX"))))
              _ (or_exit-IsCaused w s _ _ (λ e. refused (forward_max e)))
              (λ most _.
                bind-IsCaused w s
                  (resolved (
                    resolve_password_strict f.pass f.pass_set (getenv w (codes "MINISSHD_PASS"))
                      (is_set w (codes "MINISSHD_PASS"))))
                  _ (resolved-IsCaused _ (λ x e. refused (password x e)))
                  (λ word _. named-IsCaused number most word)))
      where
        named-IsCaused :
            (number most : ℕ) (word : Bytes)
            → IsCaused w s {A = Settings} (
                methods_of (
                  resolve_methods w.trim f.auth f.auth_set
                    (getenv w (codes "MINISSHD_AUTH"))
                    (is_set w (codes "MINISSHD_AUTH")))
                >>= λ ms.
                    resolved
                      (resolve_username f.user (getenv w (codes "MINISSHD_USER")) (os_user w))
                    >>= λ name.
                        or_exit exit_bad_config (
                          parse_format f.log_format f.log_format_set
                            (getenv w (codes "MINISSHD_LOG_FORMAT"))
                            (is_set w (codes "MINISSHD_LOG_FORMAT")))
                        >>= λ form. pure (record {
                          port = number;
                          forward_max = most;
                          password = word;
                          methods = ms;
                          username = name;
                          format = form;
                        }))
        named-IsCaused number most word =
            bind-IsCaused w s (methods_of _) _
              (methods_of-IsCaused _ (λ x e. refused (methods x e)))
              (λ ms _.
                bind-IsCaused w s (resolved _) _ (resolved-IsCaused _ (λ x e. refused (user x e)))
                  (λ name _.
                    bind-IsCaused w s (or_exit exit_bad_config _) _
                      (or_exit-IsCaused w s _ _ (λ e. refused (format e)))
                      (λ form _. write-IsCaused w s [] _)))

    pub pick_shell-IsCaused : IsCaused w s (pick_shell w f s)
    unfolding pick_shell
    pick_shell-IsCaused =
        if-IsCaused w s (validate_shell w.fs w.eval_symlinks (shell_of w f) s) (pure (shell_of w f))
          (exit exit_bad_config) (λ e. write-IsCaused w s [] (shell_of w f))
          (λ e. stop-IsCaused w s _ [] exit_bad_config (bad_shell f given e))

    default_host_key-IsCaused :
        (h : Home) → f.host_key_set ≡ false → w.home ≡ h → IsCaused w s (default_host_key w h s)
    default_host_key-IsCaused (unknown e) unset p =
        stop-IsCaused w s _ [] _ (home_unknown f e given unset p)
    default_host_key-IsCaused (directory hd) unset p =
        let path = default_host_key_of w hd in
        let made = ensure_minisshd_dir w.fs (w.dir path) s in
        if-IsCaused w s made.1 (pure (made.0, path)) (exit exit_fs_failure)
          (λ e. write-IsCaused w s [] (made.0, path))
          (λ e. stop-IsCaused w s _ [] exit_fs_failure (no_directory f hd given unset p e))

    pub host_key_path-IsCaused : IsCaused w s (host_key_path w f s)
    unfolding host_key_path
    host_key_path-IsCaused =
        if-IsCaused w s f.host_key_set (pure (s, f.host_key)) (default_host_key w w.home s)
          (λ e. write-IsCaused w s [] (s, f.host_key))
          (λ e. default_host_key-IsCaused w.home e refl)

    loaded-IsCaused :
        (s' : S) (path : Bytes) (r : Load.Result K)
        → (host_key_path w f s).outcome ≡ running (s', path)
        → (load_or_generate w.fs w.keys w.dir path s').1 ≡ r
        → IsCaused w s (loaded w r)
    loaded-IsCaused s' path (Load.ok key fp) found e = write-IsCaused w s [] (key, fp)
    loaded-IsCaused s' path (Load.err x) found e =
        stop-IsCaused w s _ [] exit_fs_failure (no_host_key f s' path x given found e)

    pub load_host_key-IsCaused :
        (p : S × Bytes)
        → (host_key_path w f s).outcome ≡ running p
        → IsCaused w s (load_host_key w p)
    unfolding load_host_key
    load_host_key-IsCaused (s', path) found = loaded-IsCaused s' path _ found refl
