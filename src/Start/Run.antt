-- ===== src/Start/Run.antt =====
-- `run` of cmd/minisshd/main.go up to the call of `Serve`, one function for each group of its steps,
-- in the source's order.
use minisshd.Prelude.{
  ℕ, ℤ, pos, negsuc, Bool, true, false, not, ◌&&◌, Option, none, some, List, [], ◌∷◌, ltb, ◌==◌,
  if◌then◌else◌, Bytes, codes, ◌=s=◌,
}
use minisshd.HostKey.Load
use minisshd.HostKey.Load.{load_or_generate}
use minisshd.Auth.Credentials.{Credentials, new_credentials}
use minisshd.Auth.Keyset
use minisshd.Auth.Keyset.{Source, Log, count}
use minisshd.Auth.Methods
use minisshd.Auth.Methods.{
  Methods, contains, method_password, method_publickey, to_string, resolve_methods,
}
use minisshd.Auth.Resolve
use minisshd.Auth.Resolve.{
  Home, directory, unknown, resolve_password_strict, resolve_username, resolve_authorized_keys_path,
}
use minisshd.Logging.Line.{Format}
use minisshd.Logging.Scrub.{scrubs_of, generate_password}
use minisshd.Logging.Events.{call_listening}
use minisshd.Start.Ran.{
  Out, banner, key_event, event, stopped, Ran, pure, exit, write, ◌>>=◌, exit_internal_error,
  exit_bad_config, exit_bind_failure, exit_fs_failure,
}
use minisshd.Start.Settings.{resolve_forward_max, parse_format, validate_shell, ensure_minisshd_dir}
use minisshd.Start.World.{Flags, World, is_set, getenv}

-- The settings that need neither the file system nor the network.
pub record Settings : Type 0 where
  pub port : ℕ
  pub forward_max : ℕ
  pub password : Bytes
  pub methods : Methods
  pub username : Bytes
  pub format : Format

-- What `server.Config` is built from, the logger's scrubs and format included.
pub record Config (K : Type 0) : Type 0 where
  pub signer : K
  pub credentials : Credentials
  pub shell : Bytes
  pub scrubs : List Bytes
  pub format : Format
  pub methods : Methods
  pub keyset_source : Option Source
  pub forward_max : ℕ

abbrev pub or_exit : {A : Type 0} → ℕ → Option A → Ran A
or_exit code none = exit code
or_exit code (some a) = pure a

abbrev pub check_port : ℤ → Option ℕ
check_port (pos n) = if ltb 65535 n then none else some n
check_port (negsuc n) = none

abbrev pub resolved : Resolve.Result → Ran Bytes
resolved (Resolve.ok v) = pure v
resolved (Resolve.err e) = exit exit_bad_config

abbrev pub methods_of : Methods.Result Methods → Ran Methods
methods_of (Methods.ok ms) = pure ms
methods_of (Methods.err e) = exit exit_bad_config

module _ {S K : Type 0} (w : World S K) where
  -- `user.Current`, or else $USER
  abbrev pub os_user : Bytes
  os_user = elim w.current_user [ some name ↦ name | none ↦ getenv w (codes "USER") ]

  unfoldable pub resolve_settings : Flags → Ran Settings
  resolve_settings f = do
    port ← or_exit exit_bad_config (check_port f.port)
    forward_max ← or_exit exit_bad_config (
        resolve_forward_max w.atoi f.forward_max f.forward_max_set
          (getenv w (codes "MINISSHD_FORWARD_MAX")))
    password ← resolved (
        resolve_password_strict f.pass f.pass_set (getenv w (codes "MINISSHD_PASS"))
          (is_set w (codes "MINISSHD_PASS")))
    methods ← methods_of (
        resolve_methods w.trim f.auth f.auth_set (getenv w (codes "MINISSHD_AUTH"))
          (is_set w (codes "MINISSHD_AUTH")))
    username ← resolved (resolve_username f.user (getenv w (codes "MINISSHD_USER")) os_user)
    format ← or_exit exit_bad_config (
        parse_format f.log_format f.log_format_set (getenv w (codes "MINISSHD_LOG_FORMAT"))
          (is_set w (codes "MINISSHD_LOG_FORMAT")))
    pure (record {
      port = port;
      forward_max = forward_max;
      password = password;
      methods = methods;
      username = username;
      format = format;
    })

  unfoldable pub pick_shell : Flags → S → Ran Bytes
  pick_shell f s =
      let from_env = getenv w (codes "SHELL") in
      let path =
        if f.shell =s= []
        then (if from_env =s= [] then codes "/bin/zsh" else from_env)
        else f.shell in
      if validate_shell w.fs w.eval_symlinks path s then pure path else exit exit_bad_config

  -- The default path of the host key, with its directory.
  abbrev pub default_host_key : Home → S → Ran (S × Bytes)
  default_host_key (unknown e) s = exit exit_fs_failure
  default_host_key (directory hd) s =
      let path = w.join (hd ∷ codes ".minisshd" ∷ codes "host_key" ∷ []) in
      let (s', ok) = ensure_minisshd_dir w.fs (w.dir path) s in
      if ok then pure (s', path) else exit exit_fs_failure

  unfoldable pub host_key_path : Flags → S → Ran (S × Bytes)
  host_key_path f s = if f.host_key_set then pure (s, f.host_key) else default_host_key w.home s

  unfoldable pub keys_path : Flags → Methods → Ran Bytes
  keys_path f methods =
      if contains methods method_publickey
      then resolved (
          resolve_authorized_keys_path w.join f.authorized_keys f.authorized_keys_set
            (getenv w (codes "MINISSHD_AUTHORIZED_KEYS"))
            (is_set w (codes "MINISSHD_AUTHORIZED_KEYS")) (getenv w (codes "XDG_CONFIG_HOME"))
            w.home)
      else pure []

  abbrev pub loaded : Load.Result K → Ran (K × Bytes)
  loaded (Load.ok key fp) = pure (key, fp)
  loaded (Load.err e) = exit exit_fs_failure

  unfoldable pub load_host_key : S × Bytes → Ran (K × Bytes)
  load_host_key (s, path) = loaded (load_or_generate w.fs w.keys w.dir path s).1

  -- The IP as text, and the port that the listener has.
  unfoldable pub bind_listener : Flags → ℕ → Ran (Bytes × ℕ)
  bind_listener f port = do
    ip ← or_exit exit_bad_config (w.parse_ip f.bind)
    bound ← or_exit exit_bind_failure (w.listen ip port)
    pure (ip, bound)

  abbrev pub print_password : Option ℕ → Ran Bytes
  print_password none = exit exit_internal_error
  print_password (some n) = write (banner (generate_password n) ∷ []) (generate_password n)

  abbrev pub random_password : Option Bytes → Ran Bytes
  random_password none = exit exit_internal_error
  random_password (some bytes) = pure (w.hex bytes)

  unfoldable pub pick_password : Bytes → Methods → Ran Bytes
  pick_password password methods =
      if password =s= [] && contains methods method_password
      then print_password w.drawn
      else (if not (contains methods method_password) && password =s= []
          then random_password w.sentinel
          else pure password)

  abbrev pub events_of : List Log → List Out
  events_of [] = []
  events_of (l ∷ ls) = key_event l ∷ events_of ls

  -- After `Load`; a publickey-only server without a key is refused.
  abbrev pub check_keys : Methods → Source × Bool × List Log → Ran (Option Source)
  check_keys methods (source, true, logs) = record {
    out = events_of logs;
    outcome = stopped exit_fs_failure;
  }
  check_keys methods (source, false, logs) =
      if not (contains methods method_password) && count source.cur == 0
      then record { out = events_of logs; outcome = stopped exit_bad_config }
      else write (events_of logs) (some source)

  unfoldable pub load_keys : Bytes → Methods → Ran (Option Source)
  load_keys path methods =
      if contains methods method_publickey
      then check_keys methods (
          Keyset.load w.sha256 w.key_fingerprint w.trim_line w.parse_line (w.keys_file path)
            (record { path = path; cur = none }))
      else pure none

  abbrev pub pubkey_count : Option Source → ℕ
  pubkey_count none = 0
  pubkey_count (some source) = count source.cur

  -- From the password to the configuration of the server, with the `listening` event.
  unfoldable pub configure :
      (shell keys_path : Bytes) → Settings → K × Bytes → Bytes × ℕ → Ran (Config K)
  configure shell path set (signer, fingerprint) (ip, bound) = do
    password ← pick_password set.password set.methods
    source ← load_keys path set.methods
    write
        (event (
            call_listening ip bound fingerprint set.username w.pid (to_string set.methods)
              (pubkey_count source))
          ∷ [])
        (record {
          signer = signer;
          credentials = new_credentials w.sha256 set.username password;
          shell = shell;
          scrubs = scrubs_of password (w.marshal_string password);
          format = set.format;
          methods = set.methods;
          keyset_source = source;
          forward_max = set.forward_max;
        })

  -- From the bind on.
  unfoldable pub run_bound :
      Flags → Settings → (shell keys_path : Bytes) → K × Bytes → Ran (Config K)
  run_bound f set shell path signer = do
    bound ← bind_listener f set.port
    configure shell path set signer bound

  -- From the host key on.
  unfoldable pub run_keyed :
      Flags → Settings → (shell keys_path : Bytes) → S × Bytes → Ran (Config K)
  run_keyed f set shell path host_key = do
    signer ← load_host_key host_key
    run_bound f set shell path signer

  -- The host key's path, with its directory, and the path of the keys file.
  unfoldable pub run_shelled : Flags → Settings → Bytes → S → Ran (Config K)
  run_shelled f set shell s = do
    host_key ← host_key_path f s
    path ← keys_path f set.methods
    run_keyed f set shell path host_key

  unfoldable pub run_settled : Flags → Settings → S → Ran (Config K)
  run_settled f set s = do shell ← pick_shell f s; run_shelled f set shell s

  unfoldable pub run : S → Ran (Config K)
  run s = do f ← or_exit exit_bad_config w.flags; set ← resolve_settings f; run_settled f set s
