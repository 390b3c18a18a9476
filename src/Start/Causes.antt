-- ===== src/Start/Causes.antt =====
-- What the exit codes of cmd/minisshd/main.go stand for, and the steps of a run that may end it.
use minisshd.Prelude.{
  ℕ, ◌≡◌, refl, ap, sym, Bool, true, false, not, ◌&&◌, Option, none, some, List, [], ◌∷◌, Bytes,
  codes, ◌=s=◌, if◌then◌else◌,
}
use minisshd.HostKey.Load
use minisshd.HostKey.Load.{load_or_generate}
use minisshd.Auth.Keyset
use minisshd.Auth.Keyset.{Source, Log, count}
use minisshd.Auth.Methods
use minisshd.Auth.Methods.{contains, method_password, method_publickey, resolve_methods}
use minisshd.Auth.Resolve
use minisshd.Auth.Resolve.{
  directory, unknown, resolve_password_strict, resolve_username, resolve_authorized_keys_path,
}
use minisshd.Start.Ran.{
  Out, Outcome, running, stopped, Ran, write, after, ◌>>=◌, exit_internal_error, exit_bad_config,
  exit_bind_failure, exit_fs_failure,
}
use minisshd.Start.Settings.{resolve_forward_max, parse_format, validate_shell, ensure_minisshd_dir}
use minisshd.Start.World.{Flags, World, is_set, getenv}
use minisshd.Start.Run.{Settings, or_exit, check_port, os_user, resolve_settings, host_key_path}

code-eq : {A : Type 0} {a b : ℕ} → ◌≡◌ {A = Outcome A} (stopped a) (stopped b) → a ≡ b
code-eq h = ap (λ o. elim o [ running x ↦ 0 | stopped c ↦ c ]) h

module _ {S K : Type 0} (w : World S K) where
  abbrev pub read_keys : Bytes → Source × Bool × List Log
  read_keys path =
      Keyset.load w.sha256 w.key_fingerprint w.trim_line w.parse_line (w.keys_file path)
        (record { path = path; cur = none })

  -- The path of the shell: the flag, $SHELL or zsh.
  abbrev pub shell_of : Flags → Bytes
  shell_of f =
      let from_env = getenv w (codes "SHELL") in
      if f.shell =s= [] then (if from_env =s= [] then codes "/bin/zsh" else from_env) else f.shell

  abbrev pub keys_path_of : Flags → Resolve.Result
  keys_path_of f =
      resolve_authorized_keys_path w.join f.authorized_keys f.authorized_keys_set
        (getenv w (codes "MINISSHD_AUTHORIZED_KEYS")) (is_set w (codes "MINISSHD_AUTHORIZED_KEYS"))
        (getenv w (codes "XDG_CONFIG_HOME")) w.home

  abbrev pub default_host_key_of : Bytes → Bytes
  default_host_key_of hd = w.join (hd ∷ codes ".minisshd" ∷ codes "host_key" ∷ [])

  -- One of the settings that the flags and the environment give is refused.
  pub data Refused (f : Flags) : Type 0 where
    port : check_port f.port ≡ none → Refused f
    forward_max :
        resolve_forward_max w.atoi f.forward_max f.forward_max_set
            (getenv w (codes "MINISSHD_FORWARD_MAX"))
          ≡ none
        → Refused f
    password :
        (e : Resolve.Error)
        → resolve_password_strict f.pass f.pass_set
            (getenv w (codes "MINISSHD_PASS"))
            (is_set w (codes "MINISSHD_PASS"))
          ≡ Resolve.err e
        → Refused f
    methods :
        (e : Methods.Error)
        → resolve_methods w.trim f.auth f.auth_set
            (getenv w (codes "MINISSHD_AUTH"))
            (is_set w (codes "MINISSHD_AUTH"))
          ≡ Methods.err e
        → Refused f
    user :
        (e : Resolve.Error)
        → resolve_username f.user (getenv w (codes "MINISSHD_USER")) (os_user w) ≡ Resolve.err e
        → Refused f
    format :
        parse_format f.log_format f.log_format_set
            (getenv w (codes "MINISSHD_LOG_FORMAT"))
            (is_set w (codes "MINISSHD_LOG_FORMAT"))
          ≡ none
        → Refused f

  -- What has failed in the run that starts in `s`, with its flags and its settings, and the code.
  pub data Cause (s : S) : ℕ → Type 0 where
    bad_flags : w.flags ≡ none → Cause s exit_bad_config
    bad_setting : (f : Flags) → w.flags ≡ some f → Refused f → Cause s exit_bad_config
    bad_shell :
        (f : Flags)
        → w.flags ≡ some f
        → validate_shell w.fs w.eval_symlinks (shell_of f) s ≡ false
        → Cause s exit_bad_config
    home_unknown :
        (f : Flags) (e : Bytes)
        → w.flags ≡ some f
        → f.host_key_set ≡ false
        → w.home ≡ unknown e
        → Cause s exit_fs_failure
    no_directory :
        (f : Flags) (hd : Bytes)
        → w.flags ≡ some f
        → f.host_key_set ≡ false
        → w.home ≡ directory hd
        → (ensure_minisshd_dir w.fs (w.dir (default_host_key_of hd)) s).1 ≡ false
        → Cause s exit_fs_failure
    no_keys_path :
        (f : Flags) (set : Settings) (e : Resolve.Error)
        → w.flags ≡ some f
        → (resolve_settings w f).outcome ≡ running set
        → contains set.methods method_publickey ≡ true
        → keys_path_of f ≡ Resolve.err e
        → Cause s exit_bad_config
    no_host_key :
        (f : Flags) (s' : S) (path : Bytes) (e : Load.Error)
        → w.flags ≡ some f
        → (host_key_path w f s).outcome ≡ running (s', path)
        → (load_or_generate w.fs w.keys w.dir path s').1 ≡ Load.err e
        → Cause s exit_fs_failure
    bad_bind : (f : Flags) → w.flags ≡ some f → w.parse_ip f.bind ≡ none → Cause s exit_bad_config
    bind_refused :
        (f : Flags) (set : Settings) (ip : Bytes)
        → w.flags ≡ some f
        → (resolve_settings w f).outcome ≡ running set
        → w.parse_ip f.bind ≡ some ip
        → w.listen ip set.port ≡ none
        → Cause s exit_bind_failure
    no_password :
        (f : Flags) (set : Settings)
        → w.flags ≡ some f
        → (resolve_settings w f).outcome ≡ running set
        → (set.password =s= [] && contains set.methods method_password) ≡ true
        → w.drawn ≡ none
        → Cause s exit_internal_error
    no_sentinel :
        (f : Flags) (set : Settings)
        → w.flags ≡ some f
        → (resolve_settings w f).outcome ≡ running set
        → (not (contains set.methods method_password) && set.password =s= []) ≡ true
        → w.sentinel ≡ none
        → Cause s exit_internal_error
    no_keys_file :
        (f : Flags) (set : Settings) (path : Bytes)
        → w.flags ≡ some f
        → (resolve_settings w f).outcome ≡ running set
        → contains set.methods method_publickey ≡ true
        → keys_path_of f ≡ Resolve.ok path
        → (read_keys path).1 ≡ true
        → Cause s exit_fs_failure
    no_key :
        (f : Flags) (set : Settings) (path : Bytes)
        → w.flags ≡ some f
        → (resolve_settings w f).outcome ≡ running set
        → contains set.methods method_publickey ≡ true
        → contains set.methods method_password ≡ false
        → keys_path_of f ≡ Resolve.ok path
        → count (read_keys path).0.cur ≡ 0
        → Cause s exit_bad_config

module _ {S K : Type 0} (w : World S K) (s : S) where
  unfoldable pub IsCaused : {A : Type 0} → Ran A → Type 0
  IsCaused r = (code : ℕ) → r.outcome ≡ stopped code → Cause w s code

  pub stop-IsCaused :
      (A : Type 0) (out : List Out) (c : ℕ)
      → Cause w s c
      → IsCaused {A = A} (record { out = out; outcome = stopped c })
  unfolding IsCaused
  stop-IsCaused A out c cause code h = rw (sym (code-eq h)) cause

  pub write-IsCaused : {A : Type 0} (out : List Out) (a : A) → IsCaused (write out a)
  unfolding IsCaused
  write-IsCaused out a code h = cc

  pub after-IsCaused :
      {A B : Type 0} (out : List Out) (o : Outcome A) (f : A → Ran B)
      → ((code : ℕ) → o ≡ stopped code → Cause w s code)
      → ((a : A) → o ≡ running a → IsCaused (f a))
      → IsCaused (after out o f)
  unfolding IsCaused
  after-IsCaused out (running a) f first next code h = next a refl code h
  after-IsCaused out (stopped c) f first next code h = first code (ap stopped (code-eq h))

  pub bind-IsCaused :
      {A B : Type 0} (m : Ran A) (f : A → Ran B)
      → IsCaused m
      → ((a : A) → m.outcome ≡ running a → IsCaused (f a))
      → IsCaused (m >>= f)
  unfolding IsCaused
  bind-IsCaused m f first next = after-IsCaused m.out m.outcome f first next

  pub or_exit-IsCaused :
      {A : Type 0} (code : ℕ) (o : Option A)
      → (o ≡ none → Cause w s code)
      → IsCaused (or_exit code o)
  or_exit-IsCaused code none cause = stop-IsCaused _ [] code (cause refl)
  or_exit-IsCaused code (some a) cause = write-IsCaused [] a

  pub if-IsCaused :
      {A : Type 0} (b : Bool) (r t : Ran A)
      → (b ≡ true → IsCaused r)
      → (b ≡ false → IsCaused t)
      → IsCaused (if b then r else t)
  if-IsCaused true r t x y = x refl
  if-IsCaused false r t x y = y refl
