-- ===== src/Start/Output.antt =====
-- What `run` of cmd/minisshd/main.go prints from the password on, in parts.
use minisshd.Prelude.{
  ℕ, ◌≡◌, refl, ◌⊎◌, inl, inr, Bool, true, false, Option, some, List, [], ◌∷◌, ◌++◌, ◌∙◌, arith,
  Bytes, =s=_iff,
}
use minisshd.Auth.Keyset.{Source, Log}
use minisshd.Auth.Methods.{Methods, contains, method_password, method_publickey, to_string}
use minisshd.Logging.Scrub.{generate_password}
use minisshd.Logging.Events.{call_listening}
use minisshd.Start.Ran.{Out, Ran, banner, event, running, ◌>>=◌}
use minisshd.Start.World.{Flags, World}
use minisshd.Start.Causes.{read_keys}
use minisshd.Start.Run.{
  Settings, resolve_settings, host_key_path, keys_path, load_host_key, pick_password, pubkey_count,
  events_of, check_keys, load_keys, configure,
}
use minisshd.Start.Settled.{IsUnsupplied, loud-out, resolve_settings-IsSettled}

module _ {S K : Type 0} (w : World S K) where
  -- The password that has been drawn, if the flags and the environment ask for one.
  abbrev pub IsBanner : Flags → Settings → List Out → Type 0
  IsBanner f set out =
      (out ≡ [])
      ⊎ ((n : ℕ) × (w.drawn ≡ some n)
          × IsUnsupplied w f
          × (contains set.methods method_password ≡ true)
          × (out ≡ banner (generate_password n) ∷ []))

  -- The log of the keys file.
  abbrev pub IsKeyLog : Settings → Bytes → List Out → Type 0
  IsKeyLog set path out =
      (out ≡ [])
      ⊎ ((contains set.methods method_publickey ≡ true) × (out ≡ events_of w (read_keys w path).2))

  -- The `listening` event.
  abbrev pub IsAnnounced :
      Settings → (path ip : Bytes) (port : ℕ) (fingerprint : Bytes) → List Out → Type 0
  IsAnnounced set path ip port fingerprint out =
      (out ≡ [])
      ⊎ ((source : Option Source) × ((load_keys w path set.methods).outcome ≡ running source)
          × (out
              ≡ event (
                  call_listening ip port fingerprint set.username w.pid (to_string set.methods)
                    (pubkey_count w source))
                ∷ []))

  -- What is printed once the listener is bound, with what the run has resolved until then.
  pub record Printed (s : S) (out : List Out) : Type 0 where
    pub f : Flags
    pub set : Settings
    pub host_key : S × Bytes
    pub path : Bytes
    pub key : K
    pub fingerprint : Bytes
    pub ip : Bytes
    pub port : ℕ
    pub given : w.flags ≡ some f
    pub settled : (resolve_settings w f).outcome ≡ running set
    pub located : (host_key_path w f s).outcome ≡ running host_key
    pub found : (keys_path w f set.methods).outcome ≡ running path
    pub signs : (load_host_key w host_key).outcome ≡ running (key, fingerprint)
    pub listens : (w.parse_ip f.bind ≡ some ip) × (w.listen ip set.port ≡ some port)
    pub banners : List Out
    pub logs : List Out
    pub announced : List Out
    pub whole : out ≡ banners ++ (logs ++ announced)
    pub is_banner : IsBanner f set banners
    pub is_log : IsKeyLog set path logs
    pub is_announced : IsAnnounced set path ip port fingerprint announced

  pub data IsOutput (s : S) (out : List Out) : Type 0 where
    nothing : out ≡ [] → IsOutput s out
    printed : Printed s out → IsOutput s out

  check_keys-out :
      (ms : Methods) (r : Source × Bool × List Log) → (check_keys w ms r).out ≡ events_of w r.2
  check_keys-out ms (source, true, logs) = refl
  check_keys-out ms (source, false, logs) = ground arith

  load_keys-IsKeyLog :
      (path : Bytes) (set : Settings) → IsKeyLog set path (load_keys w path set.methods).out
  unfolding load_keys
  load_keys-IsKeyLog path set = grind (arith, check_keys-out set.methods (read_keys w path))

  pick_password-IsBanner :
      (f : Flags) (set : Settings)
      → (resolve_settings w f).outcome ≡ running set
      → IsBanner f set (pick_password w set.password set.methods).out
  unfolding pick_password
  pick_password-IsBanner f set settled =
      let (known, named, supplied) = resolve_settings-IsSettled w f set settled in
      elim supplied [
        | inl given ↦ grind (arith, =s=_iff set.password [])
        | inr missing ↦ grind (arith, =s=_iff set.password [])
      ]

  module _ (f : Flags) (set : Settings) (path ip : Bytes) (port : ℕ) (fingerprint : Bytes) where
    -- Password, keys and announcement, in that order.
    unfoldable pub IsParts : List Out → Type 0
    IsParts out =
        (banners : List Out) × (logs : List Out) × (announced : List Out) × (out
          ≡ banners ++ (logs ++ announced))
        × IsBanner f set banners
        × IsKeyLog set path logs
        × IsAnnounced set path ip port fingerprint announced

    announced-IsParts :
        (banners logs rest : List Out)
        → IsBanner f set banners
        → IsKeyLog set path logs
        → IsAnnounced set path ip port fingerprint rest
        → IsParts (banners ++ (logs ++ rest))
    unfolding IsParts
    announced-IsParts banners logs rest b l a = (banners, logs, rest, refl, b, l, a)

    abbrev listening : Option Source → List Out
    listening source =
        event (
          call_listening ip port fingerprint set.username w.pid (to_string set.methods)
            (pubkey_count w source))
        ∷ []

    module _ (settled : (resolve_settings w f).outcome ≡ running set) {B : Type 0}
        (finish : Bytes → Option Source → Ran B)
        (ends : (password : Bytes) (source : Option Source)
          → (finish password source).out ≡ listening source) where
      abbrev picked : Ran Bytes
      picked = pick_password w set.password set.methods

      abbrev keys_of : Ran (Option Source)
      keys_of = load_keys w path set.methods

      picked-IsBanner : IsBanner f set picked.out
      picked-IsBanner = pick_password-IsBanner f set settled

      after-keys :
          (password : Bytes) (rest : List Out)
          → ((rest ≡ [])
              ⊎ ((source : Option Source) × (keys_of.outcome ≡ running source)
                  × (rest ≡ (finish password source).out)))
          → IsParts (picked.out ++ (keys_of.out ++ rest))
      after-keys password rest (inl e) =
          announced-IsParts picked.out keys_of.out rest picked-IsBanner
            (load_keys-IsKeyLog path set) (inl e)
      after-keys password rest (inr (source, h, e)) =
          announced-IsParts picked.out keys_of.out rest picked-IsBanner
            (load_keys-IsKeyLog path set) (inr (source, h, e ∙ ends password source))

      after-password :
          (rest : List Out)
          → ((rest ≡ [])
              ⊎ ((password : Bytes) × (picked.outcome ≡ running password)
                  × (rest ≡ (keys_of >>= finish password).out)))
          → IsParts (picked.out ++ rest)
      after-password rest (inl e) =
          rw e (announced-IsParts picked.out [] [] picked-IsBanner (inl refl) (inl refl))
      after-password rest (inr (password, h, e)) =
          let (rest', e', next) = loud-out keys_of (finish password) in
          rw (e, e') (after-keys password rest' next)

      configured-IsParts :
          IsParts (picked >>= λ password. keys_of >>= λ source. finish password source).out
      configured-IsParts =
          let (rest, e, next) =
            loud-out picked (λ password. keys_of >>= λ source. finish password source) in
          rw e (after-password rest next)

    pub configure-IsParts :
        (shell : Bytes) (key : K)
        → (resolve_settings w f).outcome ≡ running set
        → IsParts (configure w shell path set (key, fingerprint) (ip, port)).out
    unfolding configure
    configure-IsParts shell key settled = configured-IsParts settled _ (λ password source. refl)
