-- ===== src/Session/Requests/Invariant.antt =====
-- The state of a session before a child runs (internal/session/service.go), and what it spawns.
use minisshd.Prelude.{◌≡◌, refl, true, false, List, [], ◌∷◌, arith, Bytes, All, inl, inr}
use minisshd.Prelude.Maps.{insert}
use minisshd.Session.Wire.{Read-cases, parse_env_req}
use minisshd.Session.Env.{Env, filter_env}
use minisshd.Session.Env.Allowed.{IsFiltered, IsAllowedEntry, build_env-allowed}
use minisshd.Session.Requests.Rules.{dispatch_elim, pre_spawn_elim}
use minisshd.Session.Requests.{
  Request, Alloc, opened, failed, State, initial, shell, exec, Verdict, leave, Outcome, is_some,
  term_of, open_pty, handle_pty_req, handle_env, handle_window_change, Service, env_of,
  prepare_shell, prepare_exec, handle_exec, handle_subsystem, pre_spawn_dispatch, pre_spawn,
}

-- The client's names have passed the filter, the PTY's ends are there exactly when a pty-req was
-- granted, and no child has been started.
pub record IsValid (st : State) : Type 0 where
  pub filtered : IsFiltered st.env_from_ch
  pub paired : is_some st.pty ≡ is_some st.ends
  pub fresh : st.started ≡ false

insert-IsFiltered :
    (k v : Bytes) (m : Env) → filter_env k ≡ true → IsFiltered m → IsFiltered (insert k v m)
unfolding insert
insert-IsFiltered k v [] f h = (f, tt)
insert-IsFiltered k v ((j, w) ∷ m) f h = ground (arith, insert-IsFiltered k v m f h.1)

initial-IsValid : IsValid initial
initial-IsValid = record { filtered = tt; paired = refl; fresh = refl }

module _ (base : Bytes → Bytes) (s : Service) where
  -- What a spawn is when the session commits: the configured shell with a permitted environment.
  abbrev pub IsConfined : Verdict → Type 0
  IsConfined (leave (shell cmd)) = (cmd.path ≡ s.shell) × All IsAllowedEntry cmd.env
  IsConfined (leave (exec cmd)) = (cmd.path ≡ s.shell) × All IsAllowedEntry cmd.env
  IsConfined _ = Unit

  abbrev IsGood : Outcome → Type 0
  IsGood out = IsValid out.state × IsConfined out.verdict

  module _ {st : State} (v : IsValid st) (req : Request) where
    allowed : All IsAllowedEntry (env_of base s st)
    unfolding env_of
    allowed = build_env-allowed s.host_env st.env_from_ch (term_of st.pty) v.filtered

    pty-IsGood : (alloc : Alloc) → IsGood (handle_pty_req req alloc st)
    unfolding handle_pty_req open_pty
    pty-IsGood (opened ends) = ground arith
    pty-IsGood (failed e) = ground arith

    env-IsGood : IsGood (handle_env req st)
    unfolding handle_env
    env-IsGood = elim (Read-cases (parse_env_req req.payload)) [
      | inl (e, h) ↦ ground (arith, insert-IsFiltered e.name e.value st.env_from_ch)
      | inr (inl (e, h)) ↦ ground arith
      | inr (inr h) ↦ ground arith
    ]

    window-IsGood : IsGood (handle_window_change req st)
    unfolding handle_window_change
    window-IsGood = ground arith

    exec-IsGood : IsGood (handle_exec base s req st)
    unfolding handle_exec prepare_exec
    exec-IsGood = ground (arith, allowed)

    subsystem-IsGood : IsGood (handle_subsystem base s req st)
    unfolding handle_subsystem
    subsystem-IsGood = ground arith

    dispatch-IsGood : (alloc : Alloc) → IsGood (pre_spawn_dispatch base s req alloc st)
    unfolding prepare_shell
    dispatch-IsGood alloc =
        dispatch_elim base s IsGood req alloc st (pty-IsGood alloc) env-IsGood window-IsGood
          (v, (refl, allowed)) exec-IsGood subsystem-IsGood (λ es. (v, tt))

  -- Whatever requests come, the state stays well-formed: only names that pass the filter are kept, a
  -- PTY is recorded exactly with its two ends, and no child has started. And if the session commits
  -- to a shell or a command, the program is the configured shell, and every variable of its
  -- environment is one of the permitted names.
  pub pre_spawn-IsConfined :
      (reqs : List (Request × Alloc))
      → (let out = pre_spawn base s reqs initial [] in IsValid out.state × IsConfined out.verdict)
  pre_spawn-IsConfined reqs =
      pre_spawn_elim base s IsValid IsConfined tt (λ req alloc st v. dispatch-IsGood v req alloc)
        reqs initial [] initial-IsValid
