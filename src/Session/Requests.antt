-- ===== src/Session/Requests.antt =====
-- The requests before a child runs: `sessionState`, `preSpawnDispatch` with its handlers, and the
-- first phase of `Handle`, of internal/session/service.go. What a handler does to the outside is
-- recorded as a list of effects. A PTY's two ends are numbers; what the allocator answers comes with
-- each request. The package's `filepath.Base` is a parameter.
pub mod Invariant
pub mod Rules
pub mod Replies
use minisshd.Prelude.{
  ℕ, Bool, true, false, ◌&&◌, ◌||◌, not, Option, none, some, List, [], ◌∷◌, ◌++◌, if◌then◌else◌,
  Bytes, codes, ◌=s=◌,
}
use minisshd.Prelude.Maps.{insert}
use minisshd.Session.Wire.{
  Read, PtyReq, WinChange, EnvReq, parse_pty_req, parse_window_change, parse_env_req,
  parse_exec_command, parse_subsystem_name,
}
use minisshd.Session.Env.{Env, filter_env, build_env}

pub record Request : Type 0 where
  pub kind : Bytes
  pub payload : Bytes
  pub want_reply : Bool

pub record Pty : Type 0 where
  pub master : ℕ
  pub slave : ℕ

-- What `allocPTY` answers.
pub data Alloc : Type 0 where
  opened : Pty → Alloc
  failed : Bytes → Alloc

pub record State : Type 0 where
  pub pty : Option PtyReq
  pub ends : Option Pty  -- ptyMaster and ptySlave
  pub env_from_ch : Env
  pub started : Bool

abbrev pub initial : State
initial = record { pty = none; ends = none; env_from_ch = []; started = false }

pub data Effect : Type 0 where
  reply : Bool → Effect
  log_error : Bytes → Effect
  log_reject : Bytes → Effect
  set_size : (master cols rows width_px height_px : ℕ) → Effect
  close : ℕ → Effect

-- `exec.Cmd`: the program, its arguments with argv[0], and its environment.
pub record Cmd : Type 0 where
  pub path : Bytes
  pub args : List Bytes
  pub env : List Bytes

pub data Spawn : Type 0 where
  shell : Cmd → Spawn
  exec : Cmd → Spawn
  sftp : Spawn

-- Whether the loop goes on, leaves with a spawn, or has panicked in a parser.
pub data Verdict : Type 0 where
  go_on : Verdict
  leave : Spawn → Verdict
  panicked : Verdict

pub record Outcome : Type 0 where
  pub state : State
  pub effects : List Effect
  pub verdict : Verdict

abbrev pub continue : State → List Effect → Outcome
continue st es = record { state = st; effects = es; verdict = go_on }

abbrev pub reply_if : Bool → Bool → List Effect
reply_if want ok = if want then reply ok ∷ [] else []

abbrev pub is_some : {A : Type 0} → Option A → Bool
is_some none = false
is_some (some a) = true

abbrev pub crash : State → Outcome
crash st = record { state = st; effects = []; verdict = panicked }

unfoldable pub open_pty : State → PtyReq → Alloc → Outcome
open_pty st pr (failed e) =
    continue st (reply false ∷ log_error (codes "pty allocation failed: " ++ e) ∷ [])
open_pty st pr (opened ends) =
    continue (record st { pty = some pr; ends = some ends })
      (set_size ends.master pr.cols pr.rows pr.width_px pr.height_px ∷ reply true ∷ [])

unfoldable pub handle_pty_req : Request → Alloc → State → Outcome
handle_pty_req req alloc st =
    if st.started
    then continue st (reply false ∷ [])
    else (if is_some st.pty
        then continue st (reply false ∷ [])
        else (elim (parse_pty_req req.payload) [
          | Read.panic ↦ crash st
          | Read.bad e ↦ continue st (reply false ∷ log_error (codes "pty-req: " ++ e) ∷ [])
          | Read.ok pr ↦ open_pty st pr alloc
        ]))

unfoldable pub handle_env : Request → State → Outcome
handle_env req st =
    if st.started then continue st (reply false ∷ []) else (elim (parse_env_req req.payload) [
      | Read.panic ↦ crash st
      | Read.bad e ↦ continue st (reply true ∷ [])
      | Read.ok e ↦
          if filter_env e.name
          then continue (record st { env_from_ch = insert e.name e.value st.env_from_ch })
              (reply true ∷ [])
          else continue st (reply true ∷ [])
    ])

abbrev pub resize : Option Pty → WinChange → List Effect
resize none wc = []
resize (some ends) wc = set_size ends.master wc.cols wc.rows wc.width_px wc.height_px ∷ []

unfoldable pub handle_window_change : Request → State → Outcome
handle_window_change req st = elim (parse_window_change req.payload) [
  | Read.panic ↦ crash st
  | Read.bad e ↦ continue st (reply_if req.want_reply false)
  | Read.ok wc ↦ continue st (resize st.ends wc ++ reply_if req.want_reply true)
]

-- `Service`: the shell and the server's environment.
pub record Service : Type 0 where
  pub shell : Bytes
  pub host_env : List Bytes

abbrev pub term_of : Option PtyReq → Option Bytes
term_of none = none
term_of (some pr) = some pr.term

module _ (base : Bytes → Bytes) (s : Service) where
  unfoldable pub env_of : State → List Bytes
  env_of st = build_env s.host_env st.env_from_ch (term_of st.pty)

  unfoldable pub prepare_shell : State → Cmd
  prepare_shell st = record { path = s.shell; args = (b'-' ∷ base s.shell) ∷ []; env = env_of st }

  unfoldable pub prepare_exec : State → Bytes → Cmd
  prepare_exec st command =
      let plain = codes "-c" ∷ command ∷ [] in
      let args = if is_some st.pty then codes "-i" ∷ plain else plain in
      record { path = s.shell; args = base s.shell ∷ args; env = env_of st }

  abbrev pub start : State → Spawn → Outcome
  start st sp = record { state = st; effects = []; verdict = leave sp }

  unfoldable pub handle_exec : Request → State → Outcome
  handle_exec req st = elim (parse_exec_command req.payload) [
    | Read.panic ↦ crash st
    | Read.bad e ↦ continue st (reply false ∷ log_error (codes "exec: " ++ e) ∷ [])
    | Read.ok command ↦ start st (exec (prepare_exec st command))
  ]

  unfoldable pub handle_subsystem : Request → State → Outcome
  handle_subsystem req st = elim (parse_subsystem_name req.payload) [
    | Read.panic ↦ crash st
    | Read.bad e ↦ continue st (reply false ∷ log_reject (codes "subsystem") ∷ [])
    | Read.ok name ↦
        if name =s= codes "sftp"
        then start st sftp
        else continue st (reply false ∷ log_reject (codes "subsystem") ∷ [])
  ]

  unfoldable pub pre_spawn_dispatch : Request → Alloc → State → Outcome
  pre_spawn_dispatch req alloc st =
      if req.kind =s= codes "pty-req"
      then handle_pty_req req alloc st
      else if req.kind =s= codes "env"
      then handle_env req st
      else if req.kind =s= codes "window-change"
      then handle_window_change req st
      else if req.kind =s= codes "shell"
      then start st (shell (prepare_shell st))
      else if req.kind =s= codes "exec"
      then handle_exec req st
      else if req.kind =s= codes "subsystem"
      then handle_subsystem req st
      else if req.kind =s= codes "signal"
      then continue st []
      else if req.kind =s= codes "x11-req"
      then continue st (reply_if req.want_reply false ++ log_reject (codes "x11") ∷ [])
      else if req.kind =s= codes "auth-agent-req@openssh.com"
      then continue st (reply_if req.want_reply false ++ log_reject (codes "agent") ∷ [])
      else continue st (reply_if req.want_reply false)

  -- The loop over the requests, with the effects so far; it ends when the stream does.
  unfoldable pub pre_spawn : List (Request × Alloc) → State → List Effect → Outcome
  pre_spawn [] st es = continue st es
  pre_spawn ((req, alloc) ∷ reqs) st es =
      let out = pre_spawn_dispatch req alloc st in
      elim out.verdict [
        | go_on ↦ pre_spawn reqs out.state (es ++ out.effects)
        | other ↦ record { state = out.state; effects = es ++ out.effects; verdict = other }
      ]

  -- A session that ends without a spawn closes the PTY that it has.
  abbrev pub close_ends : Option Pty → List Effect
  close_ends none = []
  close_ends (some ends) = close ends.master ∷ close ends.slave ∷ []

  abbrev pub finish : Outcome → Outcome
  finish out = elim out.verdict [
    | go_on ↦ record out { effects = out.effects ++ close_ends out.state.ends }
    | _ ↦ out
  ]

  unfoldable pub first_phase : List (Request × Alloc) → Outcome
  first_phase reqs = finish (pre_spawn reqs initial [])
