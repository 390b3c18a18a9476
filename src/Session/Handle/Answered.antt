-- ===== src/Session/Handle/Answered.antt =====
-- How `Handle` of internal/session/service.go answers the request that commits its session.
use minisshd.Prelude.{
  ℕ, ◌≡◌, refl, ap, Bool, true, false, Option, none, some, List, [], ◌∷◌, ◌++◌, arith,
  if◌then◌else◌, Bytes, codes,
}
use minisshd.Session.Exit.{ProcessState}
use minisshd.Session.Requests
use minisshd.Session.Requests.{
  first_phase, Request, Alloc, Pty, State, initial, Cmd, Spawn, Verdict, shell, exec, sftp, go_on,
  leave, panicked, Outcome, Service, pre_spawn, finish, is_some,
}
use minisshd.Session.Requests.Invariant.{pre_spawn-IsConfined}
use minisshd.Session.Child.{
  Runner, Effect, reply, log_session, Start, process, start_failed, pipe_failed, Started, up, down,
  crashed, on_pty, on_pipes, start_with_pty, start_child, settle, drain, close_all, launch,
  launched, Select, copied, timer,
}
use minisshd.Session.Sftp
use minisshd.Session.Sftp.{run_sftp}
use minisshd.Session.Handle.{World, conclude, second_phase}

-- The answers and the `session` log lines, in order.
pub data Mark : Type 0 where
  answer : Bool → Mark
  session : Bytes → Mark

abbrev pub marks : List Effect → List Mark
marks [] = []
marks (reply b ∷ es) = answer b ∷ marks es
marks (log_session k ∷ es) = session k ∷ marks es
marks (_ ∷ es) = marks es

marks-append : (xs ys : List Effect) → marks (xs ++ ys) ≡ marks xs ++ marks ys
marks-append [] ys = refl
marks-append (x ∷ xs) ys = ground (arith, marks-append xs ys)

marks-drain : (kind : Bytes) (selects : List Select) → marks (drain kind selects) ≡ []
unfolding drain
marks-drain kind [] = refl
marks-drain kind (timer ∷ selects) = refl
marks-drain kind (copied ∷ selects) = marks-drain kind selects

marks-close_all : (cs : List ℕ) → marks (close_all cs) ≡ []
marks-close_all [] = refl
marks-close_all (c ∷ cs) = marks-close_all cs

marks-settle :
    (kind : Bytes) (r : Runner) (killed : Bool) (ps : ProcessState) (selects : List Select)
    → marks (settle kind r killed ps selects) ≡ []
unfolding settle
marks-settle kind r true ps selects = simp (marks-append, marks-drain, marks-close_all)
marks-settle kind r false ps selects = simp (marks-append, marks-drain, marks-close_all)

marks-run_sftp : (e : Sftp.Select) → marks (run_sftp e) ≡ []
unfolding run_sftp
marks-run_sftp e = ground arith

-- The child is up exactly if `Start` has not failed.
abbrev Launches : Start → Started → Type 0
Launches process (up r) = Unit
Launches (pipe_failed e) (down d) = Unit
Launches (start_failed e) (down d) = Unit
Launches _ _ = ⊥

on_pipes-Launches : (a : Start) → Launches a (on_pipes a).0 × (marks (on_pipes a).1 ≡ [])
on_pipes-Launches process = (tt, refl)
on_pipes-Launches (pipe_failed e) = (tt, refl)
on_pipes-Launches (start_failed e) = (tt, refl)

on_pty-Launches :
    (ends : Pty) (a : Start)
    → Launches a (on_pty (some ends) a).0 × (marks (on_pty (some ends) a).1 ≡ [])
unfolding start_with_pty
on_pty-Launches ends process = (tt, refl)
on_pty-Launches ends (pipe_failed e) = (tt, refl)
on_pty-Launches ends (start_failed e) = (tt, refl)

attach-Launches :
    (a : Start) (b : Bool) (o : Option Pty)
    → b ≡ is_some o
    → (let r = if b then on_pty o a else on_pipes a in Launches a r.0 × (marks r.1 ≡ []))
attach-Launches a false o h = on_pipes-Launches a
attach-Launches a true none h = absurd (ground arith)
attach-Launches a true (some ends) h = on_pty-Launches ends a

start_child-Launches :
    (st : State) (a : Start)
    → is_some st.pty ≡ is_some st.ends
    → Launches a (start_child st a).1 × (marks (start_child st a).2 ≡ [])
unfolding start_child
start_child-Launches st a v = attach-Launches a (is_some st.pty) st.ends v

-- The answer to the request that commits the session, and the log line.
abbrev pub started_marks : Bytes → Start → List Mark
started_marks kind process = answer true ∷ session kind ∷ []
started_marks kind _ = answer false ∷ []

up_marks :
    (kind : Bytes) (a : Start) (r : Runner)
    → Launches a (up r)
    → started_marks kind a ≡ answer true ∷ session kind ∷ []
up_marks kind process r l = refl
up_marks kind (pipe_failed e) r l = absurd l
up_marks kind (start_failed e) r l = absurd l

down_marks :
    (kind : Bytes) (a : Start) (d : Bytes)
    → Launches a (down d)
    → started_marks kind a ≡ answer false ∷ []
down_marks kind process d l = absurd l
down_marks kind (pipe_failed e) d l = refl
down_marks kind (start_failed e) d l = refl

crashed_marks : (a : Start) → Launches a crashed → ⊥
crashed_marks process l = l
crashed_marks (pipe_failed e) l = l
crashed_marks (start_failed e) l = l

shell-marks :
    (c : Cmd) (w : World) (r : State × Started × List Effect)
    → Launches w.start r.1
    → marks r.2 ≡ []
    → marks (conclude (shell c) w (launched (shell c) r)) ≡ started_marks (codes "shell") w.start
shell-marks c w (st, up r, es) l q =
    simp (marks-append, marks-settle, q, up_marks (codes "shell") w.start r l)
shell-marks c w (st, down e, es) l q =
    simp (marks-append, q, down_marks (codes "shell") w.start e l)
shell-marks c w (st, crashed, es) l q = absurd (crashed_marks w.start l)

exec-marks :
    (c : Cmd) (w : World) (r : State × Started × List Effect)
    → Launches w.start r.1
    → marks r.2 ≡ []
    → marks (conclude (exec c) w (launched (exec c) r)) ≡ started_marks (codes "exec") w.start
exec-marks c w (st, up r, es) l q =
    simp (marks-append, marks-settle, q, up_marks (codes "exec") w.start r l)
exec-marks c w (st, down e, es) l q = simp (marks-append, q, down_marks (codes "exec") w.start e l)
exec-marks c w (st, crashed, es) l q = absurd (crashed_marks w.start l)

-- What a session commits to, as the client and the log see it.
abbrev pub committed : Verdict → Start → List Mark
committed (leave (shell c)) a = started_marks (codes "shell") a
committed (leave (exec c)) a = started_marks (codes "exec") a
committed (leave sftp) a = answer true ∷ session (codes "sftp") ∷ []
committed _ a = []

committed-marks :
    (base : Bytes → Bytes) (s : Service) (w : World) (st : State) (es : List Requests.Effect)
    (v : Verdict)
    → is_some st.pty ≡ is_some st.ends
    → marks (second_phase w (finish base s (record { state = st; effects = es; verdict = v })))
      ≡ committed v w.start
unfolding second_phase launch
committed-marks base s w st es go_on v = refl
committed-marks base s w st es panicked v = refl
committed-marks base s w st es (leave sftp) v =
    ap (λ ms. answer true ∷ session (codes "sftp") ∷ ms) (marks-run_sftp w.sftp)
committed-marks base s w st es (leave (shell c)) v =
    let (l, q) = start_child-Launches st w.start v in shell-marks c w (start_child st w.start) l q
committed-marks base s w st es (leave (exec c)) v =
    let (l, q) = start_child-Launches st w.start v in exec-marks c w (start_child st w.start) l q

-- After the first phase, a session that has committed itself answers that request once: with yes, and
-- one `session` line in the log, if its child starts or it is sftp; with no and no line if the child
-- does not start. A session that has not committed itself answers and logs nothing any more. So the
-- child is never attached to a PTY that is not there, which would leave the request unanswered.
pub second_phase-answers :
    (base : Bytes → Bytes) (s : Service) (reqs : List (Request × Alloc)) (w : World)
    → marks (second_phase w (first_phase base s reqs))
      ≡ committed (pre_spawn base s reqs initial []).verdict w.start
unfolding first_phase
second_phase-answers base s reqs w =
    let out = pre_spawn base s reqs initial [] in
    committed-marks base s w out.state out.effects out.verdict
      (pre_spawn-IsConfined base s reqs).0.paired
