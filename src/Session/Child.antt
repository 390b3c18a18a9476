-- ===== src/Session/Child.antt =====
-- A child process on a session channel: `startChild`, `processInflightRequests`, `rejectExtraRequests`,
-- `signalAndKill`, `drain` and the two phases of `Handle` of internal/session/service.go, and
-- `startWithPTY` of internal/session/pty.go. What the operating system answers is an input.
pub mod Kill
pub mod Inflight
pub mod Ends
pub mod Supervise
use minisshd.Prelude.{
  ℕ, zero, suc, ◌+◌, Bool, true, false, ◌||◌, Option, none, some, List, [], ◌∷◌, ◌++◌, ltb,
  if◌then◌else◌, Bytes, codes, ◌=s=◌,
}
use minisshd.Session.Exit.{Sent, ProcessState, send_exit}
use minisshd.Session.Wire.{exit_status_payload}
use minisshd.Session.Requests
use minisshd.Session.Requests.{
  Request, Pty, State, Spawn, shell, exec, sftp, Outcome, continue, reply_if, is_some,
  handle_window_change, close_ends,
}

pub data Effect : Type 0 where
  reply : Bool → Effect
  close : ℕ → Effect
  close_stdin close_channel : Effect
  send : Sent → Effect
  kill : (sig : Bytes) → Effect
  log_shutdown_signal : (sig reason : Bytes) → Effect
  log_drain_timeout : (kind : Bytes) → Effect
  log_session : (kind : Bytes) → Effect
  log_error : Bytes → Effect

-- What `StdinPipe` and `Start` answer.
pub data Start : Type 0 where
  process : Start
  pipe_failed start_failed : (message : Bytes) → Start

-- `childRunner`: the master, what is to be closed, and the number of copies to wait for.
pub record Runner : Type 0 where
  pub master : Option ℕ
  pub closers : List ℕ
  pub copies : ℕ

-- A session without its PTY's ends would be a nil dereference.
pub data Started : Type 0 where
  up : Runner → Started
  down : (message : Bytes) → Started
  crashed : Started

-- The error of `startWithPTY`, and the slave that it closes on success.
unfoldable pub start_with_pty : ℕ → Start → Option Bytes × List Effect
start_with_pty slave process = (none, close slave ∷ [])
start_with_pty slave (start_failed e) = (some e, [])
start_with_pty slave (pipe_failed e) = (some e, [])

abbrev pub attach : Pty → Option Bytes × List Effect → Started × List Effect
attach ends (some e, es) = (down e, es ++ close ends.master ∷ [])
attach ends (none, es) =
    (up (record { master = some ends.master; closers = ends.master ∷ []; copies = 1 }), es)

abbrev pub on_pty : Option Pty → Start → Started × List Effect
on_pty none a = (crashed, [])
on_pty (some ends) a = attach ends (start_with_pty ends.slave a)

abbrev pub on_pipes : Start → Started × List Effect
on_pipes process = (up (record { master = none; closers = []; copies = 0 }), [])
on_pipes (pipe_failed e) = (down e, [])
on_pipes (start_failed e) = (down e, close_stdin ∷ [])

unfoldable pub start_child : State → Start → State × Started × List Effect
start_child st a =
    let (s, es) = if is_some st.pty then on_pty st.ends a else on_pipes a in
    (record st { started = true }, s, es)

-- A request while the child runs.
unfoldable pub process_inflight : Request → State → Outcome
process_inflight req st =
    if req.kind =s= codes "window-change"
    then handle_window_change req st
    else if req.kind =s= codes "signal"
    then continue st []
    else if req.kind =s= codes "shell"
        || req.kind =s= codes "exec"
        || req.kind =s= codes "subsystem"
    then continue st (Requests.reply false ∷ [])
    else continue st (reply_if req.want_reply false)

-- A request while sftp runs.
unfoldable pub reject_extra : Request → List Requests.Effect
reject_extra req = reply_if req.want_reply false

-- 5 s and 50 ms
abbrev pub shutdown_grace : ℕ
shutdown_grace = 5000000000

abbrev pub nap : ℕ
nap = 50000000

-- How the polls end: the group is gone, or the deadline has passed, each with its time.
pub data Ending : Type 0 where
  gone overdue : (time : ℕ) → Ending

-- `alive` is whether the process group is there at a time, and `wake` when a sleep of 50 ms that
-- begins at a time is over. The fuel bounds the rounds.
module _ (alive : ℕ → Bool) (wake : ℕ → ℕ) where
  unfoldable pub poll : (fuel now deadline : ℕ) → Option Ending
  poll zero now deadline = none
  poll (suc fuel) now deadline =
      let rest = poll fuel (wake now) deadline in
      if ltb now deadline then (if alive now then rest else some (gone now)) else some (overdue now)

  abbrev pub kill_overdue : Bytes → Ending → List Effect
  kill_overdue reason (gone t) = []
  kill_overdue reason (overdue t) =
      kill (codes "KILL") ∷ log_shutdown_signal (codes "KILL") reason ∷ []

  unfoldable pub signal_and_kill : (fuel now : ℕ) → Bytes → Option (List Effect)
  signal_and_kill fuel now reason = elim (poll fuel now (now + shutdown_grace)) [
    | none ↦ none
    | some e ↦
        some (kill (codes "HUP") ∷ log_shutdown_signal (codes "HUP") reason ∷ kill_overdue reason e)
  ]

-- What a round of the select in `drain` takes: the copy that is waited for, or the timer.
pub data Select : Type 0 where
  copied timer : Select

-- The answers of the rounds, one for each copy.
unfoldable pub drain : Bytes → List Select → List Effect
drain kind [] = []
drain kind (timer ∷ selects) = log_drain_timeout kind ∷ []
drain kind (copied ∷ selects) = drain kind selects

abbrev pub close_all : List ℕ → List Effect
close_all [] = []
close_all (c ∷ cs) = close c ∷ close_all cs

-- `runChild` from the drain to the last wait.
unfoldable pub settle : Bytes → Runner → (killed : Bool) → ProcessState → List Select → List Effect
settle kind runner killed ps selects =
    drain kind selects
    ++ (close_all runner.closers
        ++ (if killed then [] else send (send_exit ps) ∷ close_channel ∷ []))

-- `st.ptyMaster` is cleared before the master is closed.
abbrev pub forget_master : Runner → State → State
forget_master r st = elim r.master [ none ↦ st | some m ↦ record st { ends = none } ]

abbrev pub kind_of : Spawn → Bytes
kind_of (shell c) = codes "shell"
kind_of (exec c) = codes "exec"
kind_of sftp = codes "sftp"

-- The second phase of `Handle` up to the runner: the effects, and the runner if a child runs.
abbrev pub report : Spawn → Started → Option Runner × List Effect
report sp (up r) = (some r, reply true ∷ log_session (kind_of sp) ∷ [])
report sp (down e) = (
  none,
  reply false
      ∷ log_error (codes "child spawn failed: " ++ e)
      ∷ send (record { name = codes "exit-status"; payload = exit_status_payload 127 })
      ∷ [],
)
report sp crashed = (none, [])

abbrev pub launched : Spawn → State × Started × List Effect → Option Runner × List Effect
launched sp (st, s, es) = let (r, more) = report sp s in (r, es ++ more)

unfoldable pub launch : Spawn → State → Start → Option Runner × List Effect
launch sftp st a = (none, reply true ∷ log_session (codes "sftp") ∷ [])
launch (shell c) st a = launched (shell c) (start_child st a)
launch (exec c) st a = launched (exec c) (start_child st a)
