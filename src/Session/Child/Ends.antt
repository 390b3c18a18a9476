-- ===== src/Session/Child/Ends.antt =====
-- Which ends of a PTY the paths through `Handle` of internal/session/service.go close.
use minisshd.Prelude.{
  ℕ, ◌≡◌, refl, ap, Bool, true, false, Option, none, some, List, [], ◌∷◌, ◌++◌, append-nil, Bytes,
}
use minisshd.Session.Wire.{PtyReq}
use minisshd.Session.Exit.{ProcessState}
use minisshd.Session.Requests.{Pty, State, Spawn, shell, exec, sftp}
use minisshd.Session.Child.{
  Effect, reply, close, close_stdin, close_channel, send, kill, log_shutdown_signal,
  log_drain_timeout, log_session, log_error, Start, process, pipe_failed, start_failed, Runner,
  start_child, start_with_pty, Select, copied, timer, drain, close_all, settle, launch, launched,
  on_pty, on_pipes, Started, kind_of,
}

-- The ends that have been closed, in order.
abbrev pub closed : List Effect → List ℕ
closed [] = []
closed (close n ∷ es) = n ∷ closed es
closed (_ ∷ es) = closed es

closed-append : (xs ys : List Effect) → closed (xs ++ ys) ≡ closed xs ++ closed ys
closed-append [] ys = refl
closed-append (close n ∷ xs) ys = ap (◌∷◌ n) (closed-append xs ys)
closed-append (reply b ∷ xs) ys = closed-append xs ys
closed-append (close_stdin ∷ xs) ys = closed-append xs ys
closed-append (close_channel ∷ xs) ys = closed-append xs ys
closed-append (send m ∷ xs) ys = closed-append xs ys
closed-append (kill sig ∷ xs) ys = closed-append xs ys
closed-append (log_shutdown_signal sig reason ∷ xs) ys = closed-append xs ys
closed-append (log_drain_timeout kind ∷ xs) ys = closed-append xs ys
closed-append (log_session kind ∷ xs) ys = closed-append xs ys
closed-append (log_error e ∷ xs) ys = closed-append xs ys

closed-drain : (kind : Bytes) (selects : List Select) → closed (drain kind selects) ≡ []
unfolding drain
closed-drain kind [] = refl
closed-drain kind (timer ∷ selects) = refl
closed-drain kind (copied ∷ selects) = closed-drain kind selects

closed-close_all : (cs : List ℕ) → closed (close_all cs) ≡ cs
closed-close_all [] = refl
closed-close_all (c ∷ cs) = ap (◌∷◌ c) (closed-close_all cs)

-- The second phase to its end: the launch, and what follows if a child runs.
abbrev pub whole :
    Spawn → Option Runner × List Effect → Bool → ProcessState → List Select → List Effect
whole sp (none, es) killed ps selects = es
whole sp (some r, es) killed ps selects = es ++ settle (kind_of sp) r killed ps selects

-- Both ends where a child has run, the master alone where it could not be started, and none for sftp.
abbrev pub ends_closed_by : Start → Pty → List ℕ
ends_closed_by process ends = ends.slave ∷ ends.master ∷ []
ends_closed_by _ ends = ends.master ∷ []

abbrev pub ends_closed : Spawn → Start → Pty → List ℕ
ends_closed sftp a ends = []
ends_closed (shell c) a ends = ends_closed_by a ends
ends_closed (exec c) a ends = ends_closed_by a ends

closed-settle :
    (kind : Bytes) (r : Runner) (killed : Bool) (ps : ProcessState) (selects : List Select)
    → closed (settle kind r killed ps selects) ≡ r.closers
unfolding settle
closed-settle kind r true ps selects =
    simp (closed-append, closed-drain, closed-close_all, append-nil)
closed-settle kind r false ps selects =
    simp (closed-append, closed-drain, closed-close_all, append-nil)

-- What `startChild` does with a PTY.
start_child_pty :
    (st : State) (a : Start) (pr : PtyReq) (ends : Pty)
    → st.pty ≡ some pr
    → st.ends ≡ some ends
    → ((start_child st a).1 ≡ (on_pty (some ends) a).0)
      × ((start_child st a).2 ≡ (on_pty (some ends) a).1)
unfolding start_child
start_child_pty st a pr ends p q = (cc, cc)

child-closed :
    (sp : Spawn) (ends : Pty) (a : Start) (killed : Bool) (ps : ProcessState)
    (selects : List Select) (r : State × Started × List Effect)
    → r.1 ≡ (on_pty (some ends) a).0
    → r.2 ≡ (on_pty (some ends) a).1
    → closed (whole sp (launched sp r) killed ps selects) ≡ ends_closed_by a ends
unfolding start_with_pty
child-closed sp ends process killed ps selects (st, s, es) p q =
    rw (p, q)
      (ap (◌∷◌ ends.slave) (
        closed-settle (kind_of sp)
          (record { master = some ends.master; closers = ends.master ∷ []; copies = 1 }) killed ps
          selects))
child-closed sp ends (start_failed e) killed ps selects (st, s, es) p q = rw (p, q) refl
child-closed sp ends (pipe_failed e) killed ps selects (st, s, es) p q = rw (p, q) refl

-- For a session with a PTY, the ends that `Handle` closes from the launch to its return, in order:
-- when the child starts, the slave and then the master, each once, however the child ends; when it
-- does not start, the master alone; and for sftp neither.
pub launch-closed :
    (sp : Spawn) (st : State) (a : Start) (pr : PtyReq) (ends : Pty) (killed : Bool)
    (ps : ProcessState) (selects : List Select)
    → st.pty ≡ some pr
    → st.ends ≡ some ends
    → closed (whole sp (launch sp st a) killed ps selects) ≡ ends_closed sp a ends
unfolding launch
launch-closed sftp st a pr ends killed ps selects p q = refl
launch-closed (shell c) st a pr ends killed ps selects p q =
    let (r, es) = start_child_pty st a pr ends p q in
    child-closed (shell c) ends a killed ps selects (start_child st a) r es
launch-closed (exec c) st a pr ends killed ps selects p q =
    let (r, es) = start_child_pty st a pr ends p q in
    child-closed (exec c) ends a killed ps selects (start_child st a) r es

-- What `startChild` does without a PTY.
start_child_pipes :
    (st : State) (a : Start)
    → st.pty ≡ none
    → ((start_child st a).1 ≡ (on_pipes a).0) × ((start_child st a).2 ≡ (on_pipes a).1)
unfolding start_child
start_child_pipes st a p = (cc, cc)

child_pipes-closed :
    (sp : Spawn) (a : Start) (killed : Bool) (ps : ProcessState) (selects : List Select)
    (r : State × Started × List Effect)
    → r.1 ≡ (on_pipes a).0
    → r.2 ≡ (on_pipes a).1
    → closed (whole sp (launched sp r) killed ps selects) ≡ []
child_pipes-closed sp process killed ps selects (st, s, es) p q =
    rw (p, q)
      (closed-settle (kind_of sp) (record { master = none; closers = []; copies = 0 }) killed ps
        selects)
child_pipes-closed sp (start_failed e) killed ps selects (st, s, es) p q = rw (p, q) refl
child_pipes-closed sp (pipe_failed e) killed ps selects (st, s, es) p q = rw (p, q) refl

-- Without a PTY, no end of one is closed.
pub launch-closed-none :
    (sp : Spawn) (st : State) (a : Start) (killed : Bool) (ps : ProcessState)
    (selects : List Select)
    → st.pty ≡ none
    → closed (whole sp (launch sp st a) killed ps selects) ≡ []
unfolding launch
launch-closed-none sftp st a killed ps selects p = refl
launch-closed-none (shell c) st a killed ps selects p =
    let (r, es) = start_child_pipes st a p in
    child_pipes-closed (shell c) a killed ps selects (start_child st a) r es
launch-closed-none (exec c) st a killed ps selects p =
    let (r, es) = start_child_pipes st a p in
    child_pipes-closed (exec c) a killed ps selects (start_child st a) r es
