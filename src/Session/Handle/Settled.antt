-- ===== src/Session/Handle/Settled.antt =====
-- The whole of `Handle` of internal/session/service.go.
use minisshd.Prelude.{
  sym, ℕ, ◌≡◌, refl, ap, ◌∙◌, inl, inr, Option, none, some, List, [], ◌∷◌, ◌++◌, append-nil,
  Option-cases, append_assoc, arith, Bytes,
}
use minisshd.Session.Requests
use minisshd.Session.Requests.{
  Request, Alloc, opened, failed, Pty, State, initial, Spawn, Verdict, shell, exec, sftp, go_on,
  leave, panicked, Outcome, Service, handle_pty_req, handle_env, handle_window_change, handle_exec,
  handle_subsystem, open_pty, pre_spawn_dispatch, pre_spawn, close_ends, finish, first_phase,
  is_some,
}
use minisshd.Session.Requests.Invariant.{pre_spawn-IsConfined}
use minisshd.Session.Wire.{PtyReq}
use minisshd.Session.Child
use minisshd.Session.Child.{Start, settle, launch, kind_of}
use minisshd.Session.Child.Ends
use minisshd.Session.Sftp
use minisshd.Session.Sftp.{run_sftp}
use minisshd.Session.Handle.{
  Event, before, after, all_before, all_after, World, conclude, second_phase, handle,
}

-- The ends of PTYs that are closed, in order.
abbrev pub closed : List Event → List ℕ
closed [] = []
closed (before (Requests.close n) ∷ es) = n ∷ closed es
closed (after (Child.close n) ∷ es) = n ∷ closed es
closed (_ ∷ es) = closed es

abbrev closed_before : List Requests.Effect → List ℕ
closed_before es = closed (all_before es)

module _ (base : Bytes → Bytes) (s : Service) (req : Request) (st : State) where
  pty-closed : (a : Alloc) → closed_before (handle_pty_req req a st).effects ≡ []
  unfolding handle_pty_req open_pty
  pty-closed (opened ends) = ground arith
  pty-closed (failed e) = ground arith

  env-closed : closed_before (handle_env req st).effects ≡ []
  unfolding handle_env
  env-closed = ground arith

  window-closed : closed_before (handle_window_change req st).effects ≡ []
  unfolding handle_window_change
  window-closed = ground arith

  exec-closed : closed_before (handle_exec base s req st).effects ≡ []
  unfolding handle_exec
  exec-closed = ground arith

  subsystem-closed : closed_before (handle_subsystem base s req st).effects ≡ []
  unfolding handle_subsystem
  subsystem-closed = ground arith

  dispatch-closed : (a : Alloc) → closed_before (pre_spawn_dispatch base s req a st).effects ≡ []
  unfolding pre_spawn_dispatch
  dispatch-closed a =
      ground (arith, pty-closed a, env-closed, window-closed, exec-closed, subsystem-closed)

closed-append : (xs ys : List Event) → closed (xs ++ ys) ≡ closed xs ++ closed ys
closed-append [] ys = refl
closed-append (before e ∷ xs) ys = ground (arith, closed-append xs ys)
closed-append (after e ∷ xs) ys = ground (arith, closed-append xs ys)

all_before-append :
    (xs ys : List Requests.Effect) → all_before (xs ++ ys) ≡ all_before xs ++ all_before ys
all_before-append [] ys = refl
all_before-append (e ∷ xs) ys = ap (◌∷◌ (before e)) (all_before-append xs ys)

closed_before-append :
    (xs ys : List Requests.Effect) → closed_before (xs ++ ys) ≡ closed_before xs ++ closed_before ys
closed_before-append xs ys =
    ap closed (all_before-append xs ys) ∙ closed-append (all_before xs) (all_before ys)

closed-all_after : (es : List Child.Effect) → closed (all_after es) ≡ Ends.closed es
closed-all_after [] = refl
closed-all_after (e ∷ es) = ground (arith, closed-all_after es)

module _ (base : Bytes → Bytes) (s : Service) where
  pre_spawn-closed :
      (reqs : List (Request × Alloc)) (st : State) (es : List Requests.Effect)
      → closed_before (pre_spawn base s reqs st es).effects ≡ closed_before es
  unfolding pre_spawn
  pre_spawn-closed [] st es = refl
  pre_spawn-closed ((req, a) ∷ reqs) st es =
      let out = pre_spawn_dispatch base s req a st in
      let quiet : closed_before (es ++ out.effects) ≡ closed_before es =
        closed_before-append es out.effects
        ∙ ap (◌++◌ (closed_before es)) (dispatch-closed base s req st a)
        ∙ append-nil (closed_before es) in
      ground (arith, quiet, pre_spawn-closed reqs out.state (es ++ out.effects))

closed_before-close_ends :
    (base : Bytes → Bytes) (s : Service) (o : Option Pty)
    → closed_before (close_ends base s o)
      ≡ (elim o [ none ↦ [] | some ends ↦ ends.master ∷ ends.slave ∷ [] ])
closed_before-close_ends base s none = refl
closed_before-close_ends base s (some ends) = refl

conclude-whole-shell :
    (c : Requests.Cmd) (w : World) (r : Option Child.Runner × List Child.Effect)
    → conclude (shell c) w r ≡ Ends.whole (shell c) r w.killed w.end w.selects
conclude-whole-shell c w (none, es) = refl
conclude-whole-shell c w (some r, es) = refl

conclude-whole-exec :
    (c : Requests.Cmd) (w : World) (r : Option Child.Runner × List Child.Effect)
    → conclude (exec c) w r ≡ Ends.whole (exec c) r w.killed w.end w.selects
conclude-whole-exec c w (none, es) = refl
conclude-whole-exec c w (some r, es) = refl

run_sftp-closed : (e : Sftp.Select) → Ends.closed (run_sftp e) ≡ []
unfolding run_sftp
run_sftp-closed e = ground arith

pipes-closed :
    (sp : Spawn) (w : World) (st : State)
    → st.pty ≡ none
    → Ends.closed (conclude sp w (launch sp st w.start)) ≡ []
unfolding launch
pipes-closed sftp w st p = run_sftp-closed w.sftp
pipes-closed (shell c) w st p =
    ap Ends.closed (conclude-whole-shell c w (launch (shell c) st w.start))
    ∙ Ends.launch-closed-none (shell c) st w.start w.killed w.end w.selects p
pipes-closed (exec c) w st p =
    ap Ends.closed (conclude-whole-exec c w (launch (exec c) st w.start))
    ∙ Ends.launch-closed-none (exec c) st w.start w.killed w.end w.selects p

pty-closed_after :
    (sp : Spawn) (w : World) (st : State) (pr : PtyReq) (ends : Pty)
    → st.pty ≡ some pr
    → st.ends ≡ some ends
    → Ends.closed (conclude sp w (launch sp st w.start)) ≡ Ends.ends_closed sp w.start ends
unfolding launch
pty-closed_after sftp w st pr ends p q = run_sftp-closed w.sftp
pty-closed_after (shell c) w st pr ends p q =
    ap Ends.closed (conclude-whole-shell c w (launch (shell c) st w.start))
    ∙ Ends.launch-closed (shell c) st w.start pr ends w.killed w.end w.selects p q
pty-closed_after (exec c) w st pr ends p q =
    ap Ends.closed (conclude-whole-exec c w (launch (exec c) st w.start))
    ∙ Ends.launch-closed (exec c) st w.start pr ends w.killed w.end w.selects p q

-- What a spawn closes of the ends that there may be.
abbrev pub spawn_closes : Spawn → Start → Option Pty → List ℕ
spawn_closes sp a none = []
spawn_closes sp a (some ends) = Ends.ends_closed sp a ends

spawned-closed :
    (sp : Spawn) (w : World) (st : State)
    → is_some st.pty ≡ is_some st.ends
    → Ends.closed (conclude sp w (launch sp st w.start)) ≡ spawn_closes sp w.start st.ends
spawned-closed sp w st v = elim (Option-cases st.ends) [
  | inl q ↦ elim (Option-cases st.pty) [
    | inl p ↦ pipes-closed sp w st p ∙ sym (ap (spawn_closes sp w.start) q)
    | inr (pr, p) ↦ absurd (ground arith)
  ]
  | inr (ends, q) ↦ elim (Option-cases st.pty) [
    | inl p ↦ absurd (ground arith)
    | inr (pr, p) ↦ pty-closed_after sp w st pr ends p q ∙ sym (ap (spawn_closes sp w.start) q)
  ]
]

-- What is closed of the PTY that a session has when its first phase is over.
abbrev pub closes : Verdict → Start → Option Pty → List ℕ
closes go_on a none = []
closes go_on a (some ends) = ends.master ∷ ends.slave ∷ []
closes (leave sp) a o = spawn_closes sp a o
closes panicked a o = []

go_on-closes :
    (base : Bytes → Bytes) (s : Service) (a : Start) (o : Option Pty)
    → closed_before (close_ends base s o) ≡ closes go_on a o
go_on-closes base s a none = refl
go_on-closes base s a (some ends) = refl

closed-phases :
    (base : Bytes → Bytes) (s : Service) (w : World) (st : State) (es : List Requests.Effect)
    (v : Verdict)
    → closed_before es ≡ []
    → is_some st.pty ≡ is_some st.ends
    → (let out = finish base s (record { state = st; effects = es; verdict = v }) in
        closed_before out.effects ++ Ends.closed (second_phase w out) ≡ closes v w.start st.ends)
unfolding second_phase
closed-phases base s w st es go_on h v =
    append-nil (closed_before (es ++ close_ends base s st.ends))
    ∙ closed_before-append es (close_ends base s st.ends)
    ∙ ap (λ xs. xs ++ closed_before (close_ends base s st.ends)) h
    ∙ go_on-closes base s w.start st.ends
closed-phases base s w st es (leave sp) h v =
    ap (λ xs. xs ++ Ends.closed (conclude sp w (launch sp st w.start))) h ∙ spawned-closed sp w st v
closed-phases base s w st es panicked h v = append-nil (closed_before es) ∙ h

-- From the first request to the return, `Handle` closes a PTY as follows, in this order: without a
-- spawn, the master and then the slave; with a child that starts, the slave and then the master; with
-- one that does not start, the master alone; for sftp, or after a panic, neither. Without a PTY it
-- closes none. The last thing it does is to close the channel.
pub handle-closed :
    (base : Bytes → Bytes) (s : Service) (reqs : List (Request × Alloc)) (w : World)
    → (let out = pre_spawn base s reqs initial [] in
        (closed (handle base s reqs w) ≡ closes out.verdict w.start out.state.ends)
        × ((es : List Event) × (handle base s reqs w ≡ es ++ after Child.close_channel ∷ [])))
unfolding handle first_phase
handle-closed base s reqs w =
    let out = pre_spawn base s reqs initial [] in
    let end = finish base s out in
    let es = all_before end.effects in
    let fs = all_after (second_phase w end) in
    let (valid, _) = pre_spawn-IsConfined base s reqs in
    (
      closed-append es (fs ++ after Child.close_channel ∷ [])
          ∙ ap (◌++◌ (closed es)) (
              closed-append fs (after Child.close_channel ∷ [])
              ∙ append-nil (closed fs)
              ∙ closed-all_after (second_phase w end))
          ∙ closed-phases base s w out.state out.effects out.verdict
              (pre_spawn-closed base s reqs initial []) valid.paired,
      (es ++ fs, sym (append_assoc es fs (after Child.close_channel ∷ []))),
    )
