-- ===== src/Server/Serve/Joined.antt =====
-- What is over when `Serve` of internal/server/server.go has drained.
use minisshd.Prelude.{inl, inr, ◌≢◌, ◌≡◌, ◌≤◌, ◌⊎◌, refl, true, false, arith}
use minisshd.Server.Serve.{
  Pc, accepting, stopped, draining, returned, watching, listener_closed, shutdown_done, Joiner,
  unborn, joins_conns, joins_sessions, conns_done, Serving, Move, close_listener, cancel_conns,
  accept_closed, wind_down, join_conns, join_sessions, drained, drain_timeout, finish,
  finish_timeout, Event, cancel, accept, accept_error, begin_session, end_session, end_conn, Reach,
  start, moved, happened,
}

-- The loop is over: no connection is accepted any more.
abbrev IsOver : Pc → Type 0
IsOver accepting = ⊥
IsOver stopped = ⊥
IsOver _ = Unit

abbrev IsJoined : Serving → Type 0
IsJoined s = elim s.joiner [
  | unborn ↦ (s.pc ≡ accepting) ⊎ (s.pc ≡ stopped)
  | joins_conns ↦ IsOver s.pc
  | joins_sessions ↦ IsOver s.pc × (s.conns ≡ 0)
  | conns_done ↦ IsOver s.pc × (s.conns ≡ 0) × (s.sessions ≡ 0)
]

abbrev IsDrained : Serving → Type 0
IsDrained s = elim s.pc [
  | accepting ↦ (s.joiner ≡ unborn) × (s.timed_out ≡ false)
  | stopped ↦ (s.joiner ≡ unborn) × (s.timed_out ≡ false)
  | draining ↦ s.timed_out ≡ false
  | _ ↦ (s.timed_out ≡ true) ⊎ (s.joiner ≡ conns_done)
]

abbrev IsWatched : Serving → Type 0
IsWatched s = elim s.watcher [
  | watching ↦ Unit
  | listener_closed ↦ (s.cancelled ≡ true) × (s.listening ≡ false)
  | shutdown_done ↦ (s.cancelled ≡ true) × (s.listening ≡ false) × (s.conns_cancelled ≡ true)
]

-- Past the loop, the context of the connections is cancelled.
abbrev IsCancelled : Serving → Type 0
IsCancelled s = elim s.pc [ accepting ↦ Unit | stopped ↦ Unit | _ ↦ s.conns_cancelled ≡ true ]

-- The counters agree with where the helpers stand.
abbrev pub IsServing : Serving → Type 0
IsServing s = IsJoined s × IsDrained s × IsWatched s × IsCancelled s

pub Move-IsServing : {s t : Serving} → Move s t → IsServing s → IsServing t
Move-IsServing (close_listener w c) v = ground arith
Move-IsServing (cancel_conns w) v = ground arith
Move-IsServing (accept_closed p l) v = ground arith
Move-IsServing (wind_down p) v = ground arith
Move-IsServing (join_conns j c) v = ground arith
Move-IsServing (join_sessions j c) v = ground arith
Move-IsServing (drained p j) v = ground arith
Move-IsServing (drain_timeout p) v = ground arith
Move-IsServing (finish p w) v = ground arith
Move-IsServing (finish_timeout p) v = ground arith

Event-IsServing : {s t : Serving} → Event s t → IsServing s → IsServing t
Event-IsServing cancel v = ground arith
Event-IsServing (accept p l) v = ground arith
Event-IsServing (accept_error p l) v = ground arith
Event-IsServing (begin_session c) v = ground arith
Event-IsServing (end_session c) v = ground arith
Event-IsServing (end_conn c) v = ground arith

pub Reach-IsServing : {s : Serving} → Reach s → IsServing s
Reach-IsServing start = ground arith
Reach-IsServing (moved r m) = Move-IsServing m (Reach-IsServing r)
Reach-IsServing (happened r e) = Event-IsServing e (Reach-IsServing r)

-- The joiner is past the wait for connections.
abbrev pub IsPastConns : Joiner → Type 0
IsPastConns joins_sessions = Unit
IsPastConns conns_done = Unit
IsPastConns _ = ⊥

past-quiet : {s t : Serving} → IsServing s → IsPastConns s.joiner → Event s t → t.conns ≡ 0
past-quiet v j cancel = ground arith
past-quiet v j (accept p l) = ground arith
past-quiet v j (accept_error p l) = ground arith
past-quiet v j (begin_session c) = ground arith
past-quiet v j (end_session c) = ground arith
past-quiet v j (end_conn c) = ground arith

past-fewer :
    {s t : Serving} → IsServing s → IsPastConns s.joiner → Event s t → t.sessions ≤ s.sessions
past-fewer v j cancel = ground arith
past-fewer v j (accept p l) = ground arith
past-fewer v j (accept_error p l) = ground arith
past-fewer v j (begin_session c) = ground arith
past-fewer v j (end_session c) = ground arith
past-fewer v j (end_conn c) = ground arith

abbrev IsQuietAfter : Serving → Serving → Type 0
IsQuietAfter s t =
    (s.joiner ≡ unborn) ⊎ (s.joiner ≡ joins_conns) ⊎ ((t.conns ≡ 0) × (t.sessions ≤ s.sessions))

joined-quiet :
    (s t : Serving) (j : Joiner) → s.joiner ≡ j → IsServing s → Event s t → IsQuietAfter s t
joined-quiet s t unborn p v e = inl p
joined-quiet s t joins_conns p v e = inr (inl p)
joined-quiet s t joins_sessions p v e =
    inr (inr (past-quiet v (rw p tt) e, past-fewer v (rw p tt) e))
joined-quiet s t conns_done p v e = inr (inr (past-quiet v (rw p tt) e, past-fewer v (rw p tt) e))

drained-quiet :
    (s t : Serving)
    → IsServing s
    → IsQuietAfter s t
    → (s.pc ≢ returned)
      ⊎ (s.timed_out ≡ true)
      ⊎ ((s.conns ≡ 0) × (s.sessions ≡ 0) × (t.conns ≡ 0) × (t.sessions ≡ 0))
drained-quiet s t v q = ground arith

-- Whatever happens next in a reachable state: if `Serve` has returned and its drain has not timed out,
-- no connection and no session is left, before and after; and once the joiner waits for the sessions,
-- no connection is begun and no session is added, so that the wait cannot miss one.
pub serve-drains :
    {s t : Serving}
    → Reach s
    → Event s t
    → ((s.pc ≢ returned)
        ⊎ (s.timed_out ≡ true)
        ⊎ ((s.conns ≡ 0) × (s.sessions ≡ 0) × (t.conns ≡ 0) × (t.sessions ≡ 0)))
      × ((s.joiner ≡ unborn)
          ⊎ (s.joiner ≡ joins_conns)
          ⊎ ((t.conns ≡ 0) × (t.sessions ≤ s.sessions)))
serve-drains {s} {t} r e =
    let v = Reach-IsServing r in
    let q = joined-quiet s t s.joiner refl v e in (drained-quiet s t v q, q)
