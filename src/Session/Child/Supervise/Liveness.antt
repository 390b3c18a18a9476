-- ===== src/Session/Child/Supervise/Liveness.antt =====
-- When `runChild` of internal/session/service.go comes to its end, and when it does not.
use minisshd.Prelude.{
  ℕ, ◌+◌, ◌≡◌, ◌≢◌, refl, ◌⊎◌, inl, Bool, true, false, not, arith, if◌then◌else◌,
}
use minisshd.Session.Child.Supervise.{
  Pc, selecting, reaping, draining, joining, returned, Supervised, Move, shutdown, channel_close,
  exit, reap, settle, join, wait_returns, end_requests, Event, cancel, client_closes, child_ends,
  copies_end, Reach, start, moved, happened, Leads, Unclosed, none_yet, and_move, and_cancel,
  and_end, and_copies,
}

-- The server has closed the channel exactly if the child ended by itself and the drain is over.
abbrev pub IsSupervised : Supervised → Type 0
IsSupervised s = elim s.pc [
  | joining killed ↦ s.closed_by_server ≡ not killed
  | returned ↦ Unit
  | _ ↦ s.closed_by_server ≡ false
]

Move-IsSupervised : {s t : Supervised} → Move s t → IsSupervised s → IsSupervised t
Move-IsSupervised (shutdown p c) v = ground arith
Move-IsSupervised (channel_close p c) v = ground arith
Move-IsSupervised (exit p c) v = ground arith
Move-IsSupervised (reap p c) v = ground arith
Move-IsSupervised (settle killed p) v = ground arith
Move-IsSupervised (join killed p c) v = tt
Move-IsSupervised (wait_returns x c r) v = v
Move-IsSupervised (end_requests c o) v = v

Event-IsSupervised : {s t : Supervised} → Event s t → IsSupervised s → IsSupervised t
Event-IsSupervised cancel v = v
Event-IsSupervised client_closes v = v
Event-IsSupervised child_ends v = v
Event-IsSupervised copies_end v = v

Reach-IsSupervised : {s : Supervised} → Reach s → IsSupervised s
Reach-IsSupervised (start has_pty) = refl
Reach-IsSupervised (moved r m) = Move-IsSupervised m (Reach-IsSupervised r)
Reach-IsSupervised (happened r e) = Event-IsSupervised e (Reach-IsSupervised r)

-- How far the supervisor is from its end.
abbrev pub rank : Supervised → ℕ
rank s =
    (elim s.pc [
      | selecting ↦ 8
      | reaping ↦ 6
      | draining killed ↦ 4
      | joining killed ↦ 2
      | returned ↦ 0
    ])
    + (if s.requests_over then 0 else 1)
    + (if s.reaped then 0 else 1)

-- The client has closed the channel, or the child is not killed and nothing asks for it.
abbrev pub IsUnkilled : Pc → (cancelled : Bool) → Type 0
IsUnkilled selecting cancelled = cancelled ≡ false
IsUnkilled (draining false) cancelled = Unit
IsUnkilled (joining false) cancelled = Unit
IsUnkilled returned cancelled = Unit
IsUnkilled _ cancelled = ⊥

abbrev pub IsFree : Supervised → Type 0
IsFree s = (s.requests_over ≡ true) ⊎ IsUnkilled s.pc s.cancelled

-- The child has exited, and its output is copied.
abbrev IsOver : Supervised → Type 0
IsOver s = (s.exited ≡ true) × (s.copied ≡ true)

-- The way to the end, stage by stage.
abbrev Returns : Supervised → Type 0
Returns s = (t : Supervised) × Leads t s × (t.pc ≡ returned)

-- Neither `runChild` nor the library has anything left to do.
abbrev pub IsStuck : Supervised → Type 0
IsStuck s = (t : Supervised) → Move s t → ⊥

-- The child is killed, and neither side has closed the channel.
abbrev pub IsKilled : Supervised → Type 0
IsKilled s =
    ((s.pc ≡ reaping) ⊎ (s.pc ≡ draining true) ⊎ (s.pc ≡ joining true))
    × (s.requests_over ≡ false)
    × (s.closed_by_server ≡ false)

Move-IsKilled : {s t : Supervised} → Move s t → IsKilled s → IsKilled t
Move-IsKilled (shutdown p c) v = ground arith
Move-IsKilled (channel_close p c) v = ground arith
Move-IsKilled (exit p c) v = ground arith
Move-IsKilled (reap p c) v = ground arith
Move-IsKilled (settle killed p) v = ground arith
Move-IsKilled (join killed p c) v = ground arith
Move-IsKilled (wait_returns x c r) v = v
Move-IsKilled (end_requests c o) v = ground arith

Unclosed-IsKilled : {s t : Supervised} → Unclosed s t → IsKilled s → IsKilled t
Unclosed-IsKilled none_yet v = v
Unclosed-IsKilled (and_move u m) v = Move-IsKilled m (Unclosed-IsKilled u v)
Unclosed-IsKilled (and_cancel u) v = Unclosed-IsKilled u v
Unclosed-IsKilled (and_end u) v = Unclosed-IsKilled u v
Unclosed-IsKilled (and_copies u) v = Unclosed-IsKilled u v

-- After the server's shutdown has killed the child, `runChild` never returns, whatever else happens, as
-- long as the client does not close the channel: it waits for the end of the requests, and the server
-- does not close the channel on that path.
pub shutdown-waits :
    {s t : Supervised}
    → Reach s
    → s.requests_over ≡ false
    → (p : s.pc ≡ selecting) → s.cancelled ≡ true
    → Unclosed (record s { pc = reaping }) t
    → t.pc ≢ returned
shutdown-waits {s} {t} r o p c un =
    let v = Reach-IsSupervised r in
    let k : IsKilled (record s { pc = reaping }) = ground arith in
    ground (arith, Unclosed-IsKilled un k)

-- Past the wait for the child, `cmd.Wait` has returned; and it has returned only after the copies.
abbrev IsWaited : Supervised → Type 0
IsWaited s =
    (elim s.pc [ selecting ↦ Unit | reaping ↦ Unit | _ ↦ s.reaped ≡ true ])
    × ((s.reaped ≡ false) ⊎ IsOver s)

Move-IsWaited : {s t : Supervised} → Move s t → IsWaited s → IsWaited t
Move-IsWaited (shutdown p c) v = ground arith
Move-IsWaited (channel_close p c) v = ground arith
Move-IsWaited (exit p c) v = ground arith
Move-IsWaited (reap p c) v = ground arith
Move-IsWaited (settle killed p) v = ground arith
Move-IsWaited (join killed p c) v = ground arith
Move-IsWaited (wait_returns x c r) v = ground arith
Move-IsWaited (end_requests c o) v = ground arith

Event-IsWaited : {s t : Supervised} → Event s t → IsWaited s → IsWaited t
Event-IsWaited cancel v = v
Event-IsWaited client_closes v = v
Event-IsWaited child_ends v = ground arith
Event-IsWaited copies_end v = ground arith

Reach-IsWaited : {s : Supervised} → Reach s → IsWaited s
Reach-IsWaited (start has_pty) = (tt, inl refl)
Reach-IsWaited (moved r m) = Move-IsWaited m (Reach-IsWaited r)
Reach-IsWaited (happened r e) = Event-IsWaited e (Reach-IsWaited r)

-- In every reachable state in which `runChild` is past the wait for its child, the child has exited and
-- os/exec has nothing left to copy: neither the client's close, nor a shutdown, nor the kill, nor the
-- cap of the drain gets it past a process that holds the child's output open.
copies-wait :
    {s : Supervised}
    → Reach s
    → (s.pc ≡ selecting) ⊎ (s.pc ≡ reaping) ⊎ ((s.exited ≡ true) × (s.copied ≡ true))
copies-wait r = ground (arith, Reach-IsWaited r)
