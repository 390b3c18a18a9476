-- ===== src/Server/Serve/Ended.antt =====
-- That `Serve` of internal/server/server.go comes to its return.
use minisshd.Prelude.{Bool-cases, inl, inr, ◌≢◌, ℕ, ◌+◌, ◌≡◌, ◌<◌, ◌⊎◌, refl, true, false, arith}
use minisshd.Server.Serve.{
  Pc, accepting, stopped, draining, closing, returned, Watcher, watching, listener_closed,
  shutdown_done, unborn, joins_conns, joins_sessions, conns_done, Serving, Move, close_listener,
  cancel_conns, accept_closed, wind_down, join_conns, join_sessions, drained, drain_timeout, finish,
  finish_timeout, Reach, Leads, here, next,
}
use minisshd.Server.Serve.Joined.{IsServing, Move-IsServing, Reach-IsServing}

-- How far the server's own goroutines are from their ends.
abbrev pub rank : Serving → ℕ
rank s =
    (elim s.pc [ accepting ↦ 6 | stopped ↦ 5 | draining ↦ 2 | closing ↦ 1 | returned ↦ 0 ])
    + (elim s.watcher [ watching ↦ 2 | listener_closed ↦ 1 | shutdown_done ↦ 0 ])
    + (elim s.joiner [ unborn ↦ 3 | joins_conns ↦ 2 | joins_sessions ↦ 1 | conns_done ↦ 0 ])

Move-rank : {s t : Serving} → Move s t → rank t < rank s
Move-rank (close_listener w c) = ground arith
Move-rank (cancel_conns w) = ground arith
Move-rank (accept_closed p l) = ground arith
Move-rank (wind_down p) = ground arith
Move-rank (join_conns j c) = ground arith
Move-rank (join_sessions j c) = ground arith
Move-rank (drained p j) = ground arith
Move-rank (drain_timeout p) = ground arith
Move-rank (finish p w) = ground arith
Move-rank (finish_timeout p) = ground arith

-- No helper and no timer of the server has anything left to do.
abbrev pub IsStuck : Serving → Type 0
IsStuck s = (t : Serving) → Move s t → ⊥

-- The loop has to end.
abbrev IsEnding : Serving → Type 0
IsEnding s = (s.cancelled ≡ true) ⊎ (s.pc ≢ accepting)

-- A watcher that has nothing left to do has closed the listener, if there is a cancellation.
stuck-closed :
    (s : Serving) (w : Watcher)
    → s.watcher ≡ w
    → IsServing s
    → IsStuck s
    → (s.cancelled ≡ false) ⊎ (s.listening ≡ false)
stuck-closed s watching e v h = elim (Bool-cases s.cancelled) [
  | inl c ↦ absurd (h _ (close_listener e c))
  | inr c ↦ inl c
]
stuck-closed s listener_closed e v h = inr (ground arith)
stuck-closed s shutdown_done e v h = inr (ground arith)

stuck-Returns :
    (s : Serving) (p : Pc)
    → s.pc ≡ p
    → IsServing s
    → IsEnding s
    → IsStuck s
    → (s.pc ≡ returned) × (s.conns_cancelled ≡ true)
stuck-Returns s accepting e v c h = elim (stuck-closed s s.watcher refl v h) [
  | inl d ↦ ground arith
  | inr d ↦ absurd (h _ (accept_closed e d))
]
stuck-Returns s stopped e v c h = absurd (h _ (wind_down e))
stuck-Returns s draining e v c h = absurd (h _ (drain_timeout e))
stuck-Returns s closing e v c h = absurd (h _ (finish_timeout e))
stuck-Returns s returned e v c h = (e, ground arith)

Move-IsEnding : {s t : Serving} → Move s t → IsEnding s → IsEnding t
Move-IsEnding (close_listener w d) c = c
Move-IsEnding (cancel_conns w) c = c
Move-IsEnding (accept_closed p l) c = ground arith
Move-IsEnding (wind_down p) c = ground arith
Move-IsEnding (join_conns j d) c = c
Move-IsEnding (join_sessions j d) c = c
Move-IsEnding (drained p j) c = ground arith
Move-IsEnding (drain_timeout p) c = ground arith
Move-IsEnding (finish p w) c = ground arith
Move-IsEnding (finish_timeout p) c = ground arith

Move-cancelled : {s t : Serving} → Move s t → s.cancelled ≡ true → t.cancelled ≡ true
Move-cancelled (close_listener w d) c = c
Move-cancelled (cancel_conns w) c = c
Move-cancelled (accept_closed p l) c = c
Move-cancelled (wind_down p) c = c
Move-cancelled (join_conns j d) c = c
Move-cancelled (join_sessions j d) c = c
Move-cancelled (drained p j) c = c
Move-cancelled (drain_timeout p) c = c
Move-cancelled (finish p w) c = c
Move-cancelled (finish_timeout p) c = c

run-Returns :
    {t s : Serving}
    → IsServing s
    → IsEnding s
    → Leads t s
    → IsStuck t
    → (t.pc ≡ returned)
      × (t.conns_cancelled ≡ true)
      × ((s.cancelled ≡ false) ⊎ (t.listening ≡ false))
run-Returns {s} v c here h =
    let (p, d) = stuck-Returns s s.pc refl v c h in (p, d, stuck-closed s s.watcher refl v h)
run-Returns v c (next m way) h =
    let (p, d, l) = run-Returns (Move-IsServing m v) (Move-IsEnding m c) way h in
    (p, d, ground (arith, Move-cancelled m))

-- Once the server's context is cancelled, or the loop has ended on an error of the listener, in whatever
-- reachable state, `Serve` returns by the moves of its own goroutines and timers alone, however many
-- connections and sessions are still open: where a run of such moves has come to its end, `Serve` has
-- returned, the context of the connections is cancelled, and the listener is closed if the server's
-- context was cancelled; and no run of them goes on for ever, since each makes the rank smaller.
pub serve-Returns :
    {s t : Serving}
    → Reach s
    → (s.cancelled ≡ true) ⊎ (s.pc ≢ accepting)
    → Leads t s
    → IsStuck t
    → ((t.pc ≡ returned)
        × (t.conns_cancelled ≡ true)
        × ((s.cancelled ≡ false) ⊎ (t.listening ≡ false)))
      × ((a b : Serving) → Move a b → rank b < rank a)
serve-Returns r c way h = (run-Returns (Reach-IsServing r) c way h, λ a b m. Move-rank m)
