-- ===== src/Session/Child/Supervise.antt =====
-- The waits of `runChild` in internal/session/service.go: the goroutine that supervises a child beside
-- the server's context, the client, the SSH library and the child. `signalAndKill` and the drain are
-- single moves here: each of them ends by itself.
pub mod Liveness
use minisshd.Prelude.{ℕ, ◌≡◌, Bool, true, false, not}

-- Where `runChild` stands. The flag tells whether the child was killed.
pub data Pc : Type 0 where
  selecting : Pc
  reaping : Pc  -- signalled and killed, before <-waitErr
  draining : (killed : Bool) → Pc
  joining : (killed : Bool) → Pc  -- before <-chanClosed
  returned : Pc

-- Beside it: whether the context is cancelled, the requests have come to an end, the child has exited,
-- os/exec has no output to copy any more, `cmd.Wait` has returned, and the server has closed the
-- channel. The child of a PTY has no output that os/exec copies; that of the pipes has, until every
-- process that holds them has closed them.
pub record Supervised : Type 0 where
  pub pc : Pc
  pub cancelled : Bool
  pub requests_over : Bool
  pub exited : Bool
  pub copied : Bool
  pub reaped : Bool
  pub closed_by_server : Bool

abbrev pub begin : (has_pty : Bool) → Supervised
begin has_pty = record {
  pc = selecting;
  cancelled = false;
  requests_over = false;
  exited = false;
  copied = has_pty;
  reaped = false;
  closed_by_server = false;
}

-- A move of `runChild`, of the goroutine in `cmd.Wait`, or of the library, which ends the requests of a
-- channel that the server has closed.
pub data Move (s : Supervised) : Supervised → Type 0 where
  shutdown : s.pc ≡ selecting → s.cancelled ≡ true → Move s (record s { pc = reaping })
  channel_close : s.pc ≡ selecting → s.requests_over ≡ true → Move s (record s { pc = reaping })
  exit : s.pc ≡ selecting → s.reaped ≡ true → Move s (record s { pc = draining false })
  reap : s.pc ≡ reaping → s.reaped ≡ true → Move s (record s { pc = draining true })
  settle :
      (killed : Bool)
      → s.pc ≡ draining killed
      → Move s (record s { pc = joining killed; closed_by_server = not killed })
  join :
      (killed : Bool)
      → s.pc ≡ joining killed
      → s.requests_over ≡ true
      → Move s (record s { pc = returned })
  wait_returns :
      s.exited ≡ true → s.copied ≡ true → s.reaped ≡ false → Move s (record s { reaped = true })
  end_requests :
      s.closed_by_server ≡ true
      → s.requests_over ≡ false
      → Move s (record s { requests_over = true })

-- What the outside does.
pub data Event (s : Supervised) : Supervised → Type 0 where
  cancel : Event s (record s { cancelled = true })
  client_closes : Event s (record s { requests_over = true })
  child_ends : Event s (record s { exited = true })
  copies_end : Event s (record s { copied = true })

pub data Reach : Supervised → Type 0 where
  start : (has_pty : Bool) → Reach (begin has_pty)
  moved : {s t : Supervised} → Reach s → Move s t → Reach t
  happened : {s t : Supervised} → Reach s → Event s t → Reach t

-- Moves alone lead from a state to `u`.
pub data Leads (u : Supervised) : Supervised → Type 0 where
  here : Leads u u
  next : {s t : Supervised} → Move s t → Leads u t → Leads u s

-- Anything but that the client closes the channel.
pub data Unclosed (s : Supervised) : Supervised → Type 0 where
  none_yet : Unclosed s s
  and_move : {t u : Supervised} → Unclosed s t → Move t u → Unclosed s u
  and_cancel : {t : Supervised} → Unclosed s t → Unclosed s (record t { cancelled = true })
  and_end : {t : Supervised} → Unclosed s t → Unclosed s (record t { exited = true })
  and_copies : {t : Supervised} → Unclosed s t → Unclosed s (record t { copied = true })
