-- ===== src/Server/Serve.antt =====
-- `Serve` of internal/server/server.go: the accept loop, the watcher of the server's context, the
-- goroutine that waits for the two wait groups, and the connections and sessions that run beside them.
-- A timer may fire whenever it is waited for.
pub mod Joined
pub mod Ended
pub mod Connected
use minisshd.Prelude.{ℕ, suc, ◌≡◌, Bool, true, false}

-- Where the goroutine that runs `Serve` stands.
pub data Pc : Type 0 where
  accepting : Pc
  stopped : Pc  -- out of the loop, before cancelConns()
  draining : Pc  -- before <-connsDone and <-time.After(drain)
  closing : Pc  -- before <-shutdownDone
  returned : Pc

-- The goroutine that awaits <-ctx.Done().
pub data Watcher : Type 0 where
  watching : Watcher
  listener_closed : Watcher
  shutdown_done : Watcher

-- The goroutine that joins connsWG, then sessionsWG, then closes connsDone.
pub data Joiner : Type 0 where
  unborn : Joiner
  joins_conns : Joiner
  joins_sessions : Joiner
  conns_done : Joiner

-- `conns` and `sessions` are the counters of the two wait groups.
pub record Serving : Type 0 where
  pub pc : Pc
  pub watcher : Watcher
  pub joiner : Joiner
  pub cancelled : Bool
  pub listening : Bool
  pub conns_cancelled : Bool
  pub conns : ℕ
  pub sessions : ℕ
  pub timed_out : Bool

abbrev pub begin : Serving
begin = record {
  pc = accepting;
  watcher = watching;
  joiner = unborn;
  cancelled = false;
  listening = true;
  conns_cancelled = false;
  conns = 0;
  sessions = 0;
  timed_out = false;
}

-- What `Serve` and its two helpers do.
pub data Move (s : Serving) : Serving → Type 0 where
  close_listener :
      s.watcher ≡ watching
      → s.cancelled ≡ true
      → Move s (record s { watcher = listener_closed; listening = false })
  cancel_conns :
      s.watcher ≡ listener_closed
      → Move s (record s { watcher = shutdown_done; conns_cancelled = true })
  accept_closed : s.pc ≡ accepting → s.listening ≡ false → Move s (record s { pc = stopped })
  wind_down :
      s.pc ≡ stopped
      → Move s (record s { pc = draining; conns_cancelled = true; joiner = joins_conns })
  join_conns : s.joiner ≡ joins_conns → s.conns ≡ 0 → Move s (record s { joiner = joins_sessions })
  join_sessions :
      s.joiner ≡ joins_sessions → s.sessions ≡ 0 → Move s (record s { joiner = conns_done })
  drained : s.pc ≡ draining → s.joiner ≡ conns_done → Move s (record s { pc = closing })
  drain_timeout : s.pc ≡ draining → Move s (record s { pc = closing; timed_out = true })
  finish : s.pc ≡ closing → s.watcher ≡ shutdown_done → Move s (record s { pc = returned })
  finish_timeout : s.pc ≡ closing → Move s (record s { pc = returned })

-- What the caller, the network, the connections and the sessions do. A session is begun by a connection
-- that runs.
pub data Event (s : Serving) : Serving → Type 0 where
  cancel : Event s (record s { cancelled = true })
  accept : s.pc ≡ accepting → s.listening ≡ true → Event s (record s { conns = suc s.conns })
  accept_error : s.pc ≡ accepting → s.listening ≡ true → Event s (record s { pc = stopped })
  begin_session : {n : ℕ} → s.conns ≡ suc n → Event s (record s { sessions = suc s.sessions })
  end_session : {n : ℕ} → s.sessions ≡ suc n → Event s (record s { sessions = n })
  end_conn : {n : ℕ} → s.conns ≡ suc n → Event s (record s { conns = n })

pub data Reach : Serving → Type 0 where
  start : Reach begin
  moved : {s t : Serving} → Reach s → Move s t → Reach t
  happened : {s t : Serving} → Reach s → Event s t → Reach t

pub data Leads (u : Serving) : Serving → Type 0 where
  here : Leads u u
  next : {s t : Serving} → Move s t → Leads u t → Leads u s
