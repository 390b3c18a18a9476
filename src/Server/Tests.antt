-- ===== src/Server/Tests.antt =====
-- The theorems on the server at concrete connections.
use minisshd.Prelude.{
  inl, ℕ, ◌++◌, ◌+◌, ◌⊎◌, ◌<◌, false, ◌≡◌, ◌≢◌, ◌≤◌, refl, true, false, Option, some, none, List,
  [], ◌∷◌, Bytes, codes, arith,
}
use minisshd.Server.Forward.{Payload, Answer, run, dialed, connected, opening}
use minisshd.Server.Forward.Channels.{Conn, held, interleave, IsCounted, interleave-IsCounted}
use minisshd.Server.Connection.{
  Handshake, established, Effect, conn_open, conn_close, close_net, handle_conn,
}
use minisshd.Server.Connection.Accounts.{tally, IsAccounted, handle_conn-accounts}
use minisshd.Server.Serve
use minisshd.Server.Serve.{Serving, returned, Leads}
use minisshd.Server.Serve.Connected.{count_effects, handle_conn-Reach}
use minisshd.Server.Serve.Joined.{serve-drains}
use minisshd.Server.Serve.Ended.{IsStuck, rank, serve-Returns}

abbrev target : Payload
target = record {
  dest_addr = codes "db";
  dest_port = 5432;
  origin_addr = codes "me";
  origin_port = 0;
}

abbrev unmarshal : Bytes → Option Payload
unmarshal extra = some target

abbrev start : Conn
start = record { counter = record { cap = 1; inflight = 0 }; stages = λ _. opening [] }

abbrev schedule : List (ℕ × Answer)
schedule = (0, run) ∷ (1, run) ∷ (0, dialed connected true) ∷ []

start-IsCounted : IsCounted 2 1 start
unfolding held
start-IsCounted = record { exact = refl; within = omega arith; capped = refl }

interleave-IsCounted_example : IsCounted 2 1 (interleave (codes "peer") unmarshal schedule start)
interleave-IsCounted_example =
    interleave-IsCounted (codes "peer") unmarshal schedule start
      (omega arith, (omega arith, (omega arith, tt))) start-IsCounted

abbrev opened : Handshake
opened = established (
    record { kind = codes "session"; accept_error = none }
    ∷ record { kind = codes "x11"; accept_error = none }
    ∷ record { kind = codes "direct-tcpip"; accept_error = none }
    ∷ [])

handle_conn-accounts_example :
    (let es = handle_conn (codes "peer") opened in
      (((mid : List Effect) × (es
            ≡ conn_open (codes "peer") ∷ mid ++ close_net ∷ conn_close (codes "peer") ∷ []))
        × ((tally es).marks ≡ 2))
      × IsAccounted es opened)
handle_conn-accounts_example = handle_conn-accounts (codes "peer") opened

abbrev asked : Serving
asked = record Serve.begin { cancelled = true }

abbrev over : Serving
over = record {
  pc = returned;
  watcher = Serve.shutdown_done;
  joiner = Serve.conns_done;
  cancelled = true;
  listening = false;
  conns_cancelled = true;
  conns = 0;
  sessions = 0;
  timed_out = false;
}

asked-Reach : Serve.Reach asked
asked-Reach = Serve.happened Serve.start Serve.cancel

abbrev joined : Serving
joined = record over { pc = Serve.draining }

-- The listener is closed, the loop ends, and the joiner waits for both groups.
asked-joined : {u : Serving} → Leads u joined → Leads u asked
asked-joined way = Serve.next (Serve.close_listener refl refl) (
    Serve.next (Serve.cancel_conns refl) (
      Serve.next (Serve.accept_closed refl refl) (
        Serve.next (Serve.wind_down refl) (
          Serve.next (Serve.join_conns refl refl)
            (Serve.next (Serve.join_sessions refl refl) way)))))

asked-over : Leads over asked
asked-over =
    asked-joined
      (Serve.next (Serve.drained refl refl) (Serve.next (Serve.finish refl refl) Serve.here))

Leads-Reach : {t s : Serving} → Leads t s → Serve.Reach s → Serve.Reach t
Leads-Reach Serve.here r = r
Leads-Reach (Serve.next m way) r = Leads-Reach way (Serve.moved r m)

over-IsStuck : IsStuck over
over-IsStuck t (Serve.close_listener w c) = cc
over-IsStuck t (Serve.cancel_conns w) = cc
over-IsStuck t (Serve.accept_closed p l) = cc
over-IsStuck t (Serve.wind_down p) = cc
over-IsStuck t (Serve.join_conns j c) = cc
over-IsStuck t (Serve.join_sessions j c) = cc
over-IsStuck t (Serve.drained p j) = cc
over-IsStuck t (Serve.drain_timeout p) = cc
over-IsStuck t (Serve.finish p w) = cc
over-IsStuck t (Serve.finish_timeout p) = cc

serve-drains_example :
    ((over.pc ≢ returned)
      ⊎ (over.timed_out ≡ true)
      ⊎ ((over.conns ≡ 0) × (over.sessions ≡ 0) × (over.conns ≡ 0) × (over.sessions ≡ 0)))
    × ((over.joiner ≡ Serve.unborn)
        ⊎ (over.joiner ≡ Serve.joins_conns)
        ⊎ ((over.conns ≡ 0) × (over.sessions ≤ over.sessions)))
serve-drains_example = serve-drains (Leads-Reach asked-over asked-Reach) Serve.cancel

serve-Returns_example :
    ((over.pc ≡ returned)
      × (over.conns_cancelled ≡ true)
      × ((asked.cancelled ≡ false) ⊎ (over.listening ≡ false)))
    × ((a b : Serving) → Serve.Move a b → rank b < rank a)
serve-Returns_example = serve-Returns asked-Reach (inl refl) asked-over over-IsStuck

abbrev one_conn : Serving
one_conn = record Serve.begin { conns = 1 }

handle_conn-Reach_example :
    (let t = count_effects (handle_conn (codes "peer") opened) one_conn in
      Serve.Reach t
      × (t.conns ≡ 0)
      × (t.sessions
          ≡ 0
            + ((tally (handle_conn (codes "peer") opened)).sessions
                + (tally (handle_conn (codes "peer") opened)).forwards)))
handle_conn-Reach_example =
    handle_conn-Reach (codes "peer") opened (Serve.happened Serve.start (Serve.accept refl refl))
      refl
