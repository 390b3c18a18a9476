-- ===== src/Server/Serve/Connected.antt =====
-- `handleConn` inside `Serve` of internal/server/server.go: what a connection does to the wait groups.
use minisshd.Prelude.{ℕ, suc, ◌-◌, ◌+◌, ◌≡◌, refl, List, [], ◌∷◌, ◌++◌, arith, Bytes}
use minisshd.Server.Dispatch
use minisshd.Server.Connection.{
  Handshake, Effect, conn_open, conn_close, log_error, classified, serve_requests, start_session,
  start_forward, cancel_conn, close_server_conn, close_net, handle_conn, after_handshake,
}
use minisshd.Server.Connection.Accounts.{tally, after_handshake-tally}
use minisshd.Server.Serve.{Serving, Reach, happened, begin_session, end_conn}

-- `sessionsWG.Add(1)` for a session or a forward; the `connsWG.Done()` in `Serve` comes right after
-- `conn-close`.
abbrev pub count_effect : Effect → Serving → Serving
count_effect (start_session remote) s = record s { sessions = suc s.sessions }
count_effect (start_forward remote) s = record s { sessions = suc s.sessions }
count_effect (conn_close remote) s = record s { conns = s.conns - 1 }
count_effect _ s = s

unfoldable pub count_effects : List Effect → Serving → Serving
count_effects [] s = s
count_effects (e ∷ es) s = count_effects es (count_effect e s)

count_effects-append :
    (es fs : List Effect) (s : Serving)
    → count_effects (es ++ fs) s ≡ count_effects fs (count_effects es s)
unfolding count_effects
count_effects-append [] fs s = refl
count_effects-append (e ∷ es) fs s = count_effects-append es fs (count_effect e s)

-- Without a `conn-close`, only the sessions grow.
count_effects-Reach :
    (es : List Effect) (s : Serving) (n : ℕ)
    → (tally es).marks ≡ 0
    → s.conns ≡ suc n
    → Reach s
    → Reach (count_effects es s)
      × ((count_effects es s).conns ≡ suc n)
      × ((count_effects es s).sessions ≡ s.sessions + ((tally es).sessions + (tally es).forwards))
unfolding count_effects
count_effects-Reach [] s n m c r = (r, c, omega arith)
count_effects-Reach (start_session remote ∷ es) s n m c r =
    let (r', c', t) = count_effects-Reach es _ n m c (happened r (begin_session c)) in
    (r', c', omega (arith, t))
count_effects-Reach (start_forward remote ∷ es) s n m c r =
    let (r', c', t) = count_effects-Reach es _ n m c (happened r (begin_session c)) in
    (r', c', omega (arith, t))
count_effects-Reach (conn_open remote ∷ es) s n m c r = absurd (omega (arith, m))
count_effects-Reach (conn_close remote ∷ es) s n m c r = absurd (omega (arith, m))
count_effects-Reach (log_error message remote ∷ es) s n m c r = count_effects-Reach es s n m c r
count_effects-Reach (classified (Dispatch.log_reject q w) ∷ es) s n m c r =
    count_effects-Reach es s n m c r
count_effects-Reach (classified (Dispatch.deny) ∷ es) s n m c r = count_effects-Reach es s n m c r
count_effects-Reach (classified (Dispatch.reject_channel q w) ∷ es) s n m c r =
    count_effects-Reach es s n m c r
count_effects-Reach (serve_requests remote ∷ es) s n m c r = count_effects-Reach es s n m c r
count_effects-Reach (cancel_conn ∷ es) s n m c r = count_effects-Reach es s n m c r
count_effects-Reach (close_server_conn ∷ es) s n m c r = count_effects-Reach es s n m c r
count_effects-Reach (close_net ∷ es) s n m c r = count_effects-Reach es s n m c r

-- The connection is over.
close-Reach :
    (remote : Bytes) (s : Serving) (n : ℕ)
    → s.conns ≡ suc n
    → Reach s
    → Reach (count_effects (close_net ∷ conn_close remote ∷ []) s)
      × ((count_effects (close_net ∷ conn_close remote ∷ []) s).conns ≡ n)
unfolding count_effects
close-Reach remote s n c r =
    let there : s.conns - 1 ≡ n = omega (arith, c) in (rw there (happened r (end_conn c)), there)

-- Wherever a connection of `Serve` is running, the effects of the whole `handleConn` on the wait groups
-- lead to a state that is reachable too: it has one connection less, and as many sessions
-- more as goroutines were started for sessions and forwards; whatever the handshake gave and
-- whatever channels the client has opened.
pub handle_conn-Reach :
    {s : Serving} {n : ℕ} (remote : Bytes) (h : Handshake)
    → Reach s
    → s.conns ≡ suc n
    → (let es = handle_conn remote h in
        let t = count_effects es s in
        Reach t
        × (t.conns ≡ n)
        × (t.sessions ≡ s.sessions + ((tally es).sessions + (tally es).forwards)))
unfolding handle_conn count_effects
handle_conn-Reach {s} {n} remote h r c =
    let (marks, sessions, forwards) = after_handshake-tally remote h in
    let mid = after_handshake remote h in
    let (r', c', grown) = count_effects-Reach mid s n marks c r in
    let (r'', c'') = close-Reach remote (count_effects mid s) n c' r' in
    rw (count_effects-append mid (close_net ∷ conn_close remote ∷ []) s)
      (r'', c'', omega (arith, grown, sessions, forwards))
