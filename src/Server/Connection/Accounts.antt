-- ===== src/Server/Connection/Accounts.antt =====
-- What a connection of internal/server/server.go does with the channels of its client, counted.
use minisshd.Prelude.{
  ℕ, suc, ◌+◌, ◌≡◌, refl, ◌||◌, none, some, List, [], ◌∷◌, ◌++◌, arith, if◌then◌else◌, Bytes, codes,
  ◌=s=◌, length,
}
use minisshd.Server.Dispatch
use minisshd.Server.Dispatch.{
  Action, classify_channel, channel_type_session, channel_type_direct_tcpip,
}
use minisshd.Server.Connection.{
  NewChannel, Handshake, is_expected_handshake_error, failed, established, Effect, conn_open,
  conn_close, log_error, classified, start_session, start_forward, cancel_conn, close_server_conn,
  close_net, all_classified, serve_action, serve_channel, serve_channels, after_handshake,
  handle_conn,
}

-- What is counted: goroutines for sessions and for forwards, refusals, failures to accept, and the
-- connection's own log lines.
pub record Tally : Type 0 where
  pub sessions : ℕ
  pub forwards : ℕ
  pub refusals : ℕ
  pub failures : ℕ
  pub marks : ℕ

abbrev pub tally : List Effect → Tally
tally [] = record { sessions = 0; forwards = 0; refusals = 0; failures = 0; marks = 0 }
tally (e ∷ es) =
    let t = tally es in
    elim e [
      | start_session r ↦ record t { sessions = suc t.sessions }
      | start_forward r ↦ record t { forwards = suc t.forwards }
      | classified (Dispatch.reject_channel r m) ↦ record t { refusals = suc t.refusals }
      | log_error m r ↦ record t { failures = suc t.failures }
      | conn_open r ↦ record t { marks = suc t.marks }
      | conn_close r ↦ record t { marks = suc t.marks }
      | _ ↦ t
    ]

-- What the channels ask for.
abbrev pub asked : List NewChannel → Tally
asked [] = record { sessions = 0; forwards = 0; refusals = 0; failures = 0; marks = 0 }
asked (c ∷ cs) =
    let t = asked cs in
    if c.kind =s= channel_type_session
    then (elim c.accept_error [
      | none ↦ record t { sessions = suc t.sessions }
      | some e ↦ record t { failures = suc t.failures }
    ])
    else if c.kind =s= channel_type_direct_tcpip
    then record t { forwards = suc t.forwards }
    else record t { refusals = suc t.refusals }

abbrev plus : Tally → Tally → Tally
plus a b = record {
  sessions = a.sessions + b.sessions;
  forwards = a.forwards + b.forwards;
  refusals = a.refusals + b.refusals;
  failures = a.failures + b.failures;
  marks = a.marks + b.marks;
}

tally-append : (es fs : List Effect) → tally (es ++ fs) ≡ plus (tally es) (tally fs)
tally-append [] fs = grind arith
tally-append (e ∷ es) fs = ground (arith, tally-append es fs)

serve_channel-tally :
    (remote : Bytes) (c : NewChannel) (cs : List NewChannel)
    → plus (tally (serve_channel remote c)) (asked cs) ≡ asked (c ∷ cs)
unfolding serve_channel serve_action all_classified classify_channel
serve_channel-tally remote c cs = ground arith

serve_channels-tally :
    (remote : Bytes) (cs : List NewChannel) → tally (serve_channels remote cs) ≡ asked cs
unfolding serve_channels
serve_channels-tally remote [] = refl
serve_channels-tally remote (c ∷ cs) = ground (
  arith,
  tally-append (serve_channel remote c) (serve_channels remote cs),
  serve_channels-tally remote cs,
  serve_channel-tally remote c cs,
)

asked-total :
    (cs : List NewChannel)
    → (let t = asked cs in t.sessions + t.forwards + t.refusals + t.failures ≡ length cs)
asked-total [] = refl
asked-total (c ∷ cs) = ground (arith, asked-total cs)

-- What is to be counted of a connection whose handshake had this end.
abbrev pub IsAccounted : List Effect → Handshake → Type 0
IsAccounted es (failed e) =
    let t = tally es in
    (t.sessions ≡ 0)
    × (t.forwards ≡ 0)
    × (t.refusals ≡ 0)
    × (t.failures ≡ (
        if e.is_auth || e.text =s= codes "EOF" || e.text =s= codes "unexpected EOF" then 0 else 1))
IsAccounted es (established cs) =
    let t = tally es in
    (t.sessions ≡ (asked cs).sessions)
    × (t.forwards ≡ (asked cs).forwards)
    × (t.refusals ≡ (asked cs).refusals)
    × (t.failures ≡ (asked cs).failures)
    × (t.sessions + t.forwards + t.refusals + t.failures ≡ length cs)

tally-prefix-last :
    (remote : Bytes) (mid : List Effect)
    → tally (conn_open remote ∷ mid ++ close_net ∷ conn_close remote ∷ [])
      ≡ record (tally mid) { marks = 2 + (tally mid).marks }
tally-prefix-last remote mid = ground (arith, tally-append mid (close_net ∷ conn_close remote ∷ []))

asked-marks : (cs : List NewChannel) → (asked cs).marks ≡ 0
asked-marks [] = refl
asked-marks (c ∷ cs) = ground (arith, asked-marks cs)

established-tally :
    (remote : Bytes) (cs : List NewChannel)
    → tally (after_handshake remote (established cs)) ≡ asked cs
unfolding after_handshake
established-tally remote cs = ground (
  arith,
  tally-append (serve_channels remote cs) (cancel_conn ∷ close_server_conn ∷ []),
  serve_channels-tally remote cs,
)

-- Within the connection's two log lines there is no other.
pub after_handshake-tally :
    (remote : Bytes) (h : Handshake)
    → (let t = tally (handle_conn remote h) in
        let mid = tally (after_handshake remote h) in
        (mid.marks ≡ 0) × (t.sessions ≡ mid.sessions) × (t.forwards ≡ mid.forwards))
unfolding handle_conn after_handshake
after_handshake-tally remote (failed e) = ground arith
after_handshake-tally remote (established cs) =
    let t = tally-prefix-last remote (after_handshake remote (established cs)) in
    let m = established-tally remote cs in let n = asked-marks cs in ground arith

-- A connection logs its opening first and its closing last, each once, and closes the socket just before
-- the closing is logged, whether or not the handshake succeeds. It starts one goroutine for each session
-- channel that it accepts and one for each forward, refuses each channel of another type once, logs
-- each failure to accept once, and so accounts for every channel that the client opens. A failed
-- handshake is logged exactly if it is neither a matter of authentication nor an early end of input.
pub handle_conn-accounts :
    (remote : Bytes) (h : Handshake)
    → (let es = handle_conn remote h in
        (((mid : List Effect) × (es ≡ conn_open remote ∷ mid ++ close_net ∷ conn_close remote ∷ []))
          × ((tally es).marks ≡ 2))
        × IsAccounted es h)
unfolding handle_conn after_handshake is_expected_handshake_error
handle_conn-accounts remote (failed e) = (((_, refl), ground arith), ground arith)
handle_conn-accounts remote (established cs) =
    let t = tally-prefix-last remote (after_handshake remote (established cs)) in
    let m = established-tally remote cs in
    let n = asked-marks cs in
    let total = asked-total cs in
    (((after_handshake remote (established cs), refl), ground arith), ground arith)
