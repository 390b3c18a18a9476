-- ===== src/Server/Dispatch.antt =====
-- `classifyChannel`, `routeChannel` and `handleGlobalRequest` of internal/server/dispatch.go. What
-- they do to the logger and to the peer is recorded as a list of effects.
use minisshd.Prelude.{
  ℕ, suc, ◌⊎◌, ◌≡◌, ◌≢◌, ◌↔◌, Bool, true, false, ◌||◌, List, [], ◌∷◌, ◌++◌, arith, if◌then◌else◌,
  Bytes, codes, ◌=s=◌, =s=_iff,
}

pub data Action : Type 0 where
  rejected session forward : Action

-- The reasons of golang.org/x/crypto/ssh that the dispatcher uses.
pub data Reason : Type 0 where
  prohibited unknown_channel_type connection_failed : Reason

pub data Effect : Type 0 where
  log_reject : (remote what : Bytes) → Effect
  reject_channel : Reason → Bytes → Effect
  deny : Effect

abbrev pub channel_type_session : Bytes
channel_type_session = codes "session"

abbrev pub channel_type_direct_tcpip : Bytes
channel_type_direct_tcpip = codes "direct-tcpip"

abbrev pub channel_type_forwarded_tcpip : Bytes
channel_type_forwarded_tcpip = codes "forwarded-tcpip"

abbrev pub channel_type_direct_streamlocal : Bytes
channel_type_direct_streamlocal = codes "direct-streamlocal@openssh.com"

abbrev pub channel_type_streamlocal_forward : Bytes
channel_type_streamlocal_forward = codes "streamlocal-forward@openssh.com"

unfoldable pub classify_channel : Bytes → Bytes → Action × List Effect
classify_channel kind remote =
    if kind =s= channel_type_session
    then (session, [])
    else if kind =s= channel_type_direct_tcpip
    then (forward, [])
    else if kind =s= channel_type_forwarded_tcpip
    then (
      rejected,
      log_reject remote (codes "tcpip")
          ∷ reject_channel prohibited (codes "port forwarding not supported")
          ∷ [],
    )
    else if kind =s= channel_type_direct_streamlocal || kind =s= channel_type_streamlocal_forward
    then (
      rejected,
      log_reject remote (codes "streamlocal")
          ∷ reject_channel prohibited (codes "unix-socket forwarding not supported")
          ∷ [],
    )
    else (
      rejected,
      log_reject remote kind
          ∷ reject_channel unknown_channel_type (codes "unknown channel type")
          ∷ [],
    )

abbrev pub is_session : Action → Bool
is_session session = true
is_session _ = false

unfoldable pub route_channel : Bytes → Bytes → Bool × List Effect
route_channel kind remote =
    let (action, es) = classify_channel kind remote in (is_session action, es)

unfoldable pub handle_global_request : Bytes → Bytes → List Effect
handle_global_request kind remote =
    (if kind =s= codes "tcpip-forward" || kind =s= codes "cancel-tcpip-forward"
      then log_reject remote (codes "tcpip") ∷ []
      else [])
    ++ deny ∷ []

-- One log line with the peer's address, then one refusal.
abbrev pub IsRefusal : Bytes → List Effect → Type 0
IsRefusal remote (log_reject r what ∷ reject_channel reason message ∷ []) = r ≡ remote
IsRefusal remote _ = ⊥

-- A channel is a session exactly if its type is "session" and a forward exactly if it is
-- "direct-tcpip"; neither has an effect. Every other channel is logged once and refused once.
classify_channel_lem :
    (kind remote : Bytes)
    → (let r = classify_channel kind remote in
        ((r.0 ≡ session) ↔ (kind ≡ channel_type_session))
        × ((r.0 ≡ forward) ↔ (kind ≡ channel_type_direct_tcpip))
        × (((r.0 ≢ rejected) × (r.1 ≡ [])) ⊎ ((r.0 ≡ rejected) × IsRefusal remote r.1)))
unfolding classify_channel ◌=s=◌
classify_channel_lem kind remote =
    ground (arith, =s=_iff kind channel_type_session, =s=_iff kind channel_type_direct_tcpip)

-- `routeChannel` accepts exactly the sessions, and does what `classifyChannel` does.
route_channel_lem :
    (kind remote : Bytes)
    → ((route_channel kind remote).0 ≡ (kind =s= channel_type_session))
      × ((route_channel kind remote).1 ≡ (classify_channel kind remote).1)
unfolding route_channel classify_channel
route_channel_lem kind remote = ground arith

abbrev pub count_denials : List Effect → ℕ
count_denials [] = 0
count_denials (deny ∷ es) = suc (count_denials es)
count_denials (_ ∷ es) = count_denials es

-- Every global request is denied exactly once, and it is logged exactly if it asks for remote port
-- forwarding to be set up or torn down.
handle_global_request_lem :
    (kind remote : Bytes)
    → (count_denials (handle_global_request kind remote) ≡ 1)
      × ((handle_global_request kind remote ≡ log_reject remote (codes "tcpip") ∷ deny ∷ [])
          ↔ ((kind ≡ codes "tcpip-forward") ⊎ (kind ≡ codes "cancel-tcpip-forward")))
unfolding handle_global_request
handle_global_request_lem kind remote =
    ground
      (arith, =s=_iff kind (codes "tcpip-forward"), =s=_iff kind (codes "cancel-tcpip-forward"))
