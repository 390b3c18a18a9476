-- ===== src/Server/Forward.antt =====
-- Local port forwarding: `forwardCounter`, `parseDirectTCPIP` and `handleDirectTCPIP` of
-- internal/server/forward.go. `ssh.Unmarshal` and the dial are parameters. The cap is not negative
-- (it is validated in cmd/minisshd), so the ints are natural numbers.
pub mod Channels
use minisshd.Prelude.{
  ℕ, suc, ◌-◌, ◌+◌, Bool, true, false, ◌||◌, Option, none, some, List, [], ◌∷◌, ◌++◌, ltb, leb,
  ◌==◌, if◌then◌else◌, Bytes, codes,
}
use minisshd.Server.Dispatch.{Reason, prohibited, connection_failed}

pub record Counter : Type 0 where
  pub cap : ℕ
  pub inflight : ℕ

unfoldable pub acquire : Counter → Counter × Bool
acquire c =
    if c.cap == 0 || leb c.cap c.inflight
    then (c, false)
    else (record c { inflight = c.inflight + 1 }, true)

unfoldable pub release : Counter → Counter
release c = if ltb 0 c.inflight then record c { inflight = c.inflight - 1 } else c

pub record Payload : Type 0 where
  pub dest_addr : Bytes
  pub dest_port : ℕ
  pub origin_addr : Bytes
  pub origin_port : ℕ

pub data Effect : Type 0 where
  forward_open :
      (remote dest_host : Bytes) (dest_port : ℕ) (orig_host : Bytes) (orig_port : ℕ) → Effect
  forward_close : (remote dest_host : Bytes) (dest_port bytes_in bytes_out duration : ℕ) → Effect
  forward_reject : (remote dest_host : Bytes) (dest_port : ℕ) (reason : Bytes) → Effect
  reject_channel : Reason → Bytes → Effect
  dial : (host : Bytes) (port : ℕ) → Effect
  accept close_tcp close_channel : Effect

-- What the dial and `Accept` answer; a failed dial has a message.
pub data Dialed : Type 0 where
  connected : Dialed
  dial_failed : Bytes → Dialed

-- Where a channel stands between the steps on the counter.
pub data Stage : Type 0 where
  opening : Bytes → Stage  -- not looked at yet, with its extra data
  dialing : Payload → Stage  -- has a slot
  piping : Payload → Stage  -- has a slot, and both ends
  ended : Stage

-- The dial's answer, and that of `Accept`.
unfoldable pub connect : Bytes → Payload → Dialed → Bool → Counter → Counter × Stage × List Effect
connect remote p (dial_failed e) accepted c = (
  release c,
  ended,
  forward_reject remote p.dest_addr p.dest_port (codes "dial-failed")
      ∷ reject_channel connection_failed (codes "dial failed: " ++ e)
      ∷ [],
)
connect remote p connected false c = (release c, ended, accept ∷ close_tcp ∷ [])
connect remote p connected true c = (
  c,
  piping p,
  accept ∷ forward_open remote p.dest_addr p.dest_port p.origin_addr p.origin_port ∷ [],
)

-- After both copies are done.
unfoldable pub settle :
    Bytes → Payload → (bytes_in bytes_out duration : ℕ) → Counter → Counter × Stage × List Effect
settle remote p bytes_in bytes_out duration c = (
  release c,
  ended,
  close_channel
      ∷ close_tcp
      ∷ forward_close remote p.dest_addr p.dest_port bytes_in bytes_out duration
      ∷ [],
)

-- What the outside tells the goroutine of a channel: that it may run, how the dial and `Accept` went,
-- or that both copies are done.
pub data Answer : Type 0 where
  run : Answer
  dialed : Dialed → (accepted : Bool) → Answer
  copied : (bytes_in bytes_out duration : ℕ) → Answer

module _ (unmarshal : Bytes → Option Payload) where
  unfoldable pub parse_direct_tcpip : Bytes → Option Payload
  parse_direct_tcpip bytes = elim (unmarshal bytes) [
    | none ↦ none
    | some p ↦ if p.dest_port == 0 || ltb 65535 p.dest_port then none else some p
  ]

  -- From the entry to the cap check.
  unfoldable pub enter : Bytes → Bytes → Counter → Counter × Stage × List Effect
  enter remote extra c = elim (parse_direct_tcpip extra) [
    | none ↦ (
      c,
      ended,
      forward_reject remote [] 0 (codes "malformed-payload")
          ∷ reject_channel connection_failed (codes "malformed direct-tcpip payload")
          ∷ [],
    )
    | some p ↦
        let (c', ok) = acquire c in
        if ok then (c', dialing p, dial p.dest_addr p.dest_port ∷ []) else (
          c',
          ended,
          forward_reject remote p.dest_addr p.dest_port (codes "over-cap")
              ∷ reject_channel prohibited (codes "too many concurrent forwards")
              ∷ [],
        )
  ]

  -- One step of a channel's goroutine; an answer that does not fit its stage leaves it waiting.
  unfoldable pub advance : Bytes → Answer → Stage → Counter → Counter × Stage × List Effect
  advance remote a (opening extra) c = enter remote extra c
  advance remote (dialed d accepted) (dialing p) c = connect remote p d accepted c
  advance remote (copied bytes_in bytes_out duration) (piping p) c =
      settle remote p bytes_in bytes_out duration c
  advance remote a stage c = (c, stage, [])
