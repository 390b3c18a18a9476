-- ===== src/Server/Forward/Channels.antt =====
-- The channels of one connection, their goroutines interleaved in any order, on one counter.
use minisshd.Prelude.{
  ℕ, zero, suc, ◌+◌, ◌≤◌, ◌<◌, ◌≡◌, ◌≢◌, refl, ◌↔◌, true, false, Option, some, List, [], ◌∷◌, arith,
  ◌==◌, if◌then◌else◌, Bytes, All, Option-cases, inl, inr,
}
use native.Mathlib.Decide.{dec_lt}
use minisshd.Server.Forward.{
  Counter, acquire, release, Payload, connected, dial_failed, Stage, opening, dialing, piping,
  ended, connect, settle, Answer, run, dialed, copied, parse_direct_tcpip, enter, advance,
}

abbrev pub at : (ℕ → Stage) → ℕ → Stage → ℕ → Stage
at f i x j = if i == j then x else f j

abbrev pub slot : Stage → ℕ
slot (opening _) = 0
slot (dialing _) = 1
slot (piping _) = 1
slot ended = 0

-- The slots that the first `n` channels hold.
unfoldable pub held : ℕ → (ℕ → Stage) → ℕ
held zero f = 0
held (suc n) f = held n f + slot (f n)

held-at_above : (n i : ℕ) (f : ℕ → Stage) (x : Stage) → n ≤ i → held n (at f i x) ≡ held n f
unfolding held
held-at_above zero i f x h = refl
held-at_above (suc n) i f x h = ground (arith, held-at_above n i f x)

held-at :
    (n i : ℕ) (f : ℕ → Stage) (x : Stage)
    → i < n
    → held n (at f i x) + slot (f i) ≡ held n f + slot x
unfolding held
held-at zero i f x h = elim h [ ]
held-at (suc n) i f x h = elim (dec_lt i n) [
  | yes below ↦ ground (arith, held-at n i f x below)
  | no last ↦ ground (arith, held-at_above n i f x)
]

module _ (remote : Bytes) (unmarshal : Bytes → Option Payload) where
  -- A step of one channel changes the counter as it changes the channel's slot.
  advance-slot :
      (a : Answer) (x : Stage) (c : Counter)
      → slot x ≤ c.inflight
      → c.inflight ≤ c.cap
      → (let r = advance unmarshal remote a x c in
          (r.0.inflight + slot x ≡ c.inflight + slot r.1)
          × (r.0.inflight ≤ c.cap)
          × (r.0.cap ≡ c.cap))
  unfolding advance enter connect settle acquire release
  advance-slot run (opening e) c h k = ground arith
  advance-slot (dialed d b) (opening e) c h k = ground arith
  advance-slot (copied i o t) (opening e) c h k = ground arith
  advance-slot (dialed (dial_failed e) b) (dialing p) c h k = ground arith
  advance-slot (dialed connected true) (dialing p) c h k = ground arith
  advance-slot (dialed connected false) (dialing p) c h k = ground arith
  advance-slot run (dialing p) c h k = ground arith
  advance-slot (copied i o t) (dialing p) c h k = ground arith
  advance-slot (copied i o t) (piping p) c h k = ground arith
  advance-slot run (piping p) c h k = ground arith
  advance-slot (dialed d b) (piping p) c h k = ground arith
  advance-slot run ended c h k = ground arith
  advance-slot (dialed d b) ended c h k = ground arith
  advance-slot (copied i o t) ended c h k = ground arith

pub record Conn : Type 0 where
  pub counter : Counter
  pub stages : ℕ → Stage

module _ (remote : Bytes) (unmarshal : Bytes → Option Payload) where
  unfoldable pub step : ℕ → Answer → Conn → Conn
  step i a s =
      let r = advance unmarshal remote a (s.stages i) s.counter in
      record { counter = r.0; stages = at s.stages i r.1 }

  -- A schedule says which channel moves next, and on which answer.
  unfoldable pub interleave : List (ℕ × Answer) → Conn → Conn
  interleave [] s = s
  interleave ((i, a) ∷ schedule) s = interleave schedule (step i a s)

-- The counter is the number of the slots held by the connection's `n` channels, within the cap.
pub record IsCounted (n cap : ℕ) (s : Conn) : Type 0 where
  pub exact : s.counter.inflight ≡ held n s.stages
  pub within : s.counter.inflight ≤ cap
  pub capped : s.counter.cap ≡ cap

slot-le-held : (n i : ℕ) (f : ℕ → Stage) → i < n → slot (f i) ≤ held n f
unfolding held
slot-le-held zero i f h = elim h [ ]
slot-le-held (suc n) i f h = elim (dec_lt i n) [
  | yes below ↦ omega (arith, slot-le-held n i f below)
  | no last ↦ (let e : i ≡ n = omega arith in rw e (omega arith))
]

module _ (remote : Bytes) (unmarshal : Bytes → Option Payload) {n cap : ℕ} where
  step-IsCounted :
      (i : ℕ) (a : Answer) (s : Conn)
      → i < n
      → IsCounted n cap s
      → IsCounted n cap (step remote unmarshal i a s)
  unfolding step
  step-IsCounted i a s h v =
      let r = advance unmarshal remote a (s.stages i) s.counter in
      let (same, below, kept) =
        advance-slot remote unmarshal a (s.stages i) s.counter
          (omega (arith, slot-le-held n i s.stages h)) (omega arith) in
      record {
        exact = omega (arith, held-at n i s.stages r.1 h);
        within = omega arith;
        capped = omega arith;
      }

  -- From a state where it is so, whatever the order in which the goroutines of a connection's `n`
  -- channels run, and whatever the dials and peers answer, the counter stays exactly the number of
  -- channels that hold a slot, and never more than the cap.
  pub interleave-IsCounted :
      (schedule : List (ℕ × Answer)) (s : Conn)
      → All (λ m. m.0 < n) schedule
      → IsCounted n cap s
      → IsCounted n cap (interleave remote unmarshal schedule s)
  unfolding interleave
  interleave-IsCounted [] s h v = v
  interleave-IsCounted ((i, a) ∷ schedule) s h v =
      interleave-IsCounted schedule (step remote unmarshal i a s) h.1 (step-IsCounted i a s h.0 v)

  -- A well-formed request for a forward gets a slot, and goes on to the dial, exactly while fewer
  -- channels than the cap hold one; otherwise the counter stays as it is.
  pub enter-dials :
      (s : Conn) (extra : Bytes) (p : Payload)
      → IsCounted n cap s
      → parse_direct_tcpip unmarshal extra ≡ some p
      → (let r = enter unmarshal remote extra s.counter in
          ((r.1 ≡ dialing p) ↔ (held n s.stages < cap))
          × (r.1 ≢ dialing p → (r.1 ≡ ended) × (r.0 ≡ s.counter)))
  unfolding enter acquire
  enter-dials s extra p v e = ground arith

-- The parser lets through exactly what `Unmarshal` reads with a destination port from 1 to 65535.
parse_direct_tcpip_iff :
    (unmarshal : Bytes → Option Payload) (extra : Bytes) (p : Payload)
    → (parse_direct_tcpip unmarshal extra ≡ some p)
      ↔ ((unmarshal extra ≡ some p) × (1 ≤ p.dest_port) × (p.dest_port ≤ 65535))
unfolding parse_direct_tcpip
parse_direct_tcpip_iff unmarshal extra p = elim (Option-cases (unmarshal extra)) [
  | inl e ↦ ground arith
  | inr (q, e) ↦ ground arith
]
