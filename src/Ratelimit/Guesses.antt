-- ===== src/Ratelimit/Guesses.antt =====
-- How fast the limiter of internal/ratelimit/ratelimit.go lets one key guess.
use minisshd.Prelude.{
  ℕ, ◌+◌, ◌*◌, ◌^◌, ◌≤◌, ◌<◌, ◌≡◌, refl, inl, inr, true, false, List, [], ◌∷◌, arith, if◌then◌else◌,
  Bytes, ◌=s=◌, =s=_iff, =s=-refl, Bool-cases,
}
use minisshd.Ratelimit.Delay.{second, compute_delay}
use minisshd.Ratelimit.Limiter.{Entry, fresh, new, fail_entry}
use minisshd.Ratelimit.HeadStart.{head_start, head_start_zero, IsLast, inc64_small, guess-time}
use minisshd.Ratelimit.Attempts.{
  current, Attempt, delays, Record, spec_attempt, spec_delays, delays-spec_delays,
}

-- The attempts of one key that fail, one after the other: none begins before the last has ended, and
-- each sleeps the delay that it is given.
abbrev pub IsGuessing : (k : Bytes) (from : ℕ) → List Attempt → List ℕ → Type 0
IsGuessing k from [] ds = Unit
IsGuessing k from (a ∷ rest) [] = ⊥
IsGuessing k from (a ∷ rest) (d ∷ ds) = elim (a.key =s= k) [
  | true ↦ (a.ok ≡ false) × (from ≤ a.at) × (a.at + d ≤ a.until) × IsGuessing k a.until rest ds
  | false ↦ IsGuessing k from rest ds
]

abbrev pub guesses : Bytes → List Attempt → ℕ
guesses k [] = 0
guesses k (a ∷ rest) = (if a.key =s= k then 1 else 0) + guesses k rest

-- When the last of them has ended.
abbrev pub finish : Bytes → ℕ → List Attempt → ℕ
finish k from [] = from
finish k from (a ∷ rest) = finish k (if a.key =s= k then a.until else from) rest

-- What an attempt of the key leaves of its record, and one of another key.
spec_attempt-own :
    (k : Bytes) (a : Attempt) (s : Record)
    → (a.key =s= k) ≡ true
    → a.ok ≡ false
    → ((spec_attempt a s).0 k ≡ fail_entry a.until (current a.at (s k)))
      × ((spec_attempt a s).1 ≡ compute_delay (current a.at (s k)).fail_count)
unfolding spec_attempt
spec_attempt-own k a s e fails =
    let same : a.key ≡ k = (=s=_iff a.key k).0 e in rw (same, fails, =s=-refl k) (refl, refl)

spec_attempt-other :
    (k : Bytes) (a : Attempt) (s : Record) → (a.key =s= k) ≡ false → (spec_attempt a s).0 k ≡ s k
unfolding spec_attempt
spec_attempt-other k a s e = rw e refl

current-le : (at : ℕ) (e : Entry) → (current at e).fail_count ≤ e.fail_count
current-le at e = ground arith

module _ (k : Bytes) where
  -- What is to be shown of the attempts that are left.
  abbrev IsSlow : Record → ℕ → List Attempt → Type 0
  IsSlow s from rest =
      56 * second * guesses k rest + from
      ≤ finish k from rest + head_start (s k).fail_count * second

  abbrev IsSmall : Record → List Attempt → Type 0
  IsSmall s rest = (s k).fail_count + guesses k rest < 2 ^ 63

  own-IsSlow_sum :
      (a : Attempt) (rest : List Attempt) (s : Record) (from : ℕ)
      → (a.key =s= k) ≡ true
      → (spec_attempt a s).0 k ≡ fail_entry a.until (current a.at (s k))
      → IsSlow (spec_attempt a s).0 a.until rest
      → 56 * second
          + from
          + head_start (fail_entry a.until (current a.at (s k))).fail_count * second
        ≤ a.until + head_start (s k).fail_count * second
      → IsSlow s from (a ∷ rest)
  own-IsSlow_sum a rest s from e left later step =
      let later' = rw left at later in rw e (omega (arith, later', step))

  other-IsSlow_sum :
      (a : Attempt) (rest : List Attempt) (s : Record) (from : ℕ)
      → (a.key =s= k) ≡ false
      → (spec_attempt a s).0 k ≡ s k
      → IsSlow (spec_attempt a s).0 from rest
      → IsSlow s from (a ∷ rest)
  other-IsSlow_sum a rest s from e left later =
      let later' = rw left at later in rw e (omega (arith, later'))

  own-IsSlow :
      (a : Attempt) (rest : List Attempt) (s : Record) (from : ℕ)
      → (a.key =s= k) ≡ true
      → IsLast from (s k)
      → IsSmall s (a ∷ rest)
      → a.ok ≡ false
      → from ≤ a.at
      → a.at + (spec_attempt a s).1 ≤ a.until
      → (IsLast a.until ((spec_attempt a s).0 k)
          → IsSmall (spec_attempt a s).0 rest
          → IsSlow (spec_attempt a s).0 a.until rest)
      → IsSlow s from (a ∷ rest)
  own-IsSlow a rest s from e last small fails early slept go =
      let (left, delay) = spec_attempt-own k a s e fails in
      let now = (current a.at (s k)).fail_count in
      let slept' : a.at + compute_delay now ≤ a.until = rw delay at slept in
      let counted = inc64_small now (omega (arith, current-le a.at (s k), small)) in
      let later : IsSlow (spec_attempt a s).0 a.until rest =
        go (rw left (inr refl)) (rw left (grind (arith, current-le a.at (s k)))) in
      own-IsSlow_sum a rest s from e left later
        (guess-time (s k) from a.at a.until last (omega (arith, small)) early slept')

  guesses-IsSlow :
      (rest : List Attempt) (s : Record) (from : ℕ)
      → IsLast from (s k)
      → IsSmall s rest
      → IsGuessing k from rest (spec_delays rest s)
      → IsSlow s from rest
  unfolding spec_delays
  guesses-IsSlow [] s from last small g = omega arith
  guesses-IsSlow (a ∷ rest) s from last small g = elim (Bool-cases (a.key =s= k)) [
    | inl e ↦
        let (fails, early, slept, later) = rw (e, IsGuessing) at g in
        own-IsSlow a rest s from e last small fails early slept
          (λ last' small'. guesses-IsSlow rest (spec_attempt a s).0 a.until last' small' later)
    | inr e ↦
        let later = rw (e, IsGuessing) at g in
        let left = spec_attempt-other k a s e in
        let slow =
          guesses-IsSlow rest (spec_attempt a s).0 from (rw left last) (rw left (ground (arith)))
            later in
        other-IsSlow_sum a rest s from e left slow
  ]

-- However long a client goes on: if its attempts fail, each begins after the last has ended, and each
-- sleeps the delay that the limiter gives, then `n` of them (fewer than 2 ^ 63) take at least
-- `56 * n - 581` seconds, whatever is attempted under other keys in between.
pub delays-slow :
    (k : Bytes) (from : ℕ) (rest : List Attempt)
    → guesses k rest < 2 ^ 63
    → IsGuessing k from rest (delays rest new)
    → 56 * second * guesses k rest + from ≤ finish k from rest + 581 * second
delays-slow k from rest small g =
    let slow =
      guesses-IsSlow k rest (λ _. fresh) from (inl refl) (omega (arith, small))
        (rw (delays-spec_delays rest) at g) in
    rw head_start_zero at slow
