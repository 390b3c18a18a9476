-- ===== src/Ratelimit/HeadStart.antt =====
-- The delays of internal/ratelimit/ratelimit.go against 56 s for a guess.
use minisshd.Prelude.{
  ℕ, ◌+◌, ◌-◌, ◌*◌, ◌^◌, ◌≤◌, ◌<◌, ◌≡◌, refl, ◌⊎◌, inl, inr, true, false, arith, ltb, leb, ◌==◌,
  ◌&&◌, if◌then◌else◌, Bool-cases, passes_below, passes_below_lem,
}
use minisshd.Ratelimit.Delay.{
  second, compute_delay, shifted_second, cap_delay, compute_delay-eq-cap,
}
use minisshd.Ratelimit.Limiter.{Entry, is_stale, inc64, fail_entry}
use minisshd.Ratelimit.Attempts.{current}

-- The seconds by which a key with this count can be ahead of 56 s for a guess: the first delays are
-- short, and those with 56 to 63 failures are none.
pub head_start : ℕ → ℕ
head_start c =
    if leb 64 c
    then 0
    else if leb 56 c
    then 56 * (64 - c)
    else if leb 7 c
    then 224 + 4 * c
    else if c == 0
    then 581
    else if c == 1
    then 525
    else if c == 2
    then 470
    else if c == 3
    then 416
    else if c == 4
    then 364
    else if c == 5
    then 316
    else 276

head_start_table :
    passes_below
      (λ c.
        leb (56 * second + head_start (c + 1) * second) (compute_delay c + head_start c * second)
        && leb (head_start c) 581)
      64
    ≡ true
unfolding compute_delay shifted_second cap_delay passes_below head_start
head_start_table = refl

head_start_small :
    (c : ℕ)
    → c < 64
    → 56 * second + head_start (c + 1) * second ≤ compute_delay c + head_start c * second
head_start_small c h = ground (
  arith,
  passes_below_lem
      (λ c.
        leb (56 * second + head_start (c + 1) * second) (compute_delay c + head_start c * second)
        && leb (head_start c) 581)
      64 c h head_start_table,
)

head_start_large : (c : ℕ) → 64 ≤ c → head_start c ≡ 0
unfolding head_start
head_start_large c h = ground arith

head_start-delay :
    (c : ℕ)
    → c < 2 ^ 63
    → 56 * second + head_start (c + 1) * second ≤ compute_delay c + head_start c * second
head_start-delay c small = elim (Bool-cases (ltb c 64)) [
  | inl h ↦ head_start_small c (ground arith)
  | inr h ↦ ground (arith, compute_delay-eq-cap c, head_start_large c, head_start_large (c + 1))
]

pub head_start_zero : head_start 0 ≡ 581
unfolding head_start
head_start_zero = refl

head_start_one : head_start 1 ≡ 525
unfolding head_start
head_start_one = refl

-- The entry of the key belongs to its last attempt.
abbrev pub IsLast : ℕ → Entry → Type 0
IsLast from e = (e.fail_count ≡ 0) ⊎ (e.last_fail ≡ from)

-- After the idle expiry the count begins anew, but the wait has made up for it.
stale-time :
    (e : Entry) (from at until : ℕ)
    → is_stale at e ≡ true
    → IsLast from e
    → at + compute_delay (current at e).fail_count ≤ until
    → 56 * second + from + head_start (inc64 (current at e).fail_count) * second
      ≤ until + head_start e.fail_count * second
stale-time e from at until h last slept = rw h (grind (arith, head_start_one))

pub inc64_small : (c : ℕ) → c < 2 ^ 63 → inc64 c ≡ c + 1
inc64_small c h = omega arith

kept-time :
    (e : Entry) (from at until : ℕ)
    → is_stale at e ≡ false
    → e.fail_count < 2 ^ 63
    → from ≤ at
    → at + compute_delay (current at e).fail_count ≤ until
    → 56 * second + from + head_start (inc64 (current at e).fail_count) * second
      ≤ until + head_start e.fail_count * second
kept-time e from at until h small early slept =
    let slept' : at + compute_delay e.fail_count ≤ until = rw h at slept in
    rw (h, inc64_small e.fail_count small)
      (omega (arith, head_start-delay e.fail_count small, slept', early))

-- One guess: what it takes of the head start.
pub guess-time :
    (e : Entry) (from at until : ℕ)
    → IsLast from e
    → e.fail_count < 2 ^ 63
    → from ≤ at
    → at + compute_delay (current at e).fail_count ≤ until
    → 56 * second + from + head_start (fail_entry until (current at e)).fail_count * second
      ≤ until + head_start e.fail_count * second
guess-time e from at until last small early slept = elim (Bool-cases (is_stale at e)) [
  | inl h ↦ stale-time e from at until h last slept
  | inr h ↦ kept-time e from at until h small early slept
]
