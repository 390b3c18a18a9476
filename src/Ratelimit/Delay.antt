-- ===== src/Ratelimit/Delay.antt =====
-- `computeDelay` of internal/ratelimit/ratelimit.go. A `time.Duration` is an int64 count of
-- nanoseconds, and an `int` is 64 bits wide; both are written as their two's-complement patterns,
-- so that a value is negative when its pattern is at least 2 ^ 63.
use minisshd.Prelude.{
  ℕ, ◌-◌, ◌*◌, ◌%◌, ◌^◌, ◌≤◌, ◌<◌, min, ◌≡◌, refl, ◌⊎◌, inl, inr, Bool, true, ◌||◌, arith, ltb, leb,
  ◌==◌, ==_iff, if◌then◌else◌, passes_below, passes_below_lem, ◌∙◌, sym, zero, suc,
}
use native.Mathlib.Decide.{ℕ_discrete}
use native.Mathlib.Nat.{pow-suc}

abbrev pub second : ℕ
second = 1_000_000_000

abbrev pub max_delay : ℕ
max_delay = 60 * second

abbrev pub idle_expiry : ℕ
idle_expiry = 600 * second

-- `n <= 0` and `n < 0` on a 64-bit pattern.
abbrev pub is_neg : ℕ → Bool
is_neg n = leb (2 ^ 63) n

abbrev pub not_pos : ℕ → Bool
not_pos n = n == 0 || is_neg n

-- `time.Duration(int64(1)<<exp) * time.Second`, with the wrap-around of int64.
unfoldable pub shifted_second : ℕ → ℕ
shifted_second exp = (2 ^ exp % 2 ^ 64) * second % 2 ^ 64

unfoldable pub cap_delay : ℕ → ℕ
cap_delay d = if ltb max_delay d || is_neg d then max_delay else d

unfoldable pub compute_delay : ℕ → ℕ
compute_delay fail_count =
    if not_pos fail_count
    then 0
    else let exp = fail_count - 1 in
      if ltb 62 exp then max_delay else cap_delay (shifted_second exp)

-- The formula of the comment: nothing before the first failure, then doubling from 1s up to 60s.
abbrev pub backoff : ℕ → ℕ
backoff n = if n == 0 then 0 else min max_delay (2 ^ (n - 1) * second)

doubling_table : passes_below (λ n. compute_delay n == backoff n) 56 ≡ true
unfolding compute_delay shifted_second cap_delay passes_below
doubling_table = refl

pow-ge : (k : ℕ) → 6 ≤ k → 64 ≤ 2 ^ k
pow-ge zero h = elim h [ ]
pow-ge (suc k) h = elim (ℕ_discrete k 5) [
  | yes p ↦ rw p (omega arith)
  | no p ↦ rw (pow-suc 2 k) (omega (arith, pow-ge k (omega arith)))
]

backoff-eq-cap : (n : ℕ) → 7 ≤ n → backoff n ≡ max_delay
backoff-eq-cap n h = ground (arith, pow-ge (n - 1))

cap_delay-le : (d : ℕ) → cap_delay d ≤ max_delay
unfolding cap_delay
cap_delay-le d = ground arith

-- No delay exceeds the cap of 60s, at any failure count.
compute_delay-le : (n : ℕ) → compute_delay n ≤ max_delay
unfolding compute_delay
compute_delay-le n = ground (arith, cap_delay-le (shifted_second (n - 1)))

-- From 64 recorded failures on (below the int range) the delay is the cap.
pub compute_delay-eq-cap : (n : ℕ) → 64 ≤ n → n < 2 ^ 63 → compute_delay n ≡ max_delay
unfolding compute_delay
compute_delay-eq-cap n h k = ground arith

-- Up to 55 recorded failures, and again from 64 on (below the int range), the delay is that of
-- the documented formula: 0 without a failure, and min(60s, 2^(n-1) s) after n failures.
pub compute_delay-backoff : (n : ℕ) → n < 2 ^ 63 → (n ≤ 55) ⊎ (64 ≤ n) → compute_delay n ≡ backoff n
compute_delay-backoff n small (inl h) =
    (==_iff (compute_delay n) (backoff n)).0
      (passes_below_lem (λ n. compute_delay n == backoff n) 56 n (omega arith) doubling_table)
compute_delay-backoff n small (inr h) =
    compute_delay-eq-cap n h small ∙ sym (backoff-eq-cap n (omega arith))

wrapped_table : passes_below (λ n. ltb n 56 || compute_delay n == 0) 64 ≡ true
unfolding compute_delay shifted_second cap_delay passes_below
wrapped_table = refl

-- With 56 to 63 recorded failures the product has wrapped round to 0 and the delay is 0, where the
-- documented formula gives 60s.
pub compute_delay-wraps :
    (n : ℕ) → 56 ≤ n → n ≤ 63 → (compute_delay n ≡ 0) × (backoff n ≡ max_delay)
compute_delay-wraps n h k = (
  ground (
    arith,
    passes_below_lem (λ n. ltb n 56 || compute_delay n == 0) 64 n (omega arith) wrapped_table,
  ),
  backoff-eq-cap n (omega arith),
)
