-- ===== src/Ratelimit/Clock.antt =====
-- The clock of internal/ratelimit/clock.go. The reading of the system's clock is a parameter; a time
-- is a number of nanoseconds.
use minisshd.Prelude.{
  ℕ, ℤ, pos, negsuc, ◌+◌, ◌≤◌, ◌≡◌, ap, Option, none, some, List, [], ◌∷◌, arith,
}
use mathlib.Core.Option

pub record FakeClock : Type 0 where
  pub at : ℕ

-- `Clock`, with its two implementations.
pub data Clock : Type 0 where
  real_clock : Clock
  fake_clock : FakeClock → Clock

unfoldable pub now : (system : ℕ) → Clock → ℕ
now system real_clock = system
now system (fake_clock f) = f.at

unfoldable pub new_fake_clock : ℕ → FakeClock
new_fake_clock start = record { at = start }

-- `none` is the panic.
unfoldable pub advance : ℤ → FakeClock → Option FakeClock
advance (negsuc d) f = none
advance (pos d) f = some (record f { at = f.at + d })

-- Any number of advances.
unfoldable pub advances : List ℤ → FakeClock → Option FakeClock
advances [] f = some f
advances (d ∷ ds) f = elim (advance d f) [ none ↦ none | some g ↦ advances ds g ]

some-eq : {a b : FakeClock} → some a ≡ some b → a ≡ b
some-eq {a} h = ap (λ o. Option.get_or o a) h

-- The readings of a fake clock never go back, whatever the system's clock does.
pub now-advances :
    (ds : List ℤ) (f g : FakeClock) (early late : ℕ)
    → advances ds f ≡ some g
    → now early (fake_clock f) ≤ now late (fake_clock g)
unfolding advances advance now
now-advances [] f g early late h = let same = some-eq h in omega (arith, ap (λ c. c.at) same)
now-advances (negsuc d ∷ ds) f g early late h = cc
now-advances (pos d ∷ ds) f g early late h =
    let rest = now-advances ds (record f { at = f.at + d }) g early late h in omega (arith, rest)
