-- ===== src/Ratelimit/Tests.antt =====
-- The rate limiter's theorems on concrete runs.
use minisshd.Prelude.{
  ℕ, ◌≡◌, refl, true, false, none, some, [], ◌∷◌, Bytes, codes, arith, inl, List, ◌=s=◌,
}
use minisshd.Prelude.Maps.{lookup, insert}
use minisshd.Ratelimit.Delay.{
  compute_delay, backoff, max_delay, compute_delay-backoff, compute_delay-wraps,
}
use minisshd.Ratelimit.Limiter.{new, fresh, create_entry}
use minisshd.Ratelimit.Attempts.{Attempt, delays, spec_delays, delays-spec_delays}
use minisshd.Ratelimit.Moves.{
  holding, begin, miss, create, lock, keep, locking, System, Step, go, Reach,
}
use minisshd.Ratelimit.Races.{
  QuietReach, initial, next, Run, IsClearing, ip_exclusion, shared_after_success,
}

abbrev address : Bytes
address = codes "10.0.0.1"

abbrev three_attempts : List Attempt
three_attempts =
    record { key = address; at = 0; ok = false; until = 1 }
    ∷ record { key = address; at = 2; ok = false; until = 3 }
    ∷ record { key = address; at = 4; ok = true; until = 5 }
    ∷ []

delays-spec_delays_example : delays three_attempts new ≡ spec_delays three_attempts (λ _. fresh)
delays-spec_delays_example = delays-spec_delays three_attempts

compute_delay-backoff_example : compute_delay 7 ≡ backoff 7
compute_delay-backoff_example = compute_delay-backoff 7 (omega arith) (inl (omega arith))

compute_delay-wraps_example : (compute_delay 60 ≡ 0) × (backoff 60 ≡ max_delay)
compute_delay-wraps_example = compute_delay-wraps 60 (omega arith) (omega arith)

-- Goroutine 0 has gone through `Acquire`.
unfoldable one_holds :
    (s : System) × QuietReach s
    × (s.pc 0 ≡ holding address 0 0)
    × (lookup address s.mem.lim.entries ≡ some 0)
unfolding new lookup insert create_entry compute_delay ◌=s=◌
one_holds =
    let r₁ = next initial (go 0 (begin address)) tt in
    let r₂ = next (next r₁ (go 0 (miss refl)) tt) (go 0 create) tt in
    let r₃ = next (next r₂ (go 0 (lock refl)) tt) (go 0 (keep refl)) tt in (_, r₃, refl, refl)

ip_exclusion_example : ◌≡◌ {A = ℕ} 0 0
ip_exclusion_example = ip_exclusion one_holds.1 0 0 one_holds.2 one_holds.2

shared_after_success_example :
    (s : System) × (t : System) × (u : System) × (success : Step s t) × Reach s
    × (s.pc 0 ≡ holding address 0 0)
    × (s.pc 1 ≡ locking false address 0)
    × (lookup address s.mem.lim.entries ≡ some 0)
    × IsClearing 0 success
    × (lookup address t.mem.lim.entries ≡ none)
    × Run t u
    × (u.pc 1 ≡ holding address 0 0)
    × (u.pc 2 ≡ holding address 1 0)
    × (lookup address u.mem.lim.entries ≡ some 1)
shared_after_success_example = shared_after_success address
