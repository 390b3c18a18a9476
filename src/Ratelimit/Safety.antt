-- ===== src/Ratelimit/Safety.antt =====
-- The per-IP lock of internal/ratelimit/ratelimit.go in reachable states.
use minisshd.Prelude.{ℕ, ◌≡◌, some, Bytes, arith, some}
use minisshd.Prelude.Maps.{lookup}
use minisshd.Ratelimit.Delay.{compute_delay}
use minisshd.Ratelimit.Moves.{holding, System, Reach}
use minisshd.Ratelimit.Exclusion.{Reach-Inv}

-- In every reachable state, two goroutines that are between `Acquire` and `release` with the same
-- entry are the same goroutine.
pub entry_exclusion :
    {s : System} {k k' : Bytes} {e d d' : ℕ}
    → Reach s
    → (i j : ℕ) → s.pc i ≡ holding k e d
    → s.pc j ≡ holding k' e d'
    → i ≡ j
entry_exclusion {s} {e} r i j p q = ground (arith, (Reach-Inv r).owned i e, (Reach-Inv r).owned j e)

-- In every reachable state, of the goroutines that are between `Acquire` and `release` for one key,
-- at most one has the entry that the map holds for that key.
current_exclusion :
    {s : System} {k : Bytes} {e d e' d' : ℕ}
    → Reach s
    → (i j : ℕ) → s.pc i ≡ holding k e d
    → s.pc j ≡ holding k e' d'
    → lookup k s.mem.lim.entries ≡ some e
    → lookup k s.mem.lim.entries ≡ some e'
    → i ≡ j
current_exclusion {e} {e'} r i j p q l l' =
    ground (arith, (Reach-Inv r).owned i e, (Reach-Inv r).owned j e)

-- In every reachable state, the delay that `Acquire` returned is still the one that belongs to the
-- failure count of its entry: nobody has counted a failure in between.
pub delay_current :
    {s : System} {k : Bytes} {e d : ℕ}
    → Reach s
    → (i : ℕ) → s.pc i ≡ holding k e d
    → d ≡ compute_delay (s.mem.lim.heap e).fail_count
delay_current r i p = (Reach-Inv r).promised i _ _ _ p
