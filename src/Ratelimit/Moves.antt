-- ===== src/Ratelimit/Moves.antt =====
-- `Acquire` and `release` of internal/ratelimit/ratelimit.go, run by any number of goroutines at
-- once. A goroutine is at one of the points of `Pc`; a move is one critical section under the map's
-- lock, or one operation on an entry's mutex with what is computed under it.
use minisshd.Prelude.{
  ℕ, ◌≤◌, ◌≡◌, Bool, true, false, Option, none, some, ◌==◌, if◌then◌else◌, Bytes,
}
use minisshd.Prelude.Maps.{lookup}
use minisshd.Ratelimit.Delay.{compute_delay}
use minisshd.Ratelimit.Limiter.{
  Limiter, new, create_entry, is_stale, delete_current, Lease, release,
}

-- What the goroutines share: the limiter, the holder of each entry's mutex, and the clock.
pub record Shared : Type 0 where
  pub lim : Limiter
  pub owner : ℕ → Option ℕ
  pub clock : ℕ

-- The flag tells the second `loadOrCreate` of `Acquire`, after an expiry, from the first.
pub data Pc : Type 0 where
  idle : Pc
  looking : (again : Bool) (key : Bytes) → Pc  -- in loadOrCreate, before the read lock
  missing : (again : Bool) (key : Bytes) → Pc  -- not found, before the write lock
  locking : (again : Bool) (key : Bytes) (e : ℕ) → Pc  -- before e.mu.Lock()
  checking : (key : Bytes) (e : ℕ) → Pc  -- has e.mu, before the expiry check
  dropping : (key : Bytes) (e : ℕ) → Pc  -- expired and unlocked, before the delete
  holding : (key : Bytes) (e d : ℕ) → Pc  -- Acquire has returned, release has not been called
  unlocking : (key : Bytes) (e : ℕ) → Pc  -- release(true), before e.mu.Unlock()

abbrev pub own : (ℕ → Option ℕ) → ℕ → Option ℕ → ℕ → Option ℕ
own f e o q = if e == q then o else f q

abbrev pub delay_of : Shared → ℕ → ℕ
delay_of m e = compute_delay (m.lim.heap e).fail_count

abbrev pub lease_of : Bytes → ℕ → ℕ → Lease
lease_of k e d = record { key = k; entry = e; delay = d }

-- One move of goroutine `i`.
pub data Move (i : ℕ) (m : Shared) : Pc → Shared → Pc → Type 0 where
  begin : (k : Bytes) → Move i m idle m (looking false k)
  hit :
      {b : Bool} {k : Bytes} (e : ℕ)
      → lookup k m.lim.entries ≡ some e
      → Move i m (looking b k) m (locking b k e)
  miss :
      {b : Bool} {k : Bytes}
      → lookup k m.lim.entries ≡ none
      → Move i m (looking b k) m (missing b k)
  create :
      {b : Bool} {k : Bytes}
      → Move i m
          (missing b k)
          (record m { lim = (create_entry k m.lim).0 })
          (locking b k (create_entry k m.lim).1)
  lock :
      {k : Bytes} {e : ℕ}
      → m.owner e ≡ none
      → Move i m (locking false k e) (record m { owner = own m.owner e (some i) }) (checking k e)
  keep :
      {k : Bytes} {e : ℕ}
      → is_stale m.clock (m.lim.heap e) ≡ false
      → Move i m (checking k e) m (holding k e (delay_of m e))
  drop :
      {k : Bytes} {e : ℕ}
      → is_stale m.clock (m.lim.heap e) ≡ true
      → Move i m (checking k e) (record m { owner = own m.owner e none }) (dropping k e)
  expire :
      {k : Bytes} {e : ℕ}
      → Move i m (dropping k e) (record m { lim = delete_current k e m.lim }) (looking true k)
  relock :
      {k : Bytes} {e : ℕ}
      → m.owner e ≡ none
      → Move i m
          (locking true k e)
          (record m { owner = own m.owner e (some i) })
          (holding k e (delay_of m e))
  fail :
      {k : Bytes} {e d : ℕ}
      → Move i m
          (holding k e d)
          (record m {
            lim = release false m.clock (lease_of k e d) m.lim;
            owner = own m.owner e none;
          })
          idle
  succeed :
      {k : Bytes} {e d : ℕ}
      → Move i m
          (holding k e d)
          (record m { lim = release true m.clock (lease_of k e d) m.lim })
          (unlocking k e)
  unlock :
      {k : Bytes} {e : ℕ} → Move i m (unlocking k e) (record m { owner = own m.owner e none }) idle

pub record System : Type 0 where
  pub mem : Shared
  pub pc : ℕ → Pc

abbrev pub at : (ℕ → Pc) → ℕ → Pc → ℕ → Pc
at f i p j = if i == j then p else f j

pub data Step (s : System) : System → Type 0 where
  go :
      (i : ℕ) {m : Shared} {p : Pc}
      → Move i s.mem (s.pc i) m p
      → Step s (record { mem = m; pc = at s.pc i p })
  tick : (now : ℕ) → s.mem.clock ≤ now → Step s (record s { mem = record s.mem { clock = now } })

abbrev pub init : System
init = record { mem = record { lim = new; owner = λ _. none; clock = 0 }; pc = λ _. idle }

pub data Reach : System → Type 0 where
  start : Reach init
  later : {s t : System} → Reach s → Step s t → Reach t
