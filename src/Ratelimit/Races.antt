-- ===== src/Ratelimit/Races.antt =====
-- One IP and several goroutines in `Acquire` of internal/ratelimit/ratelimit.go: runs in which no entry
-- leaves the map, and a run in which a waiter goes on with an entry that has left it.
use minisshd.Prelude.{ℕ, ◌≡◌, refl, true, false, none, some, Bytes, arith, =s=-refl, =s=_iff, sym}
use minisshd.Prelude.Maps.{lookup, insert, delete}
use minisshd.Ratelimit.Limiter.{Limiter, fresh, new, store, create_entry, delete_current, release}
use minisshd.Ratelimit.Delay.{compute_delay}
use mathlib.Core.Path.{subst}
use mathlib.Core.List.{[], ◌∷◌}
use minisshd.Ratelimit.Moves.{
  Shared, Pc, idle, looking, missing, locking, checking, holding, unlocking, own, lease_of, Move,
  begin, hit, miss, create, lock, keep, expire, succeed, unlock, System, at, Step, go, tick, init,
  Reach, start, later,
}
use minisshd.Ratelimit.Lookups.{create_entry-lookup, create_entry-present}
use minisshd.Ratelimit.Exclusion.{target, Reach-Inv}

-- A move that takes no entry out of the map.
abbrev pub IsQuiet : {i : ℕ} {m m' : Shared} {p p' : Pc} → Move i m p m' p' → Type 0
IsQuiet expire = ⊥
IsQuiet succeed = ⊥
IsQuiet _ = Unit

abbrev pub IsQuietStep : {s t : System} → Step s t → Type 0
IsQuietStep (go i mv) = IsQuiet mv
IsQuietStep (tick now h) = Unit

pub data QuietReach : System → Type 0 where
  initial : QuietReach init
  next : {s t : System} → QuietReach s → (st : Step s t) → IsQuietStep st → QuietReach t

pub QuietReach-Reach : {s : System} → QuietReach s → Reach s
QuietReach-Reach initial = start
QuietReach-Reach (next r st _) = later (QuietReach-Reach r) st

-- Every goroutine works on the entry that the map has for its key.
abbrev Mapped : Shared → (ℕ → Pc) → Type 0
Mapped m pc = (t c : ℕ) (j : Bytes) → target (pc t) ≡ some (j, c) → lookup j m.lim.entries ≡ some c

module _ {m : Shared} (pc : ℕ → Pc) (mapped : Mapped m pc) (i : ℕ) where
  Move-Mapped :
      {p p' : Pc} {m' : Shared} (mv : Move i m p m' p')
      → IsQuiet mv
      → pc i ≡ p
      → Mapped m' (at pc i p')
  unfolding release
  Move-Mapped (begin _) u h t c j q = ground (arith, mapped t c j)
  Move-Mapped (hit e f) u h t c j q = ground (arith, mapped t c j)
  Move-Mapped (create {k}) u h t c j q = ground (
    arith,
    mapped t c j,
    create_entry-lookup k m.lim j,
    =s=_iff k j,
    create_entry-present k m.lim c,
  )
  Move-Mapped expire u h t c j q = absurd u
  Move-Mapped succeed u h t c j q = absurd u
  Move-Mapped _ u h t c j q = ground (arith, mapped t c j, mapped i c j)

QuietReach-Mapped : {s : System} → QuietReach s → Mapped s.mem s.pc
QuietReach-Mapped initial = λ t c j q. cc
QuietReach-Mapped (next r (go i mv) u) = Move-Mapped _ (QuietReach-Mapped r) i mv u refl
QuietReach-Mapped (next r (tick now h) u) = QuietReach-Mapped r

-- As long as no attempt has succeeded and no entry has expired, two goroutines that are between
-- `Acquire` and `release` for the same key are the same goroutine.
pub ip_exclusion :
    {s : System} {k : Bytes} {e d e' d' : ℕ}
    → QuietReach s
    → (i j : ℕ) → s.pc i ≡ holding k e d
    → s.pc j ≡ holding k e' d'
    → i ≡ j
ip_exclusion {k} {e} {e' = e'} r i j p q = ground (
  arith,
  (Reach-Inv (QuietReach-Reach r)).owned i e,
  (Reach-Inv (QuietReach-Reach r)).owned j e',
  QuietReach-Mapped r i e k,
  QuietReach-Mapped r j e' k,
)

abbrev pub IsClearingMove : {i : ℕ} {m m' : Shared} {p p' : Pc} → Move i m p m' p' → Type 0
IsClearingMove succeed = Unit
IsClearingMove _ = ⊥

-- A goroutine's successful `release`.
abbrev pub IsClearing : {s t : System} → ℕ → Step s t → Type 0
IsClearing i (go j mv) = (i ≡ j) × IsClearingMove mv
IsClearing i (tick now h) = ⊥

-- A run of steps from one state to another.
pub data Run (s : System) : System → Type 0 where
  here : Run s s
  and_step : {t u : System} → Run s t → Step t u → Run s u

module _ (k : Bytes) where
  abbrev one_entry : Limiter
  one_entry = record { entries = (k, 0) ∷ []; heap = store (λ _. fresh) 0 fresh; next = 1 }

  abbrev emptied : Limiter
  emptied = record { entries = []; heap = store (λ _. fresh) 0 fresh; next = 1 }

  release-emptied : release true 0 (lease_of k 0 0) one_entry ≡ emptied
  unfolding release delete_current lookup delete
  release-emptied = ground (arith, =s=-refl k)

  -- Goroutine 0 between `Acquire` and `release` on the only entry, and 1 waiting for that entry.
  abbrev waiting_pcs : ℕ → Pc
  waiting_pcs =
      at
        (at
          (at
            (at
              (at (at (at (λ _. idle) 0 (looking false k)) 0 (missing false k)) 0
                (locking false k 0))
              0 (checking k 0))
            0 (holding k 0 0))
          1 (looking false k))
        1 (locking false k 0)

  abbrev waiting : System
  waiting = record {
    mem = record { lim = one_entry; owner = own (λ _. none) 0 (some 0); clock = 0 };
    pc = waiting_pcs;
  }

  -- After the release of 0, which has not given the mutex back.
  abbrev released : Limiter → System
  released l = record {
    mem = record { lim = l; owner = own (λ _. none) 0 (some 0); clock = 0 };
    pc = at waiting_pcs 0 (unlocking k 0);
  }

  Reach-waiting : Reach waiting
  unfolding new lookup insert create_entry compute_delay
  Reach-waiting =
      let first = later (later (later start (go 0 (begin k))) (go 0 (miss refl))) (go 0 create) in
      let holder = later (later first (go 0 (lock refl))) (go 0 (keep refl)) in
      later (later holder (go 1 (begin k))) (go 1 (hit 0 (ground (arith, =s=-refl k))))

  abbrev IsShared : System → Type 0
  IsShared u =
      (u.pc 1 ≡ holding k 0 0) × (u.pc 2 ≡ holding k 1 0) × (lookup k u.mem.lim.entries ≡ some 1)

  released-IsShared : (u : System) × Run (released emptied) u × IsShared u
  unfolding lookup insert create_entry compute_delay
  released-IsShared =
      let old =
        and_step (and_step (and_step here (go 0 unlock)) (go 1 (lock refl))) (go 1 (keep refl)) in
      let found =
        and_step (and_step (and_step old (go 2 (begin k))) (go 2 (miss refl))) (go 2 create) in
      (
        _,
        and_step (and_step found (go 2 (lock refl))) (go 2 (keep refl)),
        (refl, refl, ground (arith, =s=-refl k)),
      )

  emptied-lookup : lookup k emptied.entries ≡ none
  unfolding lookup
  emptied-lookup = refl

  -- After a success one key's attempts no longer exclude one another. For every key there is a reachable
  -- state in which goroutine 0 is between `Acquire` and `release` on the entry 0, which the map has for
  -- the key, and goroutine 1 waits for that entry's mutex. Goroutine 0 succeeds, and the map has no
  -- entry for the key. From there a run leads to a state in which goroutines 1 and 2 are both between
  -- `Acquire` and `release` for the key, each with a delay of 0: goroutine 1 on the entry 0, and
  -- goroutine 2 on the entry 1, which the map now has.
  pub shared_after_success :
      (s t u : System) × (success : Step s t) × Reach s
      × (s.pc 0 ≡ holding k 0 0)
      × (s.pc 1 ≡ locking false k 0)
      × (lookup k s.mem.lim.entries ≡ some 0)
      × IsClearing 0 success
      × (lookup k t.mem.lim.entries ≡ none)
      × Run t u
      × (u.pc 1 ≡ holding k 0 0)
      × (u.pc 2 ≡ holding k 1 0)
      × (lookup k u.mem.lim.entries ≡ some 1)
  unfolding compute_delay
  shared_after_success =
      let (u, run, (one, two, now)) = released-IsShared in
      let here_mapped : lookup k one_entry.entries ≡ some 0 =
        unfold lookup in ground (arith, =s=-refl k) in
      let gone : lookup k (release true 0 (lease_of k 0 0) one_entry).entries ≡ none =
        rw release-emptied emptied-lookup in
      let run' : Run (released (release true 0 (lease_of k 0 0) one_entry)) u =
        subst (λ l. Run (released l) u) (sym release-emptied) run in
      (
        waiting,
        released (release true 0 (lease_of k 0 0) one_entry),
        u,
        go 0 succeed,
        Reach-waiting,
        refl,
        refl,
        here_mapped,
        (refl, tt),
        gone,
        run',
        one,
        two,
        now,
      )
