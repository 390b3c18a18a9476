-- ===== src/Ratelimit/Attempts.antt =====
-- Whole attempts, `Acquire` to `release`, one after the other, on the limiter of
-- internal/ratelimit/ratelimit.go and on a specification that has a count and a time for each key
-- and no pointers.
use minisshd.Prelude.{
  ℕ, ◌≡◌, refl, Bool, true, false, some, List, [], ◌∷◌, arith, Bytes, if◌then◌else◌, ◌=s=◌, =s=_iff,
  =s=-refl, Bool-cases, Option-cases, inl, inr, sym, ◌∙◌, ap, ap₂,
}
use mathlib.Core.Path.{fun_ext}
use minisshd.Prelude.Maps.{lookup}
use minisshd.Ratelimit.Delay.{compute_delay}
use minisshd.Ratelimit.Limiter.{
  Entry, Limiter, fresh, new, load_or_create, is_stale, delete_current, Lease, lease, acquire_key,
  fail_entry, release,
}
use minisshd.Ratelimit.Refinement.{
  view, IsValid, view_of, Loaded, load_or_create_lem, cleared, cleared-IsValid, cleared-view,
}

-- An entry past its expiry counts rest none.
abbrev pub current : ℕ → Entry → Entry
current now e = if is_stale now e then fresh else e

pub record Acquired (k : Bytes) (now : ℕ) (l l' : Limiter) (r : Lease) : Type 0 where
  pub valid : IsValid l'
  pub keyed : r.key ≡ k
  pub mapped : lookup k l'.entries ≡ some r.entry
  pub delayed : r.delay ≡ compute_delay (current now (view l k)).fail_count
  pub seen : (j : Bytes) → view l' j ≡ (if k =s= j then current now (view l k) else view l j)

module _ (k : Bytes) (now : ℕ) (l : Limiter) (v : IsValid l) where
  abbrev first : Limiter × ℕ
  first = load_or_create k l

  loaded : Loaded k l first.0 first.1
  loaded = load_or_create_lem k l v

  heap-first : first.0.heap first.1 ≡ view l k
  heap-first = sym (view_of first.0 k loaded.mapped) ∙ loaded.same k

  abbrev second_time : Limiter × ℕ
  second_time = load_or_create k (cleared k first.0 loaded.valid first.1 loaded.mapped)

  reloaded : Loaded k (delete_current k first.1 first.0) second_time.0 second_time.1
  reloaded = load_or_create_lem k _ (cleared-IsValid k first.0 loaded.valid first.1 loaded.mapped)

  reloaded-seen : (j : Bytes) → view second_time.0 j ≡ (if k =s= j then fresh else view l j)
  reloaded-seen j = ground (
    arith,
    reloaded.same j,
    loaded.same j,
    cleared-view k first.0 loaded.valid first.1 loaded.mapped j,
  )

  acquire_stale : is_stale now (view l k) ≡ true → acquire_key k now l ≡ lease k second_time
  unfolding acquire_key
  acquire_stale h = rw (heap-first, h)

  acquire_kept : is_stale now (view l k) ≡ false → acquire_key k now l ≡ lease k first
  unfolding acquire_key
  acquire_kept h = rw (heap-first, h)

  pub acquire_key_lem : (let r = acquire_key k now l in Acquired k now l r.0 r.1)
  unfolding lease
  acquire_key_lem = elim (Bool-cases (is_stale now (view l k))) [
    | inl h ↦ rw (acquire_stale h) (record {
      valid = reloaded.valid;
      keyed = refl;
      mapped = reloaded.mapped;
      delayed =
          ground (arith, view_of second_time.0 k reloaded.mapped, reloaded-seen k, =s=-refl k);
      seen = λ j. ground (arith, reloaded-seen j);
    })
    | inr h ↦ rw (acquire_kept h) (record {
      valid = loaded.valid;
      keyed = refl;
      mapped = loaded.mapped;
      delayed = ground (arith, heap-first);
      seen = λ j. ground (arith, loaded.same j, =s=_iff k j);
    })
  ]

-- What `release` leaves for the key of the lease.
abbrev pub settle : Bool → ℕ → Entry → Entry
settle true now e = fresh
settle false now e = fail_entry now e

module _ (k : Bytes) (l : Limiter) (v : IsValid l) (r : Lease) (keyed : r.key ≡ k)
    (m : lookup k l.entries ≡ some r.entry) where
  pub release-IsValid : (ok : Bool) (now : ℕ) → IsValid (release ok now r l)
  unfolding release
  release-IsValid true now = rw keyed (cleared-IsValid k l v r.entry m)
  release-IsValid false now = record { allocated = v.allocated; unshared = v.unshared }

  pub release-view :
      (ok : Bool) (now : ℕ) (j : Bytes)
      → view (release ok now r l) j ≡ (if k =s= j then settle ok now (view l k) else view l j)
  unfolding release
  release-view true now j = rw keyed (cleared-view k l v r.entry m j)
  release-view false now j =
      unfold view in
      elim (Option-cases (lookup j l.entries)) [
        | inl p ↦ ground (arith, =s=_iff k j)
        | inr (e, p) ↦ ground (arith, v.unshared k j e, =s=_iff k j)
      ]

-- One attempt: when `Acquire` reads the clock, the verdict, and when `release` reads the clock.
pub record Attempt : Type 0 where
  pub key : Bytes
  pub at : ℕ
  pub ok : Bool
  pub until : ℕ

unfoldable pub attempt : Attempt → Limiter → Limiter × ℕ
attempt a l = let (l', r) = acquire_key a.key a.at l in (release a.ok a.until r l', r.delay)

unfoldable pub delays : List Attempt → Limiter → List ℕ
delays [] l = []
delays (a ∷ rest) l = let (l', d) = attempt a l in d ∷ delays rest l'

unfoldable pub after : List Attempt → Limiter → Limiter
after [] l = l
after (a ∷ rest) l = after rest (attempt a l).0

-- The specification: an entry for each key, and no map, heap or pointer.
abbrev pub Record : Type 0
Record = Bytes → Entry

unfoldable pub spec_attempt : Attempt → Record → Record × ℕ
spec_attempt a s =
    let now = current a.at (s a.key) in
    (λ j. if a.key =s= j then settle a.ok a.until now else s j, compute_delay now.fail_count)

unfoldable pub spec_delays : List Attempt → Record → List ℕ
spec_delays [] s = []
spec_delays (a ∷ rest) s = let (s', d) = spec_attempt a s in d ∷ spec_delays rest s'

module _ (a : Attempt) (l : Limiter) (v : IsValid l) where
  abbrev got : Limiter × Lease
  got = acquire_key a.key a.at l

  have : Acquired a.key a.at l got.0 got.1
  have = acquire_key_lem a.key a.at l v

  attempt-IsValid : IsValid (attempt a l).0
  unfolding attempt
  attempt-IsValid = release-IsValid a.key got.0 have.valid got.1 have.keyed have.mapped a.ok a.until

  attempt-delay : (attempt a l).1 ≡ (spec_attempt a (view l)).1
  unfolding attempt spec_attempt
  attempt-delay = have.delayed

  attempt-view : (j : Bytes) → view (attempt a l).0 j ≡ (spec_attempt a (view l)).0 j
  unfolding attempt spec_attempt
  attempt-view j = ground (
    arith,
    release-view a.key got.0 have.valid got.1 have.keyed have.mapped a.ok a.until j,
    have.seen j,
    have.seen a.key,
    =s=-refl a.key,
  )

delays-spec_of :
    (rest : List Attempt) (l : Limiter) → IsValid l → delays rest l ≡ spec_delays rest (view l)
unfolding delays spec_delays
delays-spec_of [] l v = refl
delays-spec_of (a ∷ rest) l v = ap₂ ◌∷◌ (attempt-delay a l v) (
    delays-spec_of rest (attempt a l).0 (attempt-IsValid a l v)
    ∙ ap (spec_delays rest) (fun_ext (attempt-view a l v)))

pub new-IsValid : IsValid new
unfolding new lookup
new-IsValid = record { allocated = λ k e p. cc; unshared = λ j k e p q. cc }

-- For every sequence of attempts on a new limiter, each run from `Acquire` to `release` before the
-- next begins, the delays are those of the specification, started with no failures.
pub delays-spec_delays : (rest : List Attempt) → delays rest new ≡ spec_delays rest (λ _. fresh)
unfolding new
delays-spec_delays rest =
    delays-spec_of rest new new-IsValid
    ∙ ap (spec_delays rest) (fun_ext (λ k. unfold view lookup in refl))
