-- ===== src/Ratelimit/Lookups.antt =====
-- What the two changes to the map of internal/ratelimit/ratelimit.go do to its look-ups.
use minisshd.Prelude.{ℕ, ◌<◌, ◌≡◌, some, if◌then◌else◌, Bytes, arith, =s=_iff, ◌=s=◌, ◌+◌, ◌⊎◌}
use minisshd.Prelude.Maps.{lookup, lookup-insert, lookup-delete}
use minisshd.Ratelimit.Limiter.{Limiter, create_entry, delete_current}

module _ (k : Bytes) (e : ℕ) (l : Limiter) where
  pub delete_current-lookup :
      (j : Bytes) (c : ℕ)
      → lookup j (delete_current k e l).entries ≡ some c
      → lookup j l.entries ≡ some c
  unfolding delete_current
  delete_current-lookup j c p = ground (arith, lookup-delete k j l.entries)

  pub delete_current-next : (delete_current k e l).next ≡ l.next
  unfolding delete_current
  delete_current-next = ground arith

  pub delete_current-heap : (delete_current k e l).heap ≡ l.heap
  unfolding delete_current
  delete_current-heap = ground arith

module _ (k : Bytes) (l : Limiter) where
  pub create_entry-lookup :
      (j : Bytes)
      → lookup j (create_entry k l).0.entries
        ≡ (if k =s= j then some (create_entry k l).1 else lookup j l.entries)
  unfolding create_entry
  create_entry-lookup j = ground (arith, lookup-insert k j l.next l.entries, =s=_iff k j)

  pub create_entry-next :
      ((create_entry k l).1 ≡ l.next) × ((create_entry k l).0.next ≡ l.next + 1)
      ⊎ (lookup k l.entries ≡ some (create_entry k l).1) × ((create_entry k l).0.next ≡ l.next)
  unfolding create_entry
  create_entry-next = ground arith

  pub create_entry-present : (c : ℕ) → lookup k l.entries ≡ some c → (create_entry k l).1 ≡ c
  unfolding create_entry
  create_entry-present c h = ground arith

  pub create_entry-heap : (q : ℕ) → q < l.next → (create_entry k l).0.heap q ≡ l.heap q
  unfolding create_entry
  create_entry-heap q h = ground arith
