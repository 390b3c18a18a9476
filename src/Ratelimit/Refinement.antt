-- ===== src/Ratelimit/Refinement.antt =====
-- The limiter of internal/ratelimit/ratelimit.go seen without pointers: one entry for each key.
use minisshd.Prelude.{
  ℕ, ◌+◌, ◌<◌, ◌≡◌, refl, none, some, arith, if◌then◌else◌, Bytes, ◌=s=◌, =s=_iff, =s=-refl,
  Option-cases, inl, inr,
}
use minisshd.Prelude.Maps.{lookup, insert, delete, lookup-insert, lookup-delete}
use minisshd.Ratelimit.Limiter.{
  Entry, Limiter, fresh, store, create_entry, load_or_create, delete_current,
}

-- The entry that the limiter has for a key; a key that is absent has never failed.
unfoldable pub view : Limiter → Bytes → Entry
view l k = elim (lookup k l.entries) [ some e ↦ l.heap e | none ↦ fresh ]

-- No two keys share an entry, and every entry has been allocated.
pub record IsValid (l : Limiter) : Type 0 where
  pub allocated : (k : Bytes) (e : ℕ) → lookup k l.entries ≡ some e → e < l.next
  pub unshared :
      (j k : Bytes) (e : ℕ) → lookup j l.entries ≡ some e → lookup k l.entries ≡ some e → j ≡ k

pub view_of : (l : Limiter) (k : Bytes) {e : ℕ} → lookup k l.entries ≡ some e → view l k ≡ l.heap e
unfolding view
view_of l k p = ground arith

view_absent : (l : Limiter) (k : Bytes) → lookup k l.entries ≡ none → view l k ≡ fresh
unfolding view
view_absent l k p = ground arith

-- What `loadOrCreate` achieves: the key has an entry, and nobody's count has changed.
pub record Loaded (k : Bytes) (l l' : Limiter) (e : ℕ) : Type 0 where
  pub valid : IsValid l'
  pub mapped : lookup k l'.entries ≡ some e
  pub same : (j : Bytes) → view l' j ≡ view l j

module _ (k : Bytes) (l : Limiter) (v : IsValid l) where
  module _ (absent : lookup k l.entries ≡ none) where
    abbrev grown : Limiter
    grown = record {
      entries = insert k l.next l.entries;
      heap = store l.heap l.next fresh;
      next = l.next + 1;
    }

    grown-IsValid : IsValid grown
    grown-IsValid = record {
      allocated = λ j e p. ground (arith, lookup-insert k j l.next l.entries, v.allocated j e);
      unshared = λ i j e p q. ground (
        arith,
        lookup-insert k i l.next l.entries,
        lookup-insert k j l.next l.entries,
        v.allocated i e,
        v.allocated j e,
        v.unshared i j e,
        =s=_iff k i,
        =s=_iff k j,
      );
    }

    grown-view : (j : Bytes) → view grown j ≡ view l j
    unfolding view
    grown-view j = elim (Option-cases (lookup j l.entries)) [
      | inl p ↦ ground (arith, lookup-insert k j l.next l.entries)
      | inr (e, p) ↦
          ground (arith, lookup-insert k j l.next l.entries, v.allocated j e, =s=_iff k j)
    ]

    load_or_create-absent : load_or_create k l ≡ (grown, l.next)
    unfolding load_or_create create_entry
    load_or_create-absent = ground arith

  load_or_create-present : (e : ℕ) → lookup k l.entries ≡ some e → load_or_create k l ≡ (l, e)
  unfolding load_or_create
  load_or_create-present e p = ground arith

  pub load_or_create_lem : (let r = load_or_create k l in Loaded k l r.0 r.1)
  load_or_create_lem = elim (Option-cases (lookup k l.entries)) [
    | inl p ↦ rw (load_or_create-absent p) (record {
      valid = grown-IsValid p;
      mapped = rw (lookup-insert, =s=-refl);
      same = grown-view p;
    })
    | inr (e, p) ↦
        rw (load_or_create-present e p) (record { valid = v; mapped = p; same = λ j. refl })
  ]

  module _ (e : ℕ) (mapped : lookup k l.entries ≡ some e) where
    abbrev pub cleared : Limiter
    cleared = delete_current k e l

    cleared-eq : cleared ≡ record l { entries = delete k l.entries }
    unfolding delete_current
    cleared-eq = ground arith

    pub cleared-IsValid : IsValid cleared
    cleared-IsValid = rw cleared-eq (record {
      allocated = λ j d p. ground (arith, lookup-delete k j l.entries, v.allocated j d);
      unshared = λ i j d p q.
          ground
            (arith, lookup-delete k i l.entries, lookup-delete k j l.entries, v.unshared i j d);
    })

    pub cleared-view : (j : Bytes) → view cleared j ≡ (if k =s= j then fresh else view l j)
    unfolding view
    cleared-view j = rw cleared-eq (ground (arith, lookup-delete k j l.entries))
