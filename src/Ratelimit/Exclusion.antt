-- ===== src/Ratelimit/Exclusion.antt =====
-- The invariant of the limiter of internal/ratelimit/ratelimit.go under interleaved goroutines.
use minisshd.Prelude.{ℕ, ◌<◌, ◌≡◌, refl, Option, none, some, Bytes, arith, =s=_iff}
use minisshd.Prelude.Maps.{lookup}
use minisshd.Ratelimit.Limiter.{new, release}
use minisshd.Ratelimit.Lookups.{
  delete_current-lookup, delete_current-next, delete_current-heap, create_entry-lookup,
  create_entry-next, create_entry-heap,
}
use minisshd.Ratelimit.Moves.{
  Shared, Pc, idle, looking, missing, locking, checking, dropping, holding, unlocking, delay_of,
  Move, begin, hit, create, lock, expire, relock, fail, succeed, System, at, Step, go, tick, Reach,
  start, later,
}

-- The key and the entry that a goroutine works on.
abbrev pub target : Pc → Option (Bytes × ℕ)
target idle = none
target (looking _ _) = none
target (missing _ _) = none
target (locking _ k e) = some (k, e)
target (checking k e) = some (k, e)
target (dropping k e) = some (k, e)
target (holding k e _) = some (k, e)
target (unlocking k e) = some (k, e)

-- The entry whose mutex a goroutine holds.
abbrev pub locked : Pc → Option ℕ
locked (checking _ e) = some e
locked (holding _ e _) = some e
locked (unlocking _ e) = some e
locked _ = none

pub record Inv (m : Shared) (pc : ℕ → Pc) : Type 0 where
  pub allocated : (k : Bytes) (e : ℕ) → lookup k m.lim.entries ≡ some e → e < m.lim.next
  pub unshared :
      (j k : Bytes) (e : ℕ)
      → lookup j m.lim.entries ≡ some e
      → lookup k m.lim.entries ≡ some e
      → j ≡ k
  pub known : (i e : ℕ) (k : Bytes) → target (pc i) ≡ some (k, e) → e < m.lim.next
  pub keyed :
      (i e : ℕ) (j k : Bytes)
      → target (pc i) ≡ some (k, e)
      → lookup j m.lim.entries ≡ some e
      → j ≡ k
  pub owned : (i e : ℕ) → locked (pc i) ≡ some e → m.owner e ≡ some i
  pub promised : (i e d : ℕ) (k : Bytes) → pc i ≡ holding k e d → d ≡ delay_of m e

module _ {m : Shared} {pc : ℕ → Pc} (inv : Inv m pc) (i : ℕ) where
  open inv use {allocated, unshared, known, keyed, owned, promised}

  Move-allocated :
      {p p' : Pc} {m' : Shared}
      → Move i m p m' p'
      → (j : Bytes) (c : ℕ) → lookup j m'.lim.entries ≡ some c
      → c < m'.lim.next
  unfolding release
  Move-allocated (begin _) j c q = allocated j c q
  Move-allocated (create {k}) j c q = ground (
    arith,
    create_entry-lookup k m.lim j,
    create_entry-next k m.lim,
    allocated j c,
    allocated k c,
  )
  Move-allocated (expire {k} {e}) j c q =
      rw (delete_current-next k e m.lim) (allocated j c (delete_current-lookup k e m.lim j c q))
  Move-allocated (succeed {k} {e}) j c q =
      rw (delete_current-next k e m.lim) (allocated j c (delete_current-lookup k e m.lim j c q))
  Move-allocated _ j c q = allocated j c q

  Move-unshared :
      {p p' : Pc} {m' : Shared}
      → Move i m p m' p'
      → (a b : Bytes) (c : ℕ) → lookup a m'.lim.entries ≡ some c
      → lookup b m'.lim.entries ≡ some c
      → a ≡ b
  unfolding release
  Move-unshared (begin _) a b c p q = unshared a b c p q
  Move-unshared (create {k}) a b c p q = ground (
    arith,
    create_entry-lookup k m.lim a,
    create_entry-lookup k m.lim b,
    create_entry-next k m.lim,
    allocated a c,
    allocated b c,
    unshared a b c,
    unshared a k c,
    unshared k b c,
    =s=_iff k a,
    =s=_iff k b,
  )
  Move-unshared (expire {k} {e}) a b c p q =
      unshared a b c (delete_current-lookup k e m.lim a c p) (delete_current-lookup k e m.lim b c q)
  Move-unshared (succeed {k} {e}) a b c p q =
      unshared a b c (delete_current-lookup k e m.lim a c p) (delete_current-lookup k e m.lim b c q)
  Move-unshared _ a b c p q = unshared a b c p q

  Move-known :
      {p p' : Pc} {m' : Shared}
      → Move i m p m' p'
      → pc i ≡ p
      → (t c : ℕ) (j : Bytes) → target (at pc i p' t) ≡ some (j, c)
      → c < m'.lim.next
  unfolding release
  Move-known (begin _) h t c j q = ground (arith, known t c j)
  Move-known (hit {k} e l) h t c j q = ground (arith, known t c j, allocated k e)
  Move-known (create {k}) h t c j q =
      ground (arith, known t c j, create_entry-next k m.lim, allocated k c)
  Move-known (expire {k} {e}) h t c j q =
      rw (delete_current-next k e m.lim) (ground (arith, known t c j))
  Move-known (succeed {k} {e}) h t c j q =
      rw (delete_current-next k e m.lim) (ground (arith, known t c j))
  Move-known _ h t c j q = ground (arith, known t c j, known i c j)

  Move-keyed :
      {p p' : Pc} {m' : Shared}
      → Move i m p m' p'
      → pc i ≡ p
      → (t c : ℕ) (a j : Bytes) → target (at pc i p' t) ≡ some (j, c)
      → lookup a m'.lim.entries ≡ some c
      → a ≡ j
  unfolding release
  Move-keyed (begin _) h t c a j q l = ground (arith, keyed t c a j)
  Move-keyed (hit {k} e f) h t c a j q l = ground (arith, keyed t c a j, unshared a k c)
  Move-keyed (create {k}) h t c a j q l = ground (
    arith,
    keyed t c a j,
    known t c j,
    create_entry-lookup k m.lim a,
    create_entry-next k m.lim,
    =s=_iff k a,
    allocated a c,
    unshared a k c,
    keyed t c k j,
  )
  Move-keyed (expire {k} {e}) h t c a j q l =
      ground (arith, keyed t c a j, delete_current-lookup k e m.lim a c)
  Move-keyed (succeed {k} {e}) h t c a j q l =
      ground (arith, keyed t c a j, keyed i c a j, delete_current-lookup k e m.lim a c)
  Move-keyed _ h t c a j q l = ground (arith, keyed t c a j, keyed i c a j)

  Move-owned :
      {p p' : Pc} {m' : Shared}
      → Move i m p m' p'
      → pc i ≡ p
      → (t c : ℕ) → locked (at pc i p' t) ≡ some c
      → m'.owner c ≡ some t
  Move-owned (begin _) h t c q = ground (arith, owned t c)
  Move-owned (lock free) h t c q = ground (arith, owned t c)
  Move-owned (relock free) h t c q = ground (arith, owned t c)
  Move-owned _ h t c q = ground (arith, owned t c, owned i c)

  Move-promised :
      {p p' : Pc} {m' : Shared}
      → Move i m p m' p'
      → pc i ≡ p
      → (t c d : ℕ) (j : Bytes) → at pc i p' t ≡ holding j c d
      → d ≡ delay_of m' c
  unfolding release
  Move-promised (begin _) h t c d j q = ground (arith, promised t c d j)
  Move-promised (create {k}) h t c d j q =
      ground (arith, promised t c d j, create_entry-heap k m.lim c, known t c j)
  Move-promised (expire {k} {e}) h t c d j q =
      ground (arith, promised t c d j, delete_current-heap k e m.lim)
  Move-promised (succeed {k} {e}) h t c d j q =
      ground (arith, promised t c d j, delete_current-heap k e m.lim)
  Move-promised (fail {k} {e}) h t c d j q = ground (arith, promised t c d j, owned t c, owned i c)
  Move-promised _ h t c d j q = ground (arith, promised t c d j)

  Move-Inv : {p' : Pc} {m' : Shared} → Move i m (pc i) m' p' → Inv m' (at pc i p')
  Move-Inv mv = record {
    allocated = λ k e. Move-allocated mv k e;
    unshared = λ j k e. Move-unshared mv j k e;
    known = λ t e k. Move-known mv refl t e k;
    keyed = λ t e j k. Move-keyed mv refl t e j k;
    owned = λ t e. Move-owned mv refl t e;
    promised = λ t e d k. Move-promised mv refl t e d k;
  }

Step-Inv : {s t : System} → Step s t → Inv s.mem s.pc → Inv t.mem t.pc
Step-Inv (go i mv) inv = Move-Inv inv i mv
Step-Inv (tick now h) inv = record {
  allocated = inv.allocated;
  unshared = inv.unshared;
  known = inv.known;
  keyed = inv.keyed;
  owned = inv.owned;
  promised = inv.promised;
}

pub Reach-Inv : {s : System} → Reach s → Inv s.mem s.pc
unfolding new lookup
Reach-Inv start = record {
  allocated = λ k e p. cc;
  unshared = λ j k e p q. cc;
  known = λ i e k p. cc;
  keyed = λ i e j k p q. cc;
  owned = λ i e p. cc;
  promised = λ i e d k p. cc;
}
Reach-Inv (later r st) = Step-Inv st (Reach-Inv r)
