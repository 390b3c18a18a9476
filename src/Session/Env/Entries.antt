-- ===== src/Session/Env/Entries.antt =====
-- The entries "name=value" that `buildEnv` of internal/session/service.go writes, read back.
use minisshd.Prelude.{
  ℕ, zero, suc, ◌+◌, ◌≡◌, ◌≢◌, refl, none, some, List, [], ◌∷◌, ◌++◌, arith, Bytes, =s=_iff, length,
  take, drop, take-append, ◌==◌, ap, ap₂, Bool-cases, ◌≤◌, sym, ◌∙◌, Option-cases, inl, inr,
}
use mathlib.Core.Option
use minisshd.Session.Env.{index_equal, index_equal_from, key_value}
use minisshd.Session.Env.Lookup.{last_value}

-- A name that an environment can hold.
abbrev pub IsName : Bytes → Type 0
IsName k = (index_equal k ≡ none) × (k ≢ [])

index_equal-append :
    (i : ℕ) (k v : Bytes)
    → index_equal_from i k ≡ none
    → index_equal_from i (k ++ b'=' ∷ v) ≡ some (i + length k)
unfolding index_equal_from
index_equal-append i [] v h = ap some (omega arith)
index_equal-append i (c ∷ k) v h = grind (arith, index_equal-append (suc i) k v)

drop_after-append : (k v : Bytes) → drop (suc (length k)) (k ++ b'=' ∷ v) ≡ v
drop_after-append [] v = refl
drop_after-append (c ∷ k) v = drop_after-append k v

key_value-split :
    (kv : Bytes) (n : ℕ)
    → index_equal kv ≡ some (suc n)
    → key_value kv ≡ some (take (suc n) kv, drop (suc (suc n)) kv)
unfolding key_value
key_value-split kv n h = ground arith

pub key_value-append : (k v : Bytes) → IsName k → key_value (k ++ b'=' ∷ v) ≡ some (k, v)
unfolding index_equal
key_value-append [] v (h, n) = absurd (n refl)
key_value-append (c ∷ k) v (h, n) =
    key_value-split (c ∷ k ++ b'=' ∷ v) (length k)
      (index_equal-append 0 (c ∷ k) v h ∙ ap some (omega arith))
    ∙ ap some (ap₂ (λ a b. (a, b)) (take-append (c ∷ k) (b'=' ∷ v)) (drop_after-append (c ∷ k) v))

some-eq : {a b : ℕ} → some a ≡ some b → a ≡ b
some-eq {a} h = ap (λ o. Option.get_or o a) h

index_equal-past : (i j : ℕ) (s : Bytes) → index_equal_from i s ≡ some j → i ≤ j
unfolding index_equal_from
index_equal-past i j [] h = cc
index_equal-past i j (c ∷ s) h = elim (Bool-cases (c == b'=')) [
  | inl e ↦ let same : i ≡ j = some-eq (sym (rw e refl) ∙ h) in omega (arith, same)
  | inr e ↦
      let later : index_equal_from (suc i) s ≡ some j = rw e at h in
      omega (arith, index_equal-past (suc i) j s later)
]

-- What stands before the first '='.
index_equal-take :
    (i n : ℕ) (s : Bytes)
    → index_equal_from i s ≡ some (i + n)
    → index_equal_from i (take n s) ≡ none
unfolding index_equal_from
index_equal-take i zero s h = refl
index_equal-take i (suc n) [] h = cc
index_equal-take i (suc n) (c ∷ s) h = elim (Bool-cases (c == b'=')) [
  | inl e ↦ let same : i ≡ i + suc n = some-eq (sym (rw e refl) ∙ h) in absurd (omega (arith, same))
  | inr e ↦
      let later : index_equal_from (suc i) s ≡ some (i + suc n) = rw e at h in
      rw e (index_equal-take (suc i) n s (later ∙ ap some (omega arith)))
]

pair-eq : {a b : Bytes × Bytes} → some a ≡ some b → a ≡ b
pair-eq {a} h = ap (λ o. Option.get_or o a) h

cons-ne-nil : {c : ℕ} {s : Bytes} → c ∷ s ≢ []
cons-ne-nil e = cc

key_value-IsName : (kv k v : Bytes) → key_value kv ≡ some (k, v) → IsName k
unfolding key_value index_equal
key_value-IsName [] k v h = absurd (unfold index_equal_from in cc)
key_value-IsName (c ∷ s) k v h = elim (Option-cases (index_equal (c ∷ s))) [
  | inl e ↦ ground arith
  | inr (zero, e) ↦ ground arith
  | inr (suc n, e) ↦
      let same = pair-eq (sym (key_value-split (c ∷ s) n e) ∙ h) in
      let split = index_equal-take 0 (suc n) (c ∷ s) (e ∙ ap some (omega arith)) in
      (
        rw (sym (ap (λ p. p.0) same)) split,
        λ empty. absurd (cons-ne-nil (ap (λ p. p.0) same ∙ empty)),
      )
]

pub last_value-IsName : (name : Bytes) (src : List Bytes) → last_value name src ≢ none → IsName name
unfolding last_value
last_value-IsName name [] h = absurd (h refl)
last_value-IsName name (kv ∷ src) h = elim (Option-cases (key_value kv)) [
  | inl e ↦ ground (arith, last_value-IsName name src)
  | inr ((k, v), e) ↦
      ground (arith, key_value-IsName kv k v e, last_value-IsName name src, =s=_iff k name)
]
