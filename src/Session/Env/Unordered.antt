-- ===== src/Session/Env/Unordered.antt =====
-- `buildEnv` of internal/session/service.go writes its entries in the order in which Go ranges over a
-- map. That order does not matter.
use minisshd.Prelude.{
  ◌≡◌, ◌≢◌, refl, Option, none, some, List, [], ◌∷◌, arith, Bytes, codes, ◌=s=◌, =s=_iff, =s=-refl,
  All, sym, ◌∙◌, Bool-cases, inl, inr, Option-cases,
}
use mathlib.Core.Logic.{∥∥₁_elim}
use mathlib.Core.List.{Perm, Permᴰ}
use minisshd.Prelude.Maps.{lookup, insert, lookup-insert}
use minisshd.Session.Env.{
  index_equal, index_equal_from, key_value, Env, pick_one, pick, pick_locale_one, pick_locale,
  override, set_term, picked_env, render,
}
use minisshd.Session.Env.Lookup.{last_value, expected, lookup-picked_env}
use minisshd.Session.Env.Entries.{IsName, key_value-append, last_value-IsName}

-- Each name stands once.
unfoldable IsDistinct : Env → Type 0
IsDistinct [] = Unit
IsDistinct ((k, v) ∷ m) = (lookup k m ≡ none) × IsDistinct m

insert-IsDistinct : (k v : Bytes) (m : Env) → IsDistinct m → IsDistinct (insert k v m)
unfolding IsDistinct insert
insert-IsDistinct k v [] d = (unfold lookup in refl, tt)
insert-IsDistinct k v ((j, w) ∷ m) (fresh, d) = elim (Bool-cases (j =s= k)) [
  | inl e ↦ rw e (ground (arith, =s=_iff j k), d)
  | inr e ↦
      rw e
        (ground (arith, lookup-insert k j v m, =s=_iff j k, =s=_iff k j), insert-IsDistinct k v m d)
]

pick_one-IsDistinct : (name kv : Bytes) (m : Env) → IsDistinct m → IsDistinct (pick_one name kv m)
pick_one-IsDistinct name kv m d = elim (Option-cases (key_value kv)) [
  | inl p ↦ rw (p, pick_one) d
  | inr ((k, v), p) ↦ rw (p, pick_one) (ground (arith, insert-IsDistinct name v m d))
]

pick-IsDistinct :
    (name : Bytes) (src : List Bytes) (m : Env) → IsDistinct m → IsDistinct (pick name src m)
unfolding pick
pick-IsDistinct name [] m d = d
pick-IsDistinct name (kv ∷ src) m d = pick-IsDistinct name src _ (pick_one-IsDistinct name kv m d)

pick_locale_one-IsDistinct :
    (kv : Bytes) (m : Env) → IsDistinct m → IsDistinct (pick_locale_one kv m)
pick_locale_one-IsDistinct kv m d = elim (Option-cases (key_value kv)) [
  | inl p ↦ rw (p, pick_locale_one) d
  | inr ((k, v), p) ↦ rw (p, pick_locale_one) (ground (arith, insert-IsDistinct k v m d))
]

pick_locale-IsDistinct :
    (src : List Bytes) (m : Env) → IsDistinct m → IsDistinct (pick_locale src m)
unfolding pick_locale
pick_locale-IsDistinct [] m d = d
pick_locale-IsDistinct (kv ∷ src) m d =
    pick_locale-IsDistinct src _ (pick_locale_one-IsDistinct kv m d)

override-IsDistinct : (env m : Env) → IsDistinct m → IsDistinct (override env m)
unfolding override
override-IsDistinct [] m d = d
override-IsDistinct ((k, v) ∷ env) m d =
    insert-IsDistinct k v (override env m) (override-IsDistinct env m d)

set_term-IsDistinct : (term : Option Bytes) (m : Env) → IsDistinct m → IsDistinct (set_term term m)
unfolding set_term
set_term-IsDistinct none m d = d
set_term-IsDistinct (some term) m d = ground (arith, insert-IsDistinct (codes "TERM") term m d)

picked_env-IsDistinct :
    (src : List Bytes) (from_channel : Env) (term : Option Bytes)
    → IsDistinct (picked_env src from_channel term)
unfolding picked_env
picked_env-IsDistinct src from_channel term = set_term-IsDistinct term _ (
    override-IsDistinct from_channel _ (
      pick_locale-IsDistinct src _ (
        pick-IsDistinct (codes "PATH") src _ (
          pick-IsDistinct (codes "SHELL") src _ (
            pick-IsDistinct (codes "LOGNAME") src _ (
              pick-IsDistinct (codes "USER") src _
                (pick-IsDistinct (codes "HOME") src [] (unfold IsDistinct in tt))))))))

-- Names that an environment can hold, each once.
abbrev IsNamed : Env → Type 0
IsNamed = All (λ p. IsName p.0)

last_value-render :
    (name : Bytes) (m : Env) → IsNamed m → IsDistinct m → last_value name (render m) ≡ lookup name m
unfolding last_value render lookup IsDistinct
last_value-render name [] n d = refl
last_value-render name ((k, v) ∷ m) (h, n) (fresh, d) =
    rw (key_value-append k v h, last_value-render name m n d) (ground (arith, =s=_iff k name))

-- The names of a list that has every value found in it.
lookup-IsNamed : (m : Env) → ((k : Bytes) → lookup k m ≢ none → IsName k) → IsNamed m
unfolding lookup
lookup-IsNamed [] h = tt
lookup-IsNamed ((k, v) ∷ m) h =
    (h k (ground (arith, =s=-refl k)), lookup-IsNamed m (λ j found. h j (ground arith)))

named-lookup : (m : Env) (k : Bytes) → IsNamed m → lookup k m ≢ none → IsName k
unfolding lookup
named-lookup [] k h found = absurd (found refl)
named-lookup ((j, v) ∷ m) k (n, h) found = ground (arith, named-lookup m k h, =s=_iff j k)

term-IsName : IsName (codes "TERM")
unfolding index_equal index_equal_from
term-IsName = (refl, λ e. cc)

picked_env-IsNamed :
    (src : List Bytes) (from_channel : Env) (term : Option Bytes)
    → IsNamed from_channel
    → IsNamed (picked_env src from_channel term)
picked_env-IsNamed src from_channel term h =
    lookup-IsNamed (picked_env src from_channel term) (λ k found. ground (
      arith,
      lookup-picked_env src from_channel term k,
      named-lookup from_channel k h,
      last_value-IsName k src,
      term-IsName,
      =s=_iff (codes "TERM") k,
    ))

-- Another order of the same entries, with the same values.
unfoldable IsReordered : Env → Env → Type 0
IsReordered m n = IsNamed n × IsDistinct n × ((name : Bytes) → lookup name n ≡ lookup name m)

cons-IsReordered :
    (k v : Bytes) (m n : Env)
    → IsNamed ((k, v) ∷ m)
    → IsDistinct ((k, v) ∷ m)
    → IsReordered m n
    → IsReordered ((k, v) ∷ m) ((k, v) ∷ n)
unfolding IsReordered IsDistinct lookup
cons-IsReordered k v m n (h, hs) (fresh, d) (hs', d', same) =
    ((h, hs'), (same k ∙ fresh, d'), λ name. rw (same name) refl)

swap-IsReordered :
    (k v j w : Bytes) (m : Env)
    → IsNamed ((k, v) ∷ (j, w) ∷ m)
    → IsDistinct ((k, v) ∷ (j, w) ∷ m)
    → IsReordered ((k, v) ∷ (j, w) ∷ m) ((j, w) ∷ (k, v) ∷ m)
unfolding IsReordered IsDistinct lookup
swap-IsReordered k v j w m (h, (h', hs)) (fresh, (fresh', d)) = (
  (h', (h, hs)),
  (ground (arith, =s=_iff j k, =s=_iff k j), (ground arith, d)),
  λ name. ground (arith, =s=_iff j k, =s=_iff k name, =s=_iff j name),
)

trans-IsReordered : (m n o : Env) → IsReordered m n → IsReordered n o → IsReordered m o
unfolding IsReordered
trans-IsReordered m n o (h, d, same) (h', d', same') = (h', d', λ name. same' name ∙ same name)

reordered-IsNamed : (m n : Env) → IsReordered m n → IsNamed n × IsDistinct n
unfolding IsReordered
reordered-IsNamed m n r = (r.0, r.1)

Permᴰ-IsReordered : {m n : Env} → Permᴰ m n → IsNamed m → IsDistinct m → IsReordered m n
Permᴰ-IsReordered Permᴰ.nil h d = unfold IsReordered in (h, d, λ name. refl)
Permᴰ-IsReordered (Permᴰ.cons {a = (k, v)} {l₁ = m} {l₂ = n} e p) h d =
    rw (sym e) (cons-IsReordered k v m n h d (Permᴰ-IsReordered p h.1 (unfold IsDistinct in d.1)))
Permᴰ-IsReordered (Permᴰ.swap {a = (k, v)} {b = (j, w)} {l = m} e₁ e₂) h d =
    rw (sym e₁, sym e₂) (swap-IsReordered k v j w m h d)
Permᴰ-IsReordered (Permᴰ.trans {l₁ = m} {l₂ = n} {l₃ = o} p q) h d =
    let r = Permᴰ-IsReordered p h d in
    let good = reordered-IsNamed m n r in
    trans-IsReordered m n o r (Permᴰ-IsReordered q good.0 good.1)

-- In whatever order the entries are written, the environment of the child gives each name the value
-- that it should have, if the names that the client has set are not empty and have no '=' in them.
pub build_env-unordered :
    (src : List Bytes) (from_channel : Env) (term : Option Bytes)
    → IsNamed from_channel
    → (order : Env) → Perm (picked_env src from_channel term) order
    → (name : Bytes) → last_value name (render order) ≡ expected src from_channel term name
unfolding IsReordered
build_env-unordered src from_channel term h order p name = ∥∥₁_elim p (hlevel) (λ q.
    let (named, distinct, same) =
      Permᴰ-IsReordered q (picked_env-IsNamed src from_channel term h)
        (picked_env-IsDistinct src from_channel term) in
    last_value-render name order named distinct
    ∙ same name
    ∙ lookup-picked_env src from_channel term name)
