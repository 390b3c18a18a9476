-- ===== src/Auth/Methods/Laws.antt =====
-- `ResolveMethods` and `Methods.String` of internal/auth/resolve.go, together.
use minisshd.Prelude.{
  ℕ, ◌+◌, ◌≤◌, ◌≡◌, refl, ◌⊎◌, inl, inr, Bool, true, false, List, [], ◌∷◌, ◌++◌, arith, Bytes, ◌&&◌,
  not, codes, ◌∙◌, ◌||◌, ◌=s=◌, =s=_iff, All, length, length-append,
}
use mathlib.Core.Path.{subst, sym}
use minisshd.Auth.Methods.{
  ok, method_password, method_publickey, Methods, contains, join, to_string, split_from, split,
  resolve_tokens, resolve_raw, resolve_methods, IsMethods, password_only, publickey_only,
  password_first, publickey_first,
}

-- The two variables of the loop in `ResolveMethods`.
data IsPartial : Methods → List Bytes → Type 0 where
  nothing : IsPartial [] []
  password : IsPartial (method_password ∷ []) (method_password ∷ [])
  publickey : IsPartial (method_publickey ∷ []) (method_publickey ∷ [])
  password_publickey :
      IsPartial (method_password ∷ method_publickey ∷ []) (method_publickey ∷ method_password ∷ [])
  publickey_password :
      IsPartial (method_publickey ∷ method_password ∷ []) (method_password ∷ method_publickey ∷ [])

known_name :
    (tok : Bytes)
    → (not (tok =s= method_password) && not (tok =s= method_publickey)) ≡ false
    → (tok ≡ method_password) ⊎ (tok ≡ method_publickey)
known_name tok h = ground (arith, =s=_iff tok method_password, =s=_iff tok method_publickey)

grow_password :
    {ms seen : List Bytes}
    → IsPartial ms seen
    → contains seen method_password ≡ false
    → IsPartial (ms ++ method_password ∷ []) (method_password ∷ seen)
unfolding contains ◌=s=◌
grow_password nothing h = password
grow_password publickey h = publickey_password
grow_password _ h = cc

grow_publickey :
    {ms seen : List Bytes}
    → IsPartial ms seen
    → contains seen method_publickey ≡ false
    → IsPartial (ms ++ method_publickey ∷ []) (method_publickey ∷ seen)
unfolding contains ◌=s=◌
grow_publickey nothing h = publickey
grow_publickey password h = password_publickey
grow_publickey _ h = cc

grow :
    {ms seen : List Bytes} (tok : Bytes)
    → IsPartial ms seen
    → (not (tok =s= method_password) && not (tok =s= method_publickey)) ≡ false
    → contains seen tok ≡ false
    → IsPartial (ms ++ tok ∷ []) (tok ∷ seen)
grow {ms} {seen} tok p known new = elim (known_name tok known) [
  | inl e ↦
      subst (λ t. contains seen t ≡ false → IsPartial (ms ++ t ∷ []) (t ∷ seen)) (sym e)
        (grow_password p) new
  | inr e ↦
      subst (λ t. contains seen t ≡ false → IsPartial (ms ++ t ∷ []) (t ∷ seen)) (sym e)
        (grow_publickey p) new
]

module _ (trim : Bytes → Bytes) where
  accepted :
      (t : Bytes) (ts seen ms : List Bytes) {r : Methods}
      → resolve_tokens trim (t ∷ ts) seen ms ≡ ok r
      → ((not (trim t =s= method_password) && not (trim t =s= method_publickey)) ≡ false)
        × (contains seen (trim t) ≡ false)
        × (resolve_tokens trim ts (trim t ∷ seen) (ms ++ trim t ∷ []) ≡ ok r)
  unfolding resolve_tokens
  accepted t ts seen ms h = ground arith

  tokens_sound :
      (ts seen ms : List Bytes) {r : Methods}
      → IsPartial ms seen
      → resolve_tokens trim ts seen ms ≡ ok r
      → (s : List Bytes) × IsPartial r s × (length r ≡ length ms + length ts)
  unfolding resolve_tokens
  tokens_sound [] seen ms {r} p h =
      (seen, subst (λ x. IsPartial x seen) (let e : ms ≡ r = cc in e) p, ground arith)
  tokens_sound (t ∷ ts) seen ms {r} p h =
      let (known, new, rest) = accepted t ts seen ms h in
      let (s, q, long) =
        tokens_sound ts (trim t ∷ seen) (ms ++ trim t ∷ []) (grow (trim t) p known new) rest in
      (s, q, omega (arith, length-append ms (trim t ∷ [])))

IsPartial-IsMethods : {ms seen : List Bytes} → IsPartial ms seen → 1 ≤ length ms → IsMethods ms
IsPartial-IsMethods nothing h = absurd (omega arith)
IsPartial-IsMethods password h = password_only
IsPartial-IsMethods publickey h = publickey_only
IsPartial-IsMethods password_publickey h = password_first
IsPartial-IsMethods publickey_password h = publickey_first

split_from-ne-nil : (cur s : Bytes) (sep : ℕ) → 1 ≤ length (split_from cur s sep)
unfolding split_from
split_from-ne-nil cur [] sep = omega arith
split_from-ne-nil cur (c ∷ s) sep = ground (arith, split_from-ne-nil (cur ++ c ∷ []) s sep)

raw_sound :
    (trim : Bytes → Bytes) (value : Bytes) {ms : Methods}
    → resolve_raw trim value ≡ ok ms
    → IsMethods ms
unfolding resolve_raw split
raw_sound trim value {ms} h =
    let got =
      tokens_sound trim (split_from [] (trim value) b',') [] [] {r = ms} nothing (ground arith) in
    IsPartial-IsMethods got.1 (omega (arith, got.2, split_from-ne-nil [] (trim value) b','))

-- Whatever flag and variable are given, and however `TrimSpace` trims, the methods that are accepted
-- are one of password, publickey, or both in either order: never none, and never one of them twice.
pub resolve_methods-IsMethods :
    (trim : Bytes → Bytes) (flag : Bytes) (flag_set : Bool) (env : Bytes) (env_set : Bool)
    {ms : Methods}
    → resolve_methods trim flag flag_set env env_set ≡ ok ms
    → IsMethods ms
unfolding resolve_methods
resolve_methods-IsMethods trim flag true env env_set h = raw_sound trim flag h
resolve_methods-IsMethods trim flag false env true h = raw_sound trim env h
resolve_methods-IsMethods trim flag false env false {ms} h =
    subst IsMethods (let e : method_password ∷ [] ≡ ms = cc in e) password_only

-- A text with no white space: every byte is above 32, and it is ASCII.
abbrev pub IsPlain : Bytes → Type 0
IsPlain = All (λ c. (33 ≤ c) × (c ≤ 126))

module _ (trim : Bytes → Bytes) (plain : (s : Bytes) → IsPlain s → trim s ≡ s) where
  -- One round of the loop on a known method that is new.
  round :
      (t : Bytes) (ts seen ms : List Bytes)
      → IsPlain t
      → ((t =s= []) ≡ false)
        × ((t =s= method_password || t =s= method_publickey) ≡ true)
        × (contains seen t ≡ false)
      → resolve_tokens trim (t ∷ ts) seen ms ≡ resolve_tokens trim ts (t ∷ seen) (ms ++ t ∷ [])
  unfolding resolve_tokens
  round t ts seen ms p h = ground (arith, plain t p)

  raw_of :
      (value : Bytes)
      → IsPlain value
      → (value =s= []) ≡ false
      → resolve_raw trim value ≡ resolve_tokens trim (split value b',') [] []
  unfolding resolve_raw
  raw_of value p h = ground (arith, plain value p)

  raw-to_string : {ms : Methods} → IsMethods ms → resolve_raw trim (to_string ms) ≡ ok ms
  unfolding resolve_tokens to_string join split split_from contains ◌=s=◌
  raw-to_string password_only =
      raw_of (codes "password") (omega arith) refl
      ∙ round (codes "password") [] [] [] (omega arith) (refl, refl, refl)
  raw-to_string publickey_only =
      raw_of (codes "publickey") (omega arith) refl
      ∙ round (codes "publickey") [] [] [] (omega arith) (refl, refl, refl)
  raw-to_string password_first =
      raw_of (codes "password,publickey") (omega arith) refl
      ∙ (round (codes "password") (codes "publickey" ∷ []) [] [] (omega arith) (refl, refl, refl)
          ∙ round (codes "publickey") [] (codes "password" ∷ []) (codes "password" ∷ [])
              (omega arith) (refl, refl, refl))
  raw-to_string publickey_first =
      raw_of (codes "publickey,password") (omega arith) refl
      ∙ (round (codes "publickey") (codes "password" ∷ []) [] [] (omega arith) (refl, refl, refl)
          ∙ round (codes "password") [] (codes "publickey" ∷ []) (codes "publickey" ∷ [])
              (omega arith) (refl, refl, refl))

-- `Methods.String` writes what `ResolveMethods` reads back, in the same order, from the flag and
-- from the variable; `TrimSpace` leaves a text without white space alone.
pub resolve_methods-to_string :
    (trim : Bytes → Bytes)
    → ((s : Bytes) → IsPlain s → trim s ≡ s)
    → {ms : Methods} → IsMethods ms
    → (other : Bytes) (env_set : Bool)
    → (resolve_methods trim (to_string ms) true other env_set ≡ ok ms)
      × (resolve_methods trim other false (to_string ms) true ≡ ok ms)
unfolding resolve_methods
resolve_methods-to_string trim plain m other env_set =
    (raw-to_string trim plain m, raw-to_string trim plain m)
