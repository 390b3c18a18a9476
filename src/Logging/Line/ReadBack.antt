-- ===== src/Logging/Line/ReadBack.antt =====
-- A reader of logfmt fields, for what `encodeLogfmt` and `writeValue` of internal/logging/logging.go
-- print.
use minisshd.Prelude.{
  ℕ, zero, suc, ◌≡◌, refl, sym, ap, true, false, ◌||◌, List, [], ◌∷◌, ◌++◌, append_assoc, ◌∙◌, ◌&&◌,
  ◌=s=◌, Option, none, some, arith, ◌==◌, if◌then◌else◌, Bytes, length, All, Bool-cases, inl, inr,
}
use minisshd.Logging.Line.{
  Field, is_special, has_special, needs_quoting, escape, write_value, write_fields,
}

infixl 5 ◌>>=◌
abbrev ◌>>=◌ : {A B : Type 0} → Option A → (A → Option B) → Option B
none >>= f = none
(some a) >>= f = f a

unfoldable add_byte : ℕ → Option (Bytes × Bytes) → Option (Bytes × Bytes)
add_byte c none = none
add_byte c (some (v, rest)) = some (c ∷ v, rest)

-- The rest of a quoted value: up to a quote that no backslash precedes.
unfoldable read_quoted : Bytes → Option (Bytes × Bytes)
read_quoted [] = none
read_quoted (c ∷ []) = if c == 34 then some ([], []) else none
read_quoted (c ∷ d ∷ s) =
    let rest = read_quoted s in
    let next = read_quoted (d ∷ s) in
    if c == 34 then some ([], d ∷ s) else (if c == 92 then add_byte d rest else add_byte c next)

-- Up to a byte that would need quotes.
unfoldable read_bare : Bytes → Option (Bytes × Bytes)
read_bare [] = none
read_bare (c ∷ s) =
    let rest = read_bare s in if is_special c then some ([], c ∷ s) else add_byte c rest

unfoldable read_value : Bytes → Option (Bytes × Bytes)
read_value [] = none
read_value (c ∷ s) = if c == 34 then read_quoted s else read_bare (c ∷ s)

read_quoted-plain :
    (c : ℕ) (s : Bytes)
    → (c == 34 || c == 92) ≡ false
    → read_quoted (c ∷ s) ≡ add_byte c (read_quoted s)
unfolding read_quoted add_byte
read_quoted-plain c [] h = ground arith
read_quoted-plain c (d ∷ s) h = ground arith

read_quoted-marked : (c : ℕ) (s : Bytes) → read_quoted (92 ∷ c ∷ s) ≡ add_byte c (read_quoted s)
unfolding read_quoted
read_quoted-marked c s = refl

read_quoted-escape : (v rest : Bytes) → read_quoted (escape v ++ 34 ∷ rest) ≡ some (v, rest)
unfolding read_quoted escape add_byte
read_quoted-escape [] [] = refl
read_quoted-escape [] (d ∷ s) = refl
read_quoted-escape (c ∷ v) rest =
    let ih = read_quoted-escape v rest in
    elim (Bool-cases (c == 34 || c == 92)) [
      | inl e ↦ rw e (rw (read_quoted-marked c (escape v ++ 34 ∷ rest)) (rw ih refl))
      | inr e ↦ rw e (rw (read_quoted-plain c (escape v ++ 34 ∷ rest) e) (rw ih refl))
    ]

read_bare-append :
    (v : Bytes) (c : ℕ) (rest : Bytes)
    → has_special v ≡ false
    → is_special c ≡ true
    → read_bare (v ++ c ∷ rest) ≡ some (v, c ∷ rest)
unfolding read_bare has_special add_byte
read_bare-append [] c rest h e = ground arith
read_bare-append (a ∷ v) c rest h e = ground (arith, read_bare-append v c rest)

read_value-quoted :
    (v rest : Bytes) → read_value ((34 ∷ (escape v ++ 34 ∷ [])) ++ rest) ≡ some (v, rest)
unfolding read_value
read_value-quoted v rest =
    ap read_quoted (append_assoc (escape v) (34 ∷ []) rest) ∙ read_quoted-escape v rest

read_value-bare :
    (a : ℕ) (v : Bytes) (c : ℕ) (rest : Bytes)
    → has_special (a ∷ v) ≡ false
    → is_special c ≡ true
    → read_value (a ∷ (v ++ c ∷ rest)) ≡ some (a ∷ v, c ∷ rest)
unfolding read_value has_special
read_value-bare a v c rest h e = ground (arith, read_bare-append (a ∷ v) c rest h e)

read_value-write_value :
    (v : Bytes) (c : ℕ) (rest : Bytes)
    → is_special c ≡ true
    → read_value (write_value v ++ c ∷ rest) ≡ some (v, c ∷ rest)
unfolding write_value needs_quoting
read_value-write_value [] c rest e = read_value-quoted [] (c ∷ rest)
read_value-write_value (a ∷ v) c rest e = elim (Bool-cases (has_special (a ∷ v))) [
  | inl h ↦ rw h (read_value-quoted (a ∷ v) (c ∷ rest))
  | inr h ↦ rw h (read_value-bare a v c rest h e)
]

-- A key ends at its '='.
unfoldable read_key : Bytes → Option (Bytes × Bytes)
read_key [] = none
read_key (c ∷ s) = let rest = read_key s in if c == b'=' then some ([], s) else add_byte c rest

-- So many fields, each after a space, then the newline.
pub read_fields : ℕ → Bytes → Option (List (Bytes × Bytes))
read_fields zero [] = none
read_fields zero (c ∷ s) = if c == 10 && s =s= [] then some [] else none
read_fields (suc n) [] = none
read_fields (suc n) (c ∷ s) =
    let fields : Option (List (Bytes × Bytes)) = (do
      (key, s₁) ← read_key s
      (value, s₂) ← read_value s₁
      rest ← read_fields n s₂
      some ((key, value) ∷ rest)) in
    if c == 32 then fields else none

-- No key holds a '='.
abbrev pub IsKeyed : List Field → Type 0
IsKeyed = All (λ f. All (λ c. (c == b'=') ≡ false) f.key)

abbrev pub pairs : List Field → List (Bytes × Bytes)
pairs [] = []
pairs (f ∷ fs) = (f.key, f.value) ∷ pairs fs

read_key-append :
    (k rest : Bytes)
    → All (λ c. (c == b'=') ≡ false) k
    → read_key (k ++ b'=' ∷ rest) ≡ some (k, rest)
unfolding read_key add_byte
read_key-append [] rest h = refl
read_key-append (c ∷ k) rest h = ground (arith, read_key-append k rest)

-- What follows a value begins with a byte that ends it.
write_fields-cons :
    (fs : List Field)
    → (c : ℕ) × (rest : Bytes) × ((write_fields fs ++ 10 ∷ []) ≡ c ∷ rest) × (is_special c ≡ true)
unfolding write_fields
write_fields-cons [] = (10, [], refl, refl)
write_fields-cons (f ∷ fs) = (32, _, refl, refl)

-- The fields that `encodeLogfmt` prints, with the newline after them, are read back as their keys and
-- values, in order, whatever bytes the values hold; the keys hold no '='.
pub read_fields-write_fields :
    (fs : List Field)
    → IsKeyed fs
    → read_fields (length fs) (write_fields fs ++ 10 ∷ []) ≡ some (pairs fs)
unfolding read_fields write_fields ◌=s=◌
read_fields-write_fields [] h = refl
read_fields-write_fields (f ∷ fs) (h, hs) =
    let (c, rest, e, special) = write_fields-cons fs in
    let tail = read_fields-write_fields fs hs in
    let joined = append_assoc f.key (b'=' ∷ (write_value f.value ++ write_fields fs)) (10 ∷ []) in
    let joined₂ = append_assoc (write_value f.value) (write_fields fs) (10 ∷ []) in
    let key = read_key-append f.key (write_value f.value ++ c ∷ rest) h in
    let value = read_value-write_value f.value c rest special in
    rw (joined, joined₂, e, key, value, sym e, tail) refl
