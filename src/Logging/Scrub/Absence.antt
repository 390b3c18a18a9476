-- ===== src/Logging/Scrub/Absence.antt =====
-- Where a text occurs in a line, and what the scrub of internal/logging/logging.go does about it.
use minisshd.Prelude.{
  ℕ, zero, suc, ◌+◌, ◌-◌, ◌/◌, ◌%◌, ◌≡◌, refl, Bool, true, false, ◌||◌, not, List, [], ◌∷◌, ◌++◌,
  arith, leb, ◌==◌, Bytes, length, All, Bool-cases, inl, inr, ◌=s=◌, take, drop, passes_below_lem,
  passes_below,
}
use minisshd.Logging.Scrub.{
  redacted, is_prefix, replace_from, replace_all, scrub_all, scrubs_of, generate_password,
}

-- The needle begins somewhere in the text.
unfoldable pub occurs : Bytes → Bytes → Bool
occurs p [] = is_prefix p []
occurs p (c ∷ s) = is_prefix p (c ∷ s) || occurs p s

-- No byte of a text is one of "[REDACTED]".
abbrev is_foreign_byte : ℕ → Bool
is_foreign_byte c = not (
    c == b'['
    || c == b'R'
    || c == b'E'
    || c == b'D'
    || c == b'A'
    || c == b'C'
    || c == b'T'
    || c == b']')

abbrev IsForeign : Bytes → Type 0
IsForeign = All (λ c. is_foreign_byte c ≡ true)

-- A foreign prefix of the replaced text is a prefix of the text.
prefix-replace :
    (old p s : Bytes)
    → IsForeign p
    → is_prefix p (replace_from old redacted 0 s) ≡ true
    → is_prefix p s ≡ true
unfolding is_prefix replace_from
prefix-replace old [] s f h = refl
prefix-replace old (a ∷ p) [] f h = h
prefix-replace old (a ∷ p) (c ∷ s) f h = elim (Bool-cases (is_prefix old (c ∷ s))) [
  | inl e ↦ ground arith
  | inr e ↦ ground (arith, prefix-replace old p s f.1)
]

-- The mark takes no part in an occurrence of a foreign text.
occurs-redacted :
    (a : ℕ) (p r : Bytes)
    → is_foreign_byte a ≡ true
    → occurs (a ∷ p) (redacted ++ r) ≡ occurs (a ∷ p) r
unfolding occurs is_prefix
occurs-redacted a p r f = ground arith

occurs-replace :
    (old : Bytes) (a : ℕ) (p : Bytes) (k : ℕ) (s : Bytes)
    → IsForeign (a ∷ p)
    → occurs (a ∷ p) (replace_from old redacted k s) ≡ true
    → occurs (a ∷ p) s ≡ true
unfolding occurs replace_from
occurs-replace old a p k [] f h = ground arith
occurs-replace old a p (suc k) (c ∷ s) f h = ground (arith, occurs-replace old a p k s f)
occurs-replace old a p zero (c ∷ s) f h = elim (Bool-cases (is_prefix old (c ∷ s))) [
  | inl e ↦
      let r = occurs-redacted a p (replace_from old redacted (length old - 1) s) f.0 in
      let ih = occurs-replace old a p (length old - 1) s f in ground arith
  | inr e ↦ ground (arith, prefix-replace old (a ∷ p) (c ∷ s) f, occurs-replace old a p zero s f)
]

replace_from-absent :
    (a : ℕ) (p : Bytes) (k : ℕ) (s : Bytes)
    → IsForeign (a ∷ p)
    → occurs (a ∷ p) (replace_from (a ∷ p) redacted k s) ≡ false
unfolding occurs replace_from is_prefix
replace_from-absent a p k [] f = ground arith
replace_from-absent a p (suc k) (c ∷ s) f = replace_from-absent a p k s f
replace_from-absent a p zero (c ∷ s) f = elim (Bool-cases (is_prefix (a ∷ p) (c ∷ s))) [
  | inl e ↦
      let r = occurs-redacted a p (replace_from (a ∷ p) redacted (length p) s) f.0 in
      let ih = replace_from-absent a p (length p) s f in ground arith
  | inr e ↦
      ground (arith, prefix-replace (a ∷ p) (a ∷ p) (c ∷ s) f, replace_from-absent a p zero s f)
]

-- Once absent, a foreign text stays absent.
scrub_all-keeps :
    (a : ℕ) (p : Bytes) (ss : List Bytes) (line : Bytes)
    → IsForeign (a ∷ p)
    → occurs (a ∷ p) line ≡ false
    → occurs (a ∷ p) (scrub_all ss line) ≡ false
unfolding scrub_all replace_all
scrub_all-keeps a p [] line f h = h
scrub_all-keeps a p (s ∷ ss) line f h =
    scrub_all-keeps a p ss (replace_from s redacted 0 line) f
      (ground (arith, occurs-replace s a p 0 line f))

-- What `scrubs_of` gives for a password that is not empty.
pub scrubs_of-cons :
    (a : ℕ) (p encoded : Bytes) → (ss : List Bytes) × (scrubs_of (a ∷ p) encoded ≡ (a ∷ p) ∷ ss)
unfolding scrubs_of ◌=s=◌
scrubs_of-cons a p encoded =
    let inner = take (length encoded - 1 - 1) (drop 1 encoded) in
    elim (Bool-cases (leb 2 (length encoded))) [
      | inl e ↦ elim (Bool-cases (inner =s= (a ∷ p))) [
        | inl e₂ ↦ ([], simp (e, e₂))
        | inr e₂ ↦ (inner ∷ [], simp (e, e₂))
      ]
      | inr e ↦ ([], simp e)
    ]

scrubs-absent :
    (a : ℕ) (p encoded line : Bytes)
    → IsForeign (a ∷ p)
    → occurs (a ∷ p) (scrub_all (scrubs_of (a ∷ p) encoded) line) ≡ false
unfolding scrub_all replace_all
scrubs-absent a p encoded line f =
    let (ss, e) = scrubs_of-cons a p encoded in
    rw e (
      scrub_all-keeps a p ss (replace_from (a ∷ p) redacted 0 line) f
        (replace_from-absent a p 0 line f))

digit-foreign : (m : ℕ) → is_foreign_byte (48 + m % 10) ≡ true
unfolding passes_below
digit-foreign m = ground (
  arith,
  passes_below_lem (λ c. leb c 47 || is_foreign_byte c) 58 (48 + m % 10) (omega arith) refl,
)

-- The same for a generated password.
pub generated-absent :
    (n : ℕ) (encoded line : Bytes)
    → occurs (generate_password n) (scrub_all (scrubs_of (generate_password n) encoded) line)
      ≡ false
unfolding generate_password
generated-absent n encoded line = scrubs-absent (48 + n / 100000 % 10) _ encoded line (
  digit-foreign (n / 100000),
  (
    digit-foreign (n / 10000),
    (
      digit-foreign (n / 1000),
      (digit-foreign (n / 100), (digit-foreign (n / 10), (digit-foreign n, tt))),
    ),
  ),
)
