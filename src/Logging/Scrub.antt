-- ===== src/Logging/Scrub.antt =====
-- The password scrub: `New` and the scrub of `emit` in internal/logging/logging.go, and the password
-- of internal/auth/generate.go. `bytes.ReplaceAll` with a needle that is not empty replaces the
-- occurrences from left to right; after one it skips the needle's other bytes.
pub mod Absence
use minisshd.Prelude.{
  ℕ, zero, suc, ◌+◌, ◌-◌, ◌/◌, ◌%◌, ◌^◌, ◌≤◌, Bool, true, false, ◌&&◌, List, [], ◌∷◌, ◌++◌, leb,
  ◌==◌, if◌then◌else◌, Bytes, codes, length, ◌=s=◌, take, drop,
}

abbrev pub redacted : Bytes
redacted = codes "[REDACTED]"

unfoldable pub is_prefix : Bytes → Bytes → Bool
is_prefix [] s = true
is_prefix (a ∷ p) [] = false
is_prefix (a ∷ p) (c ∷ s) = a == c && is_prefix p s

unfoldable pub replace_from : Bytes → Bytes → ℕ → Bytes → Bytes
replace_from old new skip [] = []
replace_from old new (suc skip) (c ∷ s) = replace_from old new skip s
replace_from old new zero (c ∷ s) = elim (is_prefix old (c ∷ s)) [
  | true ↦ new ++ replace_from old new (length old - 1) s
  | false ↦ c ∷ replace_from old new zero s
]

unfoldable pub replace_all : Bytes → Bytes → Bytes → Bytes
replace_all s old new = replace_from old new 0 s

-- The loop over `l.scrubs`.
unfoldable pub scrub_all : List Bytes → Bytes → Bytes
scrub_all [] line = line
scrub_all (s ∷ ss) line = scrub_all ss (replace_all line s redacted)

-- `l.scrubs` of `New`: the password, and its inner form in JSON if that differs. `encoded` is what
-- `json.Marshal` gives for the password.
unfoldable pub scrubs_of : (password encoded : Bytes) → List Bytes
scrubs_of password encoded =
    let inner = take (length encoded - 1 - 1) (drop 1 encoded) in
    if password =s= []
    then []
    else (if leb 2 (length encoded)
        then (if inner =s= password then password ∷ [] else password ∷ inner ∷ [])
        else password ∷ [])

-- `fmt.Sprintf("%06d", n)` for n below a million, the value that `rand.Int` has drawn.
unfoldable pub generate_password : ℕ → Bytes
generate_password n =
    (48 + n / 100000 % 10)
    ∷ (48 + n / 10000 % 10)
    ∷ (48 + n / 1000 % 10)
    ∷ (48 + n / 100 % 10)
    ∷ (48 + n / 10 % 10)
    ∷ (48 + n % 10)
    ∷ []
