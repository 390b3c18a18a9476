-- ===== src/Auth/Keyset/Accepts.antt =====
-- `Keyset.Check` of internal/auth/pubkey.go on the keys of a file.
use minisshd.Prelude.{
  ℕ, suc, ◌≡◌, ◌⊎◌, inl, inr, refl, ap, ◌∙◌, Bool, true, false, ◌&&◌, ◌||◌, Option, none, some,
  List, [], ◌∷◌, arith, ◌==◌, if◌then◌else◌, Bytes, ◌=s=◌, =s=_iff, length, not, append-nil,
}
use Prim.Native.Nat.{bit_or}
use minisshd.Auth.Credentials.{constant_time_compare}
use minisshd.Auth.Keyset.{
  AcceptedKey, Keyset, scan, match_keys, sort_in, sort, reason_bad_key, Line, entry, malformed,
  Entry, check, is_skipped, parse_lines, count, Source, scanned, load, parse,
}

Line-cases : (l : Line) → ((e : Entry) × (l ≡ entry e)) ⊎ ((m : Bytes) × (l ≡ malformed m))
Line-cases (entry e) = inl (e, refl)
Line-cases (malformed m) = inr (m, refl)

-- Some accepted key has this digest.
unfoldable pub listed : Bytes → Keyset → Bool
listed d [] = false
listed d (k ∷ ks) = d =s= k.digest || listed d ks

abbrev bit : Bool → ℕ
bit true = 1
bit false = 0

bit_or-bit : (a b : Bool) → bit_or (bit a) (if b then 1 else 0) ≡ bit (a || b)
bit_or-bit true true = refl
bit_or-bit true false = refl
bit_or-bit false true = refl
bit_or-bit false false = refl

scan-bit : (d : Bytes) (ks : Keyset) (b : Bool) → (scan d ks (bit b)).0 ≡ bit (b || listed d ks)
unfolding scan listed constant_time_compare
scan-bit d [] true = refl
scan-bit d [] false = refl
scan-bit d (k ∷ ks) b =
    ap (λ m. (scan d ks m).0) (bit_or-bit b (d =s= k.digest))
    ∙ (scan-bit d ks (b || d =s= k.digest) ∙ ground arith)

abbrev pub pairs : Bytes → Keyset → List (Bytes × Bytes)
pairs d [] = []
pairs d (k ∷ ks) = (d, k.digest) ∷ pairs d ks

scan-compares : (d : Bytes) (ks : Keyset) (m : ℕ) → (scan d ks m).1 ≡ pairs d ks
unfolding scan constant_time_compare
scan-compares d [] m = refl
scan-compares d (k ∷ ks) m = ap (◌∷◌ (d, k.digest)) (scan-compares d ks _)

listed-sort_in :
    (d : Bytes) (k : AcceptedKey) (ks : Keyset)
    → listed d (sort_in k ks) ≡ (d =s= k.digest || listed d ks)
unfolding sort_in listed
listed-sort_in d k [] = refl
listed-sort_in d k (j ∷ js) = ground (arith, listed-sort_in d k js)

listed-sort : (d : Bytes) (ks : Keyset) → listed d (sort ks) ≡ listed d ks
unfolding sort listed
listed-sort d [] = refl
listed-sort d (k ∷ ks) = ground (arith, listed-sort_in d k (sort ks), listed-sort d ks)

abbrev pub listed_in : Bytes → Option Keyset → Bool
listed_in d none = false
listed_in d (some ks) = listed d ks

abbrev pub at_least_one : ℕ → ℕ
at_least_one n = if n == 0 then 1 else n

match_keys-lem :
    (d : Bytes) (ks : Option Keyset) → ((match_keys d ks).0 == 0) ≡ not (listed_in d ks)
unfolding match_keys listed
match_keys-lem d none = refl
match_keys-lem d (some []) = refl
match_keys-lem d (some (k ∷ ks)) = ground (arith, scan-bit d (k ∷ ks) false)

length-pairs : (d : Bytes) (ks : Keyset) → length (pairs d ks) ≡ length ks
length-pairs d [] = refl
length-pairs d (k ∷ ks) = ap suc (length-pairs d ks)

match_keys-compares :
    (d : Bytes) (ks : Option Keyset) → length (match_keys d ks).1 ≡ at_least_one (count ks)
unfolding match_keys constant_time_compare count
match_keys-compares d none = refl
match_keys-compares d (some []) = refl
match_keys-compares d (some (k ∷ ks)) =
    ap length (scan-compares d (k ∷ ks) 0) ∙ (length-pairs d (k ∷ ks) ∙ ground arith)

module _ (sha256 fingerprint trim : Bytes → Bytes) (parse_line : Bytes → Line) where
  -- A key is accepted exactly if its digest is that of an accepted key, and otherwise the reason is
  -- bad-key; the fingerprint is the presented key's in both cases. The number of comparisons is that
  -- of the accepted keys, and one if there are none, whatever key is presented.
  pub check_lem :
      (ks : Option Keyset) (key : Bytes)
      → (let r = check sha256 fingerprint trim parse_line ks key in
          (r.0 ≡ (
            if listed_in (sha256 key) ks
            then (true, [], fingerprint key)
            else (false, reason_bad_key, fingerprint key)))
          × (length r.1 ≡ at_least_one (count ks)))
  unfolding check
  check_lem ks key = (
    ground (arith, match_keys-lem (sha256 key) ks),
    rw append-nil (match_keys-compares (sha256 key) ks),
  )

  -- Some line of the file that is neither blank nor a comment gives this key.
  abbrev pub gives : Bytes → Line → Bool
  gives key (entry e) = key =s= e.key
  gives key (malformed m) = false

  unfoldable pub mentions : Bytes → List Bytes → Bool
  mentions key [] = false
  mentions key (text ∷ rest) =
      not (is_skipped sha256 fingerprint trim parse_line (trim text)) && gives key (parse_line text)
      || mentions key rest

  module _ (key : Bytes) (unique : (k : Bytes) → sha256 key ≡ sha256 k → key ≡ k) where
    same-digest : (k : Bytes) → (sha256 key =s= sha256 k) ≡ (key =s= k)
    same-digest k = ground (arith, =s=_iff (sha256 key) (sha256 k), =s=_iff key k, unique k)

    listed-parse_lines :
        (path : Bytes) (line : ℕ) (lines : List Bytes)
        → listed (sha256 key) (parse_lines sha256 fingerprint trim parse_line path line lines).0
          ≡ mentions key lines
    unfolding listed parse_lines mentions
    listed-parse_lines path line [] = refl
    listed-parse_lines path line (text ∷ rest) = elim (Line-cases (parse_line text)) [
      | inl (e, p) ↦ ground (arith, listed-parse_lines path (suc line) rest, same-digest e.key)
      | inr (m, p) ↦ ground (arith, listed-parse_lines path (suc line) rest)
    ]

    -- After a load of a readable file, a key with which no other key collides under SHA-256 is
    -- accepted exactly if a line of the file gives it, whatever the order of the lines.
    pub load-accepts :
        (lines : List Bytes) (s : Source)
        → (let s' = (load sha256 fingerprint trim parse_line (scanned lines) s).0 in
            (check sha256 fingerprint trim parse_line s'.cur key).0.0 ≡ mentions key lines)
    unfolding load parse
    load-accepts lines s =
        let ks = (parse_lines sha256 fingerprint trim parse_line s.path 1 lines).0 in
        ground (
          arith,
          (check_lem (some (sort ks)) key).0,
          listed-sort (sha256 key) ks,
          listed-parse_lines s.path 1 lines,
        )
