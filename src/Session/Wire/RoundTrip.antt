-- ===== src/Session/Wire/RoundTrip.antt =====
-- Numbers and strings of internal/session/helpers.go, written and read.
use minisshd.Prelude.{
  ℕ, zero, suc, ◌+◌, ◌-◌, ◌^◌, ◌<◌, ◌≡◌, refl, ap, ◌∙◌, ◌⊎◌, List, [], ◌∷◌, ◌++◌, arith, ltb,
  if◌then◌else◌, Bytes, length, take, drop, length-append, take-append, drop-append,
}
use native.Mathlib.Nat.{zero-add, add-zero, suc-add}
use minisshd.Session.Wire.{
  ok, bad, u32, be32, put32, read_ssh_string, read_uint32, append_ssh_string,
}

be32-put32 : (n : ℕ) (rest : Bytes) → n < 2 ^ 32 → be32 (put32 n ++ rest) ≡ n
be32-put32 n rest h = omega arith

pub read_uint32-put32 :
    (what : Bytes) (n : ℕ) (rest : Bytes)
    → n < 2 ^ 32
    → read_uint32 what (put32 n ++ rest) ≡ ok (n, rest)
unfolding read_uint32
read_uint32-put32 what n rest h = ground (arith, be32-put32 n rest)

drop-add {ℓ} : {A : Type ℓ} (m n : ℕ) (b : List A) → drop (m + n) b ≡ drop n (drop m b)
drop-add zero n b = rw zero-add
drop-add (suc m) zero [] = rw add-zero
drop-add (suc m) (suc n) [] = rw suc-add
drop-add (suc m) n (x ∷ b) = rw suc-add (drop-add m n b)

-- The wrap-around of `4 + n` never shows on a payload shorter than 2 ^ 32 bytes.
pub read_string_lem :
    (what b : Bytes)
    → length b < 2 ^ 32
    → read_ssh_string what b ≡ (
        if ltb (length b) 4
        then bad what
        else (if ltb (length b - 4) (be32 b)
            then bad what
            else ok (take (be32 b) (drop 4 b), drop (be32 b) (drop 4 b))))
unfolding read_ssh_string
read_string_lem what b h =
    let small : length b < 4 ⊎ (u32 (length b - 4) ≡ length b - 4) = ground arith in
    let sum : (length b < 4 ⊎ (length b - 4 < be32 b)) ⊎ (u32 (4 + be32 b) ≡ 4 + be32 b) =
      ground arith in
    ground (
      arith,
      drop-add 4 (be32 b) b,
      small,
      sum,
      ap (λ k. take k (drop 4 b)) (let e : 4 + be32 b - 4 ≡ be32 b = omega arith in e),
    )

pub read_ssh_string-append :
    (what s rest : Bytes)
    → 4 + length s + length rest < 2 ^ 32
    → read_ssh_string what (append_ssh_string [] s ++ rest) ≡ ok (s, rest)
unfolding append_ssh_string
read_ssh_string-append what s rest h =
    let n = u32 (length s) in
    let same : n ≡ length s = omega arith in
    let whole : put32 n ++ s ++ rest ≡ put32 n ++ (s ++ rest) = refl in
    let long : length (put32 n ++ (s ++ rest)) ≡ 4 + length s + length rest =
      omega (arith, length-append s rest) in
    let sized : be32 (put32 n ++ (s ++ rest)) ≡ length s =
      be32-put32 n (s ++ rest) (omega arith) ∙ same in
    read_string_lem what (put32 n ++ (s ++ rest)) (omega arith)
    ∙ ground (arith, sized, long, take-append s rest, drop-append s rest)
