-- ===== src/Prelude/Text.antt =====
-- Go strings and byte slices as lists of bytes, and Go's `==` on strings.
use Prim.Native.Nat.{ℕ}
use Prim.Native.Char.{code}
use Prim.Native.String.{String}
use mathlib.Core.Path.{◌≡◌, refl}
use mathlib.Core.Logic.{◌↔◌}
use mathlib.Core.Bool.{Bool, true, false, ◌&&◌}
use mathlib.Core.List.{List, [], ◌∷◌}
use native.Mathlib.Omega.{arith}
use minisshd.Prelude.Tests.{◌==◌}

abbrev pub Bytes : Type 0
Bytes = List ℕ

-- The bytes of a literal; these are its code points, as every literal here is ASCII.
abbrev pub codes : String → Bytes
codes String.[] = []
codes (String.◌∷◌ c s) = code c ∷ codes s

infix 50 ◌=s=◌
unfoldable pub ◌=s=◌ : Bytes → Bytes → Bool
[] =s= [] = true
[] =s= (_ ∷ _) = false
(_ ∷ _) =s= [] = false
(a ∷ s) =s= (b ∷ t) = a == b && s =s= t

=s=-eq : (s t : Bytes) → (s =s= t) ≡ true → s ≡ t
unfolding ◌=s=◌
=s=-eq [] [] h = refl
=s=-eq [] (b ∷ t) h = cc
=s=-eq (a ∷ s) [] h = cc
=s=-eq (a ∷ s) (b ∷ t) h = ground (arith, =s=-eq s t)

pub =s=-refl : (s : Bytes) → (s =s= s) ≡ true
unfolding ◌=s=◌
=s=-refl [] = refl
=s=-refl (a ∷ s) = ground (arith, =s=-refl s)

pub =s=_iff : (s t : Bytes) → ((s =s= t) ≡ true) ↔ (s ≡ t)
=s=_iff s t = (=s=-eq s t, λ e. rw e (=s=-refl t))
