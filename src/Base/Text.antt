-- ===== src/Base/Text.antt =====
-- C strings as lists of byte values, and the functions of <string.h> that the sources call.
use Prim.Native.Nat.{ℕ, zero, suc, ◌≤◌}
use mathlib.Core.Path.{◌≡◌, refl}
use mathlib.Core.Bool.{Bool, true, false, ◌&&◌}
use mathlib.Core.List.{List, [], ◌∷◌, ◌++◌}
use native.Mathlib.Omega.{arith}
use mathlib.Core.Logic.{inl, inr}
use basic_jqr.Base.Tests.{◌==◌, Bool-cases, ==_refl, if◌then◌else◌}
use basic_jqr.Base.Lists.{length}

abbrev pub Bytes : Type 0
Bytes = List ℕ

-- The string that starts a buffer: the bytes before the first NUL.
unfoldable pub c_str : Bytes → Bytes
c_str [] = []
c_str (b ∷ bs) = if b == 0 then [] else b ∷ c_str bs

pub length-c_str : (bs : Bytes) → length (c_str bs) ≤ length bs
unfolding c_str
length-c_str [] = omega arith
length-c_str (b ∷ bs) = elim (Bool-cases (b == 0)) [
  | inl e ↦ rw e (omega arith)
  | inr e ↦ rw e (omega (arith, length-c_str bs))
]

-- `strncmp(a, b, n) == 0` of two strings.
unfoldable pub strncmp_eq : Bytes → Bytes → ℕ → Bool
strncmp_eq a b zero = true
strncmp_eq [] [] (suc n) = true
strncmp_eq [] (y ∷ ys) (suc n) = false
strncmp_eq (x ∷ xs) [] (suc n) = false
strncmp_eq (x ∷ xs) (y ∷ ys) (suc n) = (x == y) && strncmp_eq xs ys n

pub strncmp_eq_refl : (a : Bytes) (n : ℕ) → strncmp_eq a a n ≡ true
unfolding strncmp_eq
strncmp_eq_refl a zero = refl
strncmp_eq_refl [] (suc n) = refl
strncmp_eq_refl (x ∷ xs) (suc n) = ground (arith, ==_refl x, strncmp_eq_refl xs n)

-- Compared over the length of the second string, equal means that it starts the first.
pub strncmp_eq-append : (key rest : Bytes) → strncmp_eq (key ++ rest) key (length key) ≡ true
unfolding strncmp_eq
strncmp_eq-append [] rest = refl
strncmp_eq-append (x ∷ xs) rest = ground (arith, ==_refl x, strncmp_eq-append xs rest)
