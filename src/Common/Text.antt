-- ===== src/Common/Text.antt =====
-- C strings: the bytes before the terminating NUL. `strcmp`, as the source uses it, tests equality.
use Prim.Native.Char.{code}
use Prim.Native.Nat.{ℕ}
use Prim.Native.String.{String}
use mathlib.Core.Bool.{Bool, true, false, ◌&&◌, ◌||◌}
use mathlib.Core.List.{List, [], ◌∷◌}
use mathlib.Core.Logic.{◌↔◌, ◌≢◌, inl, inr}
use mathlib.Core.Path.{◌≡◌, refl, sym, ◌∙◌}
use native.Mathlib.Omega.{arith}
use libvzctl.Common.Nums.{◌==◌, Bool-cases}

abbrev pub Str : Type 0
Str = List ℕ

-- The bytes of an ASCII literal.
abbrev pub codes : String → Str
codes String.[] = []
codes (String.◌∷◌ c s) = code c ∷ codes s

-- `!strcmp(a, b)`.
unfoldable pub str_eq : Str → Str → Bool
str_eq [] [] = true
str_eq [] (y ∷ ys) = false
str_eq (x ∷ xs) [] = false
str_eq (x ∷ xs) (y ∷ ys) = x == y && str_eq xs ys

pub str_eq_iff : (a b : Str) → (str_eq a b ≡ true) ↔ (a ≡ b)
unfolding str_eq
str_eq_iff [] [] = ground arith
str_eq_iff [] (y ∷ ys) = ground arith
str_eq_iff (x ∷ xs) [] = ground arith
str_eq_iff (x ∷ xs) (y ∷ ys) = ground (arith, str_eq_iff xs ys)

pub str_eq_refl : (a : Str) → str_eq a a ≡ true
str_eq_refl a = (str_eq_iff a a).1 refl

-- Strings that `str_eq` tells apart differ, and the other way round.
pub str_eq_no : (a b : Str) → str_eq a b ≡ false → a ≢ b
str_eq_no a b e h = true_false (sym ((str_eq_iff a b).1 h) ∙ e)
  where
    true_false : true ≢ false
    true_false q = cc

pub no_str_eq : (a b : Str) → a ≢ b → str_eq a b ≡ false
no_str_eq a b n = elim (Bool-cases (str_eq a b)) [
  | inl y ↦ absurd (n ((str_eq_iff a b).0 y))
  | inr f ↦ f
]

-- Whether a list of strings holds a string, as the search loops of the source find it.
unfoldable pub contains : List Str → Str → Bool
contains [] g = false
contains (x ∷ xs) g = str_eq x g || contains xs g
