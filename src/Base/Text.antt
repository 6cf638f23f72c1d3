-- ===== src/Base/Text.antt =====
-- Texts of the program (`std::string`) as lists of bytes, with the equality and the order that
-- `std::string` compares by, and the bytes of a literal.
use Prim.Native.Nat.{ℕ}
use Prim.Native.Char.{code}
use Prim.Native.String.{String}
use mathlib.Core.Path.{◌≡◌, refl, subst}
use mathlib.Core.Logic.{◌↔◌}
use mathlib.Core.Bool.{Bool, true, false, ◌&&◌}
use mathlib.Core.List.{List, [], ◌∷◌}
use native.Mathlib.Omega.{arith}
use networking_programming_p.Base.Tests.{ltb, ◌==◌, if◌then◌else◌}

abbrev pub Str : Type 0
Str = List ℕ

abbrev pub codes : String → Str
codes String.[] = []
codes (String.◌∷◌ c s) = code c ∷ codes s

unfoldable pub str_eq : Str → Str → Bool
str_eq [] [] = true
str_eq [] (y ∷ ys) = false
str_eq (x ∷ xs) [] = false
str_eq (x ∷ xs) (y ∷ ys) = x == y && str_eq xs ys

unfoldable pub str_lt : Str → Str → Bool
str_lt [] [] = false
str_lt [] (y ∷ ys) = true
str_lt (x ∷ xs) [] = false
str_lt (x ∷ xs) (y ∷ ys) = if ltb x y then true else (x == y && str_lt xs ys)

pub str_eq_refl : (s : Str) → str_eq s s ≡ true
unfolding str_eq
str_eq_refl [] = refl
str_eq_refl (x ∷ xs) = ground (arith, str_eq_refl xs)

pub str_eq-eq : (s t : Str) → str_eq s t ≡ true → s ≡ t
unfolding str_eq
str_eq-eq [] [] h = refl
str_eq-eq [] (y ∷ ys) h = cc
str_eq-eq (x ∷ xs) [] h = cc
str_eq-eq (x ∷ xs) (y ∷ ys) h = ground (arith, str_eq-eq xs ys)

pub str_eq_iff : (s t : Str) → (str_eq s t ≡ true) ↔ (s ≡ t)
str_eq_iff s t = (str_eq-eq s t, λ e. subst (λ u. str_eq s u ≡ true) e (str_eq_refl s))

pub str_lt_trans : (a b c : Str) → str_lt a b ≡ true → str_lt b c ≡ true → str_lt a c ≡ true
unfolding str_lt
str_lt_trans [] [] c p q = cc
str_lt_trans [] (y ∷ b) [] p q = cc
str_lt_trans [] (y ∷ b) (z ∷ c) p q = refl
str_lt_trans (x ∷ a) [] c p q = cc
str_lt_trans (x ∷ a) (y ∷ b) [] p q = cc
str_lt_trans (x ∷ a) (y ∷ b) (z ∷ c) p q = ground (arith, str_lt_trans a b c)

-- Of two different keys one is the smaller.
pub str_lt_total : (a b : Str) → str_eq a b ≡ false → str_lt b a ≡ false → str_lt a b ≡ true
unfolding str_lt str_eq
str_lt_total [] [] p q = cc
str_lt_total [] (y ∷ b) p q = refl
str_lt_total (x ∷ a) [] p q = cc
str_lt_total (x ∷ a) (y ∷ b) p q = ground (arith, str_lt_total a b)

pub str_lt_asymm : (a b : Str) → str_lt a b ≡ true → str_lt b a ≡ false
unfolding str_lt
str_lt_asymm [] [] h = cc
str_lt_asymm [] (y ∷ b) h = refl
str_lt_asymm (x ∷ a) [] h = cc
str_lt_asymm (x ∷ a) (y ∷ b) h = ground (arith, str_lt_asymm a b)
