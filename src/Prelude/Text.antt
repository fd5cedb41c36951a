-- ===== src/Prelude/Text.antt =====
-- Rust's `str` and `String` as lists of UTF-8 bytes, with the bytewise order of `Ord for str`.
use Prim.Native.Nat.{ℕ, compare, Ordering}
use Prim.Native.Char.{code}
use Prim.Native.String.{String}
use mathlib.Core.Path.{◌≡◌, refl}
use mathlib.Core.Logic.{◌↔◌}
use mathlib.Core.Bool.{Bool, true, false}
use mathlib.Core.List.{List, [], ◌∷◌}
use native.Mathlib.Omega.{arith}

abbrev pub Text : Type 0
Text = List ℕ

-- An ASCII literal as its bytes.
abbrev pub bytes : String → Text
bytes String.[] = []
bytes (String.◌∷◌ c s) = code c ∷ bytes s

unfoldable pub text_compare : Text → Text → Ordering
text_compare [] [] = Ordering.eq
text_compare [] (y ∷ ys) = Ordering.lt
text_compare (x ∷ xs) [] = Ordering.gt
text_compare (x ∷ xs) (y ∷ ys) = elim (compare x y) [
  | Ordering.lt ↦ Ordering.lt
  | Ordering.eq ↦ text_compare xs ys
  | Ordering.gt ↦ Ordering.gt
]

pub text_compare-eq : (a b : Text) → text_compare a b ≡ Ordering.eq → a ≡ b
unfolding text_compare
text_compare-eq [] [] h = refl
text_compare-eq [] (y ∷ ys) h = cc
text_compare-eq (x ∷ xs) [] h = cc
text_compare-eq (x ∷ xs) (y ∷ ys) h = ground (arith, text_compare-eq xs ys)

pub text_compare_self : (a : Text) → text_compare a a ≡ Ordering.eq
unfolding text_compare
text_compare_self [] = refl
text_compare_self (x ∷ xs) = ground (arith, text_compare_self xs)

abbrev pub text_eq : Text → Text → Bool
text_eq a b = elim (text_compare a b) [ Ordering.eq ↦ true | _ ↦ false ]

pub text_eq_refl : (a : Text) → text_eq a a ≡ true
text_eq_refl a = ground (arith, text_compare_self a)

pub text_eq_iff : (a b : Text) → (text_eq a b ≡ true) ↔ (a ≡ b)
text_eq_iff a b = (λ h. text_compare-eq a b (ground arith), λ e. rw e (text_eq_refl b))
