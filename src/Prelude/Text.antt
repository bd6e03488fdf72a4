-- ===== src/Prelude/Text.antt =====
-- The order of Go's strings, which compares bytes; on UTF-8 it is the order of code points.
use Prim.Native.Char.{code}
use Prim.Native.Nat.{ℕ, compare as compare_ℕ, Ordering}
use Prim.Native.String.compare
use Prim.Native.String.{String, compare, then}
use mathlib.Core.Bool.{Bool, true, false}
use mathlib.Core.Logic.{◌⊎◌, inl, inr}
use mathlib.Core.Path.{◌≡◌, refl, sym, ◌∙◌, ap, ap₂}
use native.Mathlib.Omega.{arith}
use text.Mathlib.Text.{is_le}
use text.Mathlib.TextEquality.{path_by_compare}

-- `s <= t`
abbrev pub str_le : String → String → Bool
str_le s t = is_le (compare s t)

abbrev opposite : Ordering → Ordering
opposite Ordering.lt = Ordering.gt
opposite Ordering.eq = Ordering.eq
opposite Ordering.gt = Ordering.lt

compare_opposite : (m n : ℕ) → compare_ℕ m n ≡ opposite (compare_ℕ n m)
compare_opposite m n = ground arith

then-opposite : (o p : Ordering) → then (opposite o) (opposite p) ≡ opposite (then o p)
then-opposite Ordering.lt p = refl
then-opposite Ordering.eq p = refl
then-opposite Ordering.gt p = refl

pub compare_flip : (s t : String) → compare s t ≡ opposite (compare t s)
compare_flip String.[] String.[] = compare.nil-nil ∙ ap opposite (sym compare.nil-nil)
compare_flip String.[] (String.◌∷◌ d t) =
    compare.nil-cons d t ∙ ap opposite (sym (compare.cons-nil d t))
compare_flip (String.◌∷◌ c s) String.[] =
    compare.cons-nil c s ∙ ap opposite (sym (compare.nil-cons c s))
compare_flip (String.◌∷◌ c s) (String.◌∷◌ d t) =
    compare.cons-cons c d s t
    ∙ ap₂ then (compare_opposite (code c) (code d)) (compare_flip s t)
    ∙ then-opposite (compare_ℕ (code d) (code c)) (compare t s)
    ∙ ap opposite (sym (compare.cons-cons d c t s))

le_cases : (o : Ordering) → (is_le o ≡ true) ⊎ (is_le (opposite o) ≡ true)
le_cases Ordering.lt = inl refl
le_cases Ordering.eq = inl refl
le_cases Ordering.gt = inr refl

eq_of_le : (o : Ordering) → is_le o ≡ true → is_le (opposite o) ≡ true → o ≡ Ordering.eq
eq_of_le o h k = ground arith

-- The order of strings is total and antisymmetric.
pub str_le_antisymm : (s t : String) → str_le s t ≡ true → str_le t s ≡ true → s ≡ t
str_le_antisymm s t h k =
    path_by_compare s t (eq_of_le (compare s t) h (ap is_le (sym (compare_flip t s)) ∙ k))

pub str_le_flip : (s t : String) → str_le s t ≡ false → str_le t s ≡ true
str_le_flip s t h = ground (arith, compare_flip s t)
