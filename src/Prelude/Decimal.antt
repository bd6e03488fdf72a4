-- ===== src/Prelude/Decimal.antt =====
-- `%d` of a `uint64`, and texts that a separator takes apart.
use Prim.Native.Nat.{ℕ, zero, suc, ◌+◌, ◌*◌, ◌-◌, ◌/◌, ◌%◌, ◌<◌, ◌≤◌}
use mathlib.Core.Bool.{false}
use mathlib.Core.List.{[], ◌∷◌, ◌++◌}
use mathlib.Core.Option.{some}
use mathlib.Core.Path.{◌≡◌, refl, ap, ◌∙◌}
use mathlib.Core.Logic.{inl, inr}
use native.Mathlib.Omega.{arith}
use lp_indexer.Prelude.Lists.{All, All-append}
use lp_indexer.Prelude.Tests.{ltb, if◌then◌else◌, Bool-cases, tests, ◌==◌, nat_eq}
use lp_indexer.Prelude.Bytes.{Bytes, digits_from}

-- the digits of a number below the fuel
unfoldable pub decimal_loop : ℕ → ℕ → Bytes
decimal_loop zero n = []
decimal_loop (suc fuel) n =
    let front = decimal_loop fuel (n / 10) in
    if ltb n 10 then (b'0' + n) ∷ [] else front ++ (b'0' + n % 10) ∷ []

unfoldable pub to_decimal : ℕ → Bytes
unfolding decimal_loop
to_decimal n = decimal_loop (suc n) n

abbrev pub IsDigit : ℕ → Type 0
IsDigit c = (b'0' ≤ c) × (c ≤ b'9')

decimal_loop-IsDigit : (fuel n : ℕ) → All IsDigit (decimal_loop fuel n)
unfolding decimal_loop
decimal_loop-IsDigit zero n = tt
decimal_loop-IsDigit (suc fuel) n = elim (Bool-cases (ltb n 10)) [
  | inl small ↦ rw small (omega tests, tt)
  | inr large ↦ rw large (
      All-append IsDigit (decimal_loop fuel (n / 10)) ((b'0' + n % 10) ∷ [])
        (decimal_loop-IsDigit fuel (n / 10)) (omega arith, tt))
]

digits_from-append :
    (s : Bytes) (d acc : ℕ) {m : ℕ}
    → d < 10
    → digits_from acc s ≡ some m
    → digits_from acc (s ++ (b'0' + d) ∷ []) ≡ some (m * 10 + d)
unfolding digits_from
digits_from-append [] d acc {m = m} small h = ground arith
digits_from-append (c ∷ s) d acc {m = m} small h =
    ground (arith, digits_from-append s d (acc * 10 + (c - b'0')) {m = m} small)

digits_from-decimal_loop : (fuel n : ℕ) → n < fuel → digits_from 0 (decimal_loop fuel n) ≡ some n
unfolding decimal_loop
digits_from-decimal_loop zero n below = absurd (omega arith)
digits_from-decimal_loop (suc fuel) n below = elim (Bool-cases (ltb n 10)) [
  | inl small ↦ rw small (unfold digits_from in ground arith)
  | inr large ↦ rw large (
      digits_from-append (decimal_loop fuel (n / 10)) (n % 10) 0 (omega arith)
        (digits_from-decimal_loop fuel (n / 10) (ground arith))
      ∙ ap some (omega arith))
]

pub digits_from-to_decimal : (n : ℕ) → digits_from 0 (to_decimal n) ≡ some n
unfolding to_decimal
digits_from-to_decimal n = digits_from-decimal_loop (suc n) n (omega arith)

pub to_decimal-IsDigit : (n : ℕ) → All IsDigit (to_decimal n)
unfolding to_decimal
to_decimal-IsDigit n = decimal_loop-IsDigit (suc n) n

pub to_decimal-injective : (a b : ℕ) → to_decimal a ≡ to_decimal b → a ≡ b
to_decimal-injective a b h =
    let read_a = digits_from-to_decimal a in
    let read_b = digits_from-to_decimal b in
    let same : digits_from 0 (to_decimal a) ≡ digits_from 0 (to_decimal b) = ap (digits_from 0) h in
    cc

-- A text without the separator `:`.
abbrev pub NoColon : Bytes → Type 0
NoColon s = All (λ c. (c == b':') ≡ false) s

digits-NoColon : (s : Bytes) → All IsDigit s → NoColon s
digits-NoColon [] all = tt
digits-NoColon (c ∷ s) all = (ground arith, digits-NoColon s all.1)

pub to_decimal-NoColon : (n : ℕ) → NoColon (to_decimal n)
to_decimal-NoColon n = digits-NoColon (to_decimal n) (to_decimal-IsDigit n)

-- The first separator takes a text apart.
pub append-colon-injective :
    (x x' y y' : Bytes)
    → NoColon x
    → NoColon x'
    → x ++ b':' ∷ y ≡ x' ++ b':' ∷ y'
    → (x ≡ x') × (y ≡ y')
append-colon-injective [] [] y y' n n' h = (refl, cc)
append-colon-injective [] (c ∷ x') y y' n n' h = absurd (ground arith)
append-colon-injective (c ∷ x) [] y y' n n' h = absurd (ground arith)
append-colon-injective (c ∷ x) (c' ∷ x') y y' n n' h =
    let rest : x ++ b':' ∷ y ≡ x' ++ b':' ∷ y' = cc in
    let (same, tails) = append-colon-injective x x' y y' n.1 n'.1 rest in (cc, tails)
