-- ===== src/Orca/Instruction/Texts.antt =====
-- The text of a 128-bit number is right exactly where its high half is 0.
use native.Mathlib.Nat.{eq_of_mul-eq-mul_left}
use lp_indexer.Prelude.{
  ◌-◌, leb, ◌&&◌, ℕ, zero, suc, ◌+◌, ◌*◌, ◌≡◌, ◌≢◌, refl, ◌∙◌, ap, ◌↔◌, true, false, some, [], ◌∷◌,
  ◌++◌, arith, All, length, ◌==◌, nat_eq, Bool-cases, inl, inr, sym, All-append,
}
use lp_indexer.Prelude.Bytes.{Bytes, digits_from}
use lp_indexer.Prelude.Words.{u64_mod}
use lp_indexer.Prelude.Decimal.{to_decimal, IsDigit, digits_from-to_decimal, to_decimal-IsDigit}
use lp_indexer.Orca.Instruction.{u128_text, pad_16, zeros}

-- ten to the power of a text's length
abbrev shift : Bytes → ℕ
shift [] = 1
shift (c ∷ s) = 10 * shift s

shift-not_2_64 : (s : Bytes) → shift s ≢ u64_mod
shift-not_2_64 [] h = absurd (omega arith)
shift-not_2_64 (c ∷ s) h = absurd (omega arith)

-- the number that digits stand for
abbrev value : Bytes → ℕ
value [] = 0
value (c ∷ s) = (c - b'0') * shift s + value s

-- reading digits after a number shifts it
digits_from-shift :
    (s : Bytes) (acc : ℕ) → All IsDigit s → digits_from acc s ≡ some (acc * shift s + value s)
unfolding digits_from
digits_from-shift [] acc all = ap some (omega arith)
digits_from-shift (c ∷ s) acc all =
    let digit : (leb b'0' c && leb c b'9') ≡ true = ground arith in
    rw digit (digits_from-shift s (acc * 10 + (c - b'0')) all.1 ∙ ap some (grind arith))

digits_from-value : (s : Bytes) → All IsDigit s → digits_from 0 s ≡ some (value s)
digits_from-value s all = digits_from-shift s 0 all ∙ ap some (omega arith)

zeros-IsDigit : (n : ℕ) → All IsDigit (zeros n)
unfolding zeros
zeros-IsDigit zero = tt
zeros-IsDigit (suc n) = (omega arith, zeros-IsDigit n)

value-zeros : (n : ℕ) (s : Bytes) → value (zeros n ++ s) ≡ value s
unfolding zeros
value-zeros zero s = refl
value-zeros (suc n) s = omega (arith, value-zeros n s)

digits_from-append :
    (a b : Bytes) (acc m : ℕ)
    → digits_from acc a ≡ some m
    → digits_from acc (a ++ b) ≡ digits_from m b
unfolding digits_from
digits_from-append [] b acc m h = ground arith
digits_from-append (c ∷ a) b acc m h =
    ground (arith, digits_from-append a b (acc * 10 + (c - b'0')) m)

value-to_decimal : (n : ℕ) → value (to_decimal n) ≡ n
value-to_decimal n =
    let read = digits_from-to_decimal n in
    let same = digits_from-value (to_decimal n) (to_decimal-IsDigit n) in
    let both : some (value (to_decimal n)) ≡ some n = sym same ∙ read in cc

-- what the text of two halves reads as, where the high one is not 0
padded : ℕ → Bytes
padded low = pad_16 (to_decimal low)

padded-IsDigit : (low : ℕ) → All IsDigit (padded low)
unfolding padded pad_16
padded-IsDigit low =
    All-append IsDigit (zeros (16 - length (to_decimal low))) (to_decimal low)
      (zeros-IsDigit (16 - length (to_decimal low))) (to_decimal-IsDigit low)

value-padded : (low : ℕ) → value (padded low) ≡ low
unfolding padded pad_16
value-padded low =
    value-zeros (16 - length (to_decimal low)) (to_decimal low) ∙ value-to_decimal low

digits_from-two :
    (low high : ℕ)
    → digits_from 0 (to_decimal high ++ padded low) ≡ some (high * shift (padded low) + low)
digits_from-two low high =
    digits_from-append (to_decimal high) (padded low) 0 high (digits_from-to_decimal high)
    ∙ digits_from-shift (padded low) high (padded-IsDigit low)
    ∙ ap (λ v. some (high * shift (padded low) + v)) (value-padded low)

text-small : (low high : ℕ) → high ≡ 0 → u128_text low high ≡ to_decimal low
unfolding u128_text
text-small low high h = let zero_high : (high == 0) ≡ true = ground arith in rw zero_high refl

text-large : (low high : ℕ) → high ≢ 0 → u128_text low high ≡ to_decimal high ++ padded low
unfolding u128_text padded
text-large low high h = let some_high : (high == 0) ≡ false = ground arith in rw some_high refl

-- A text of the decoder reads as the 128-bit number of its halves exactly where the high half is 0.
pub u128_text_lem :
    (low high : ℕ) → (digits_from 0 (u128_text low high) ≡ some (low + u64_mod * high)) ↔ (high ≡ 0)
u128_text_lem low high = (
  λ h. elim (Bool-cases (high == 0)) [
    | inl is_zero ↦ ground arith
    | inr not_zero ↦
        let large : high ≢ 0 = ground arith in
        let both : some (high * shift (padded low) + low) ≡ some (low + u64_mod * high) =
          sym (ap (digits_from 0) (text-large low high large) ∙ digits_from-two low high) ∙ h in
        let sums : high * shift (padded low) + low ≡ low + u64_mod * high = cc in
        let products : high * shift (padded low) ≡ high * u64_mod = omega (arith, sums) in
        absurd (
          shift-not_2_64 (padded low)
            (eq_of_mul-eq-mul_left high (omega arith) (shift (padded low)) u64_mod products))
  ],
  λ h.
      ap (digits_from 0) (text-small low high h)
      ∙ digits_from-to_decimal low
      ∙ ap some (omega arith),
)
