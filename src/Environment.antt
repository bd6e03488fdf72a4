-- ===== src/Environment.antt =====
-- What the program reads of its environment: `os.Getenv` as a function that answers the empty text for a
-- variable that is not set, `strconv.Atoi`, and the durations that are made of its results. An `int` is a
-- whole number, a duration the bit pattern of its `int64`.
use mathlib.Core.Path.{subst}
use lp_indexer.Prelude.{
  ℕ, zero, suc, ◌+◌, ◌-◌, ◌*◌, ◌%◌, ◌^◌, ◌<◌, ◌≡◌, ◌==◌, nat_eq, Bool, true, Option, none, some, [],
  ◌∷◌, Result, ok, ltb, leb, if◌then◌else◌, All, refl, arith, ◌∙◌, ap, sym, ◌/◌, false, Bool-cases,
  inl, inr, ◌++◌, err,
}
use lp_indexer.Prelude.Int.{ℤ, pos, negsuc, ltb_ℤ}
use lp_indexer.Prelude.Bytes.{Bytes, digits_from, parse_uint}
use lp_indexer.Prelude.Decimal.{
  to_decimal, decimal_loop, IsDigit, to_decimal-IsDigit, digits_from-to_decimal,
}
use lp_indexer.Prelude.Words.{u64_mod}

-- `os.Getenv`
abbrev pub Env : Type 0
Env = Bytes → Bytes

-- `s == ""`
abbrev pub is_empty : Bytes → Bool
is_empty [] = true
is_empty (c ∷ s) = false

-- `valueOrDefault`
unfoldable pub value_or_default : Bytes → Bytes → Bytes
value_or_default [] fallback = fallback
value_or_default (c ∷ s) fallback = c ∷ s

-- `if v := os.Getenv(…); v != "" { … }`, which changes a configuration or returns an error
unfoldable pub if_set : {E C : Type 0} → Bytes → (Bytes → C → Result E C) → C → Result E C
if_set [] f c = ok c
if_set (b ∷ v) f c = f (b ∷ v) c

abbrev positive : Option ℕ → Option ℤ
positive none = none
positive (some n) = if ltb n (2 ^ 63) then some (pos n) else none

abbrev negative : Option ℕ → Option ℤ
negative none = none
negative (some zero) = some (pos 0)
negative (some (suc n)) = if ltb n (2 ^ 63) then some (negsuc n) else none

unfoldable pub digits : Bytes → Option ℕ
unfolding digits_from
digits [] = none
digits (c ∷ s) = digits_from 0 (c ∷ s)

-- the errors of a `FromEnv`: a variable that does not parse, by its name, or an error of `Validate`
pub data EnvError (E : Type 0) : Type 0 where
  invalid : Bytes → EnvError E
  refused : E → EnvError E

-- what a variable's text parses to changes the configuration
abbrev pub parsed : {E A C : Type 0} → Bytes → Option A → (A → C) → Result (EnvError E) C
parsed name none f = err (invalid name)
parsed name (some a) f = ok (f a)

-- `return cfg, cfg.Validate()`, where an error counts
abbrev pub validated : {E C : Type 0} → (C → Option E) → C → Result (EnvError E) C
validated validate c = elim (validate c) [ some e ↦ err (refused e) | none ↦ ok c ]

-- `strconv.Atoi`, where `none` is either of its errors
unfoldable pub atoi : Bytes → Option ℤ
unfolding digits
atoi [] = none
atoi (c ∷ s) =
    if c == b'-'
    then negative (digits s)
    else if c == b'+'
    then positive (digits s)
    else positive (digits (c ∷ s))

-- a parsed `int` that is not below a bound
abbrev at_least : ℤ → Option ℤ → Option ℤ
at_least bound none = none
at_least bound (some n) = if ltb_ℤ n bound then none else some n

unfoldable pub int_at_least : ℤ → Bytes → Option ℤ
unfolding atoi
int_at_least bound v = at_least bound (atoi v)

-- `time.Duration(n) * unit`, of a unit in nanoseconds
unfoldable pub duration : ℕ → ℤ → ℕ
duration unit (pos n) = n * unit % u64_mod
duration unit (negsuc n) = (u64_mod - suc n * unit % u64_mod) % u64_mod

abbrev pub millisecond : ℕ
millisecond = 1000000

abbrev pub second : ℕ
second = 1000000000

-- `d <= 0`
abbrev pub not_positive : ℕ → Bool
not_positive d = if d == 0 then true else leb (2 ^ 63) d

-- the texts of numbers are read back
snoc : (front : Bytes) (x : ℕ) → (c : ℕ) × (s : Bytes) × (front ++ x ∷ [] ≡ c ∷ s)
snoc [] x = (x, [], refl)
snoc (c ∷ front) x = (c, front ++ x ∷ [], refl)

first_digit : (n : ℕ) → (c : ℕ) × (s : Bytes) × (to_decimal n ≡ c ∷ s)
unfolding to_decimal decimal_loop
first_digit n = elim (Bool-cases (ltb n 10)) [
  | inl small ↦ (b'0' + n, [], rw small refl)
  | inr large ↦ let (c, s, e) = snoc (decimal_loop n (n / 10)) (b'0' + n % 10) in (c, s, rw large e)
]

pub atoi-to_decimal : (n : ℕ) → n < 2 ^ 63 → atoi (to_decimal n) ≡ some (pos n)
unfolding atoi digits
atoi-to_decimal n small =
    let (c, s, e) = first_digit n in
    let digit : IsDigit c = (subst (All IsDigit) e (to_decimal-IsDigit n)).0 in
    let reads : digits_from 0 (c ∷ s) ≡ some n =
      ap (digits_from 0) (sym e) ∙ digits_from-to_decimal n in
    let minus : (c == b'-') ≡ false = ground arith in
    let plus : (c == b'+') ≡ false = ground arith in
    let below : ltb n (2 ^ 63) ≡ true = ground arith in rw (e, minus, plus, reads, below) refl

pub parse_uint-to_decimal : (n : ℕ) → n < 2 ^ 64 → parse_uint (to_decimal n) ≡ some n
unfolding parse_uint
parse_uint-to_decimal n small =
    let (c, s, e) = first_digit n in
    let reads : digits_from 0 (c ∷ s) ≡ some n =
      ap (digits_from 0) (sym e) ∙ digits_from-to_decimal n in
    let below : ltb n (2 ^ 64) ≡ true = ground arith in rw (e, reads, below) refl

pub if_set-to_decimal :
    {E C : Type 0} (n : ℕ) (f : Bytes → C → Result E C) (c : C)
    → if_set (to_decimal n) f c ≡ f (to_decimal n) c
unfolding if_set
if_set-to_decimal n f c = let (b, s, e) = first_digit n in rw e refl
