-- ===== src/Prelude/Bytes.antt =====
-- Go strings that the program walks, as lists of ASCII bytes, with the functions of `strings` and
-- `strconv` that it calls on them.
pub mod Trim
use Prim.Native.Char.{code}
use Prim.Native.Nat.{ℕ, ◌+◌, ◌-◌, ◌*◌, ◌^◌, ◌<◌}
use Prim.Native.String.{String}
use mathlib.Core.Bool.{Bool, true, false, ◌&&◌, ◌||◌}
use mathlib.Core.List.{List, [], ◌∷◌, map, reverse, reverse_aux}
use mathlib.Core.Option.{Option, none, some}
use mathlib.Core.Path.{◌≡◌, refl, ap, subst, sym, ◌∙◌}
use mathlib.Core.Logic.{inl, inr}
use native.Mathlib.Omega.{arith}
use lp_indexer.Prelude.Lists.{length, drop, All}
use lp_indexer.Prelude.Tests.{ltb, leb, nat_beq, if◌then◌else◌, Bool-cases}

abbrev pub Bytes : Type 0
Bytes = List ℕ

-- the bytes of an ASCII literal
abbrev pub codes : String → Bytes
codes String.[] = []
codes (String.◌∷◌ c s) = code c ∷ codes s

-- `s == t`
unfoldable pub bytes_beq : Bytes → Bytes → Bool
bytes_beq [] [] = true
bytes_beq (x ∷ xs) (y ∷ ys) = nat_beq x y && bytes_beq xs ys
bytes_beq _ _ = false

-- `strings.HasPrefix(s, prefix)`
unfoldable pub has_prefix : Bytes → Bytes → Bool
has_prefix s [] = true
has_prefix [] (y ∷ ys) = false
has_prefix (x ∷ xs) (y ∷ ys) = nat_beq x y && has_prefix xs ys

-- `strings.TrimPrefix(s, prefix)`
unfoldable pub trim_prefix : Bytes → Bytes → Bytes
unfolding has_prefix
trim_prefix s prefix = if has_prefix s prefix then drop (length prefix) s else s

-- `strings.Contains(s, t)`
unfoldable pub contains : Bytes → Bytes → Bool
unfolding has_prefix
contains [] t = has_prefix [] t
contains (x ∷ xs) t = has_prefix (x ∷ xs) t || contains xs t

abbrev pub is_space : ℕ → Bool
is_space c = nat_beq c 32 || leb 9 c && leb c 13

-- the end of a word, which is kept reversed
end_word : Bytes → List Bytes → List Bytes
end_word [] rest = rest
end_word (c ∷ word) rest = reverse (c ∷ word) ∷ rest

fields_from : Bytes → Bytes → List Bytes
unfolding end_word
fields_from word [] = end_word word []
fields_from word (c ∷ s) = elim (is_space c) [
  | true ↦ end_word word (fields_from [] s)
  | false ↦ fields_from (c ∷ word) s
]

-- `strings.Fields(s)`
unfoldable pub fields : Bytes → List Bytes
unfolding fields_from
fields s = fields_from [] s

trim_left : (ℕ → Bool) → Bytes → Bytes
trim_left cut [] = []
trim_left cut (c ∷ s) = elim (cut c) [ true ↦ trim_left cut s | false ↦ c ∷ s ]

-- `strings.Trim(s, cutset)`
unfoldable pub trim : (ℕ → Bool) → Bytes → Bytes
unfolding trim_left
trim cut s = reverse (trim_left cut (reverse (trim_left cut s)))

All-reverse_aux : (P : ℕ → Type 0) (s t : Bytes) → All P s → All P t → All P (reverse_aux s t)
All-reverse_aux P [] t p q = q
All-reverse_aux P (c ∷ s) t p q = All-reverse_aux P s (c ∷ t) p.1 (p.0, q)

All-trim_left : (P : ℕ → Type 0) (cut : ℕ → Bool) (s : Bytes) → All P s → All P (trim_left cut s)
unfolding trim_left
All-trim_left P cut [] p = p
All-trim_left P cut (c ∷ s) p = elim (Bool-cases (cut c)) [
  | inl gone ↦ rw (gone, All) (All-trim_left P cut s p.1)
  | inr stays ↦ rw (stays, All) p
]

pub All-trim : (P : ℕ → Type 0) (cut : ℕ → Bool) (s : Bytes) → All P s → All P (trim cut s)
unfolding trim
All-trim P cut s p =
    All-reverse_aux P (trim_left cut (reverse (trim_left cut s))) []
      (All-trim_left P cut (reverse (trim_left cut s))
        (All-reverse_aux P (trim_left cut s) [] (All-trim_left P cut s p) tt))
      tt

-- `strings.TrimSpace(s)`
unfoldable pub trim_space : Bytes → Bytes
unfolding trim
trim_space s = trim is_space s

-- `strings.ToLower(s)`
unfoldable pub to_lower : Bytes → Bytes
to_lower s = map (λ c. if leb b'A' c && leb c b'Z' then c + 32 else c) s

-- The number that a run of decimal digits stands for, after the number read so far.
unfoldable pub digits_from : ℕ → Bytes → Option ℕ
digits_from n [] = some n
digits_from n (c ∷ s) =
    let rest = digits_from (n * 10 + (c - b'0')) s in
    if leb b'0' c && leb c b'9' then rest else none

abbrev below_u64 : Option ℕ → Option ℕ
below_u64 none = none
below_u64 (some n) = if ltb n (2 ^ 64) then some n else none

-- `strconv.ParseUint(s, 10, 64)`, where `none` is either of its errors
unfoldable pub parse_uint : Bytes → Option ℕ
unfolding digits_from
parse_uint [] = none
parse_uint (c ∷ s) = below_u64 (digits_from 0 (c ∷ s))

-- A number that `ParseUint` returns is a `uint64`.
pub parse_uint-lt : (s : Bytes) {n : ℕ} → parse_uint s ≡ some n → n < 2 ^ 64
unfolding parse_uint
parse_uint-lt [] h = ground arith
parse_uint-lt (c ∷ s) h = ground arith

fields_test :
    map (trim (λ c. nat_beq c b',')) (fields (codes " a,  bc, d"))
    ≡ codes "a" ∷ codes "bc" ∷ codes "d" ∷ []
unfolding fields trim
fields_test = refl

parse_uint_test : parse_uint (codes "18446744073709551616") ≡ none
unfolding parse_uint
parse_uint_test = refl
