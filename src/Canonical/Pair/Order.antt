-- ===== src/Canonical/Pair/Order.antt =====
-- `ResolvePair` chooses one order for the two mints, whichever comes first in the call.
use lp_indexer.Prelude.{
  not, String, Result, ok, err, ◌≡◌, ◌≢◌, arith, string_eq, ◌⊎◌, if◌then◌else◌, Result-cases, inl,
  inr,
}
use lp_indexer.Prelude.Int.{ltb_ℤ, beq_ℤ}
use lp_indexer.Prelude.Text.{str_le, str_le_flip}
use text.Mathlib.TextEquality.{eq_iff}
use lp_indexer.Prelude.Text.{str_le_antisymm, compare_flip}
use lp_indexer.Canonical.Pair.{
  Registry, CanonicalPair, resolve_pair, PairError, empty_mint, resolve_token_symbol, ltb_ℤ,
  get_quote_priority, false, beq_ℤ, true,
}

-- the flag of a pair for the mints given in the other order
abbrev pub flip : CanonicalPair → CanonicalPair
flip p = record p { inverted = not p.inverted }

abbrev pub flip_result : Result PairError CanonicalPair → Result PairError CanonicalPair
flip_result (ok p) = ok (flip p)
flip_result (err e) = err e

-- With the two mints exchanged `ResolvePair` fails with the same error, or returns the same base and
-- quote, and the opposite `Inverted` flag, for any registry and any two different mints.
pub resolve_pair-flip :
    (reg : Registry) (a b : String)
    → a ≢ b
    → resolve_pair reg b a ≡ flip_result (resolve_pair reg a b)
unfolding resolve_pair
resolve_pair-flip reg a b ne = ground (arith, eq_iff a b, compare_flip a b, str_le_antisymm a b)

-- The pair's legs are the two mints with their symbols, in the call's order unless `Inverted`.
pub record IsOriented (reg : Registry) (a b : String) (p : CanonicalPair) : Type 0 where
  pub base : p.base_mint ≡ (if p.inverted then b else a)
  pub quote : p.quote_mint ≡ (if p.inverted then a else b)
  pub base_symbol : p.base_token ≡ resolve_token_symbol reg p.base_mint
  pub quote_symbol : p.quote_token ≡ resolve_token_symbol reg p.quote_mint
  pub priority :
      ltb_ℤ (get_quote_priority reg p.quote_token) (get_quote_priority reg p.base_token) ≡ false
  pub tie :
      beq_ℤ (get_quote_priority reg p.base_token) (get_quote_priority reg p.quote_token) ≡ true
      → str_le p.base_mint p.quote_mint ≡ true

module _ (reg : Registry) (a b : String) where
  ok-IsOriented : {p : CanonicalPair} → resolve_pair reg a b ≡ ok p → IsOriented reg a b p
  unfolding resolve_pair
  ok-IsOriented h = ground (arith, str_le_flip a b)

  ok-ne-empty : {p : CanonicalPair} → resolve_pair reg a b ≡ ok p → (a ≢ "") × (b ≢ "")
  unfolding resolve_pair
  ok-ne-empty h = ground (arith, eq_iff a "", eq_iff b "")

  err-empty :
      {e : PairError}
      → resolve_pair reg a b ≡ err e
      → (resolve_pair reg a b ≡ err empty_mint) × ((a ≡ "") ⊎ (b ≡ ""))
  unfolding resolve_pair
  err-empty h = ground (arith, eq_iff a "", eq_iff b "")

-- `ResolvePair` fails exactly where a mint is empty. Otherwise the pair's legs are the two mints, each
-- with its own symbol, exchanged exactly where `Inverted` says so; the quote's priority is at least
-- the base's, and at equal priorities the base's mint is not after the quote's.
pub resolve_pair-IsOriented :
    (reg : Registry) (a b : String)
    → (resolve_pair reg a b ≡ err empty_mint) × ((a ≡ "") ⊎ (b ≡ ""))
      ⊎ ((p : CanonicalPair) × (resolve_pair reg a b ≡ ok p)
          × (a ≢ "")
          × (b ≢ "")
          × IsOriented reg a b p)
resolve_pair-IsOriented reg a b = elim (Result-cases (resolve_pair reg a b)) [
  | inl (p, h) ↦
      let (ne_a, ne_b) = ok-ne-empty reg a b h in inr (p, h, ne_a, ne_b, ok-IsOriented reg a b h)
  | inr (e, h) ↦ inl (err-empty reg a b h)
]
