-- ===== src/Canonical/Metadata/Order.antt =====
-- `DetermineBaseQuote` does not depend on the order of the two mints, and agrees with `ResolvePair`
-- where the two tables of priorities say the same.
use lp_indexer.Prelude.{String, ◌≡◌, ok, arith}
use text.Mathlib.TextEquality.{eq_iff}
use lp_indexer.Prelude.Int.{pos}
use lp_indexer.Prelude.Text.{compare_flip, str_le_antisymm}
use lp_indexer.Canonical.Pair.{
  Registry, CanonicalPair, resolve_pair, resolve_token_symbol, get_quote_priority,
}
use lp_indexer.Canonical.Metadata.{
  MintMetadata, MintMetadataProvider, get_priority, determine_base_quote,
}

module _ (provider : MintMetadataProvider) (a b : String) {ma mb : MintMetadata}
    (found_a : provider.get_mint_metadata a ≡ ok ma)
    (found_b : provider.get_mint_metadata b ≡ ok mb) where
  -- Where the provider knows both mints, `DetermineBaseQuote` returns the same base and quote for the
  -- mints in either order.
  pub determine_base_quote_comm :
      determine_base_quote a b provider ≡ determine_base_quote b a provider
  unfolding determine_base_quote
  determine_base_quote_comm = ground (arith, eq_iff a b, compare_flip a b, str_le_antisymm a b)

  -- Where the provider knows both mints, and the pair registry gives each the priority that its
  -- symbol has in the metadata's table, the base and the quote of `DetermineBaseQuote` are those of
  -- the pair that `ResolvePair` returns.
  pub determine_base_quote-resolve_pair :
      (reg : Registry) {p : CanonicalPair}
      → get_quote_priority reg (resolve_token_symbol reg a) ≡ pos (get_priority ma.symbol)
      → get_quote_priority reg (resolve_token_symbol reg b) ≡ pos (get_priority mb.symbol)
      → resolve_pair reg a b ≡ ok p
      → determine_base_quote a b provider ≡ ok (p.base_mint, p.quote_mint)
  unfolding determine_base_quote resolve_pair
  determine_base_quote-resolve_pair reg pa pb h = ground arith
