-- ===== src/Tests/Canonical.antt =====
-- decoder/common: the pairs of well-known mints.
use lp_indexer.Prelude.{◌≡◌, ◌≢◌, refl, true, false, String, ok, err, ◌⊎◌}
use lp_indexer.Prelude.Maps.{lookup, insert}
use lp_indexer.Canonical.Pair.{
  CanonicalPair, empty_mint, initial, resolve_pair, resolve_token_symbol, get_quote_priority,
  symbol, is_stablecoin_pair,
}
use lp_indexer.Canonical.Pair.Order.{IsOriented, resolve_pair-IsOriented}
use lp_indexer.Canonical.Metadata
use lp_indexer.Canonical.Metadata.{in_memory, get_mint_metadata, get_priority, determine_base_quote}
use lp_indexer.Canonical.Metadata.Order.{determine_base_quote-resolve_pair}

abbrev sol : String
sol = "So11111111111111111111111111111111111111112"

abbrev usdc : String
usdc = "EPjFWdd5AufqSSqeM2qN1xzybapC8G4wEGGkZwyTDt1v"

abbrev sol_usdc : CanonicalPair
sol_usdc = record {
  base_token = "SOL";
  base_mint = sol;
  quote_token = "USDC";
  quote_mint = usdc;
  inverted = false;
}

program : Unit {0}
unfolding resolve_pair resolve_token_symbol get_quote_priority lookup symbol is_stablecoin_pair
program = tt

usdc_is_quote :
    (resolve_pair initial sol usdc ≡ ok sol_usdc)
    × (resolve_pair initial usdc sol ≡ ok (record sol_usdc { inverted = true }))
unfolding program
usdc_is_quote = (refl, refl)

sol_usdc_symbol : (symbol sol_usdc ≡ "SOL/USDC") × (is_stablecoin_pair sol_usdc ≡ false)
unfolding program
sol_usdc_symbol = (refl, refl)

resolve_pair-IsOriented_example :
    (resolve_pair initial sol usdc ≡ err empty_mint)
      × (◌≡◌ {A = String} sol "" ⊎ ◌≡◌ {A = String} usdc "")
    ⊎ ((p : CanonicalPair) × (resolve_pair initial sol usdc ≡ ok p)
        × ◌≢◌ {A = String} sol ""
        × ◌≢◌ {A = String} usdc ""
        × IsOriented initial sol usdc p)
resolve_pair-IsOriented_example = resolve_pair-IsOriented initial sol usdc

metadata : Unit {0}
unfolding Metadata.new get_mint_metadata get_priority lookup insert program
metadata = tt

determine_base_quote-resolve_pair_example :
    determine_base_quote sol usdc (in_memory Metadata.new) ≡ ok (sol, usdc)
unfolding metadata
determine_base_quote-resolve_pair_example =
    determine_base_quote-resolve_pair (in_memory Metadata.new) sol usdc refl refl initial refl refl
      usdc_is_quote.0
