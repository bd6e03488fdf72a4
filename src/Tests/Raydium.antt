-- ===== src/Tests/Raydium.antt =====
-- decoder/raydium: a swap of SOL for USDC.
use lp_indexer.Prelude.{
  ℕ, ◌/◌, ◌*◌, ◌^◌, ◌==◌, nat_eq, ◌≡◌, ◌++◌, refl, true, [], ◌∷◌, some, ok, arith, inl,
}
use lp_indexer.Prelude.Maps.{lookup}
use lp_indexer.Amounts.{Floats}
use lp_indexer.Canonical.Pair.{
  CanonicalPair, initial, resolve_pair, resolve_token_symbol, get_quote_priority,
}
use lp_indexer.Raydium.Instruction.{SwapInstruction, parse_swap_instruction}
use lp_indexer.Raydium.Instruction.RoundTrip.{encode, parse_swap_instruction-encode}
use lp_indexer.Raydium.Swap.{SwapContext, SwapEvent, parse_swap_event, normalize_to_canonical_pair}
use lp_indexer.Raydium.Swap.Direction.{Moves, parse_swap_event_total}

abbrev instruction : SwapInstruction
instruction = record {
  discriminator = 1 ∷ 2 ∷ 3 ∷ 4 ∷ 5 ∷ 6 ∷ 7 ∷ 8 ∷ [];
  amount = 1000;
  other_amount_threshold = 900;
  sqrt_price_limit_low = 5;
  sqrt_price_limit_high = 6;
  is_base_input = true;
}

parse_swap_instruction-encode_example :
    parse_swap_instruction (encode instruction ++ 9 ∷ []) ≡ ok instruction
parse_swap_instruction-encode_example =
    parse_swap_instruction-encode instruction (9 ∷ []) (omega arith)

abbrev context : SwapContext
context = record {
  accounts = record {
    pool_address = "pool";
    token_vault_a = "";
    token_vault_b = "";
    mint_a = "EPjFWdd5AufqSSqeM2qN1xzybapC8G4wEGGkZwyTDt1v";
    mint_b = "So11111111111111111111111111111111111111112";
    user_token_a = "";
    user_token_b = "";
    tick_array_lower = "";
    tick_array_upper = "";
    observation_key = "";
  };
  pre_token_a = 100;
  post_token_a = 150;
  pre_token_b = 80;
  post_token_b = 50;
  decimals_a = 6;
  decimals_b = 9;
  fee_bps = 0;
  slot = 7;
  signature = "sig";
  timestamp = 0;
}

abbrev event : SwapEvent
event = record {
  pool_address = "pool";
  mint_a = "EPjFWdd5AufqSSqeM2qN1xzybapC8G4wEGGkZwyTDt1v";
  mint_b = "So11111111111111111111111111111111111111112";
  decimals_a = 6;
  decimals_b = 9;
  amount_in = 50;
  amount_out = 30;
  fee_bps = 0;
  sqrt_price_x64_low = 5;
  sqrt_price_x64_high = 6;
  is_base_input = true;
  slot = 7;
  signature = "sig";
  timestamp = 0;
}

parsed : parse_swap_event (some instruction) (some context) ≡ ok event
unfolding parse_swap_event
parsed = refl

parse_swap_event_total_example :
    (e : SwapEvent) × (parse_swap_event (some instruction) (some context) ≡ ok e) × Moves context e
parse_swap_event_total_example =
    parse_swap_event_total instruction context (omega arith) (inl (omega arith, omega arith))

abbrev pair : CanonicalPair
pair = record {
  base_token = "SOL";
  base_mint = "So11111111111111111111111111111111111111112";
  quote_token = "USDC";
  quote_mint = "EPjFWdd5AufqSSqeM2qN1xzybapC8G4wEGGkZwyTDt1v";
  inverted = true;
}

normalizes : (normalize_to_canonical_pair initial event).0 ≡ ok pair
unfolding normalize_to_canonical_pair resolve_pair resolve_token_symbol get_quote_priority lookup
normalizes = refl

-- fractions, as pairs of a numerator and a denominator
abbrev fractions : Floats
fractions = record {
  Float = ℕ × ℕ;
  of_ℕ = λ n. (n, 1);
  to_ℕ = λ x. x.0 / x.1;
  pow10 = λ n. (10 ^ n, 1);
  mul = λ x y. (x.0 * y.0, x.1 * y.1);
  div = λ x y. (x.0 * y.1, x.1 * y.0);
  is_zero = λ x. x.0 == 0;
}
