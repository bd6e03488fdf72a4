-- ===== src/Tests/Orcas.antt =====
-- decoder/orca_whirlpool: a swap of SOL for USDC.
use lp_indexer.Amounts
use lp_indexer.Prelude.{
  ℕ, ◌+◌, ◌*◌, ◌/◌, ◌^◌, ◌≤◌, ◌==◌, nat_eq, ◌≡◌, ◌↔◌, refl, ◌++◌, true, false, String, [], ◌∷◌,
  some, ok, arith,
}
use lp_indexer.Prelude.Int.{ℤ, pos, negsuc}
use lp_indexer.Prelude.Maps.{lookup, insert}
use lp_indexer.Prelude.Bytes.{codes, digits_from}
use lp_indexer.Prelude.Decimal.{to_decimal, decimal_loop}
use lp_indexer.Prelude.Words.{le_bytes, le_word, u64_mod}
use lp_indexer.Amounts.{Floats}
use lp_indexer.Canonical.Metadata
use lp_indexer.Canonical.Metadata.{
  get_mint_metadata, get_decimals, get_priority, determine_base_quote,
}
use lp_indexer.Orca.Instruction.{
  swap_instruction_discriminator, zeros, pad_16, u128_text, bytes_to_u128_string, read_instruction,
  decode_swap_instruction, calculate_amounts, calculate_fee_amount, calculate_protocol_fee,
}
use lp_indexer.Orca.Instruction.RoundTrip.{layout, instruction, decode_swap_instruction-layout}
use lp_indexer.Orca.Instruction.Texts.{u128_text_lem}
use lp_indexer.Orca.Instruction.Fees.{calculate_protocol_fee-le}
use lp_indexer.Orca.Swap.{
  Swap, SwapEvent, WhirlpoolState, BigFloats, set_string, or_error, sqrt_price_q64_to_float,
  volumes, build_event, check_discriminator, pool_account, finish_swap, decode_swap_transaction,
}

-- fractions, as pairs of a numerator and a denominator
abbrev fractions : Floats
fractions = record {
  Float = ℕ × ℕ;
  of_ℕ = λ n. (n, 1);
  to_ℕ = λ x. x.0 / x.1;
  pow10 = λ n. (10 ^ n, 1);
  mul = λ x y. (x.0 * y.0, x.1 * y.1);
  div = λ x y. (x.0 * y.1, x.1 * y.0);
  is_zero = λ x. x.0 == 0;
}

abbrev to_fraction : ℤ → ℕ × ℕ
to_fraction (pos n) = (n, 1)
to_fraction (negsuc n) = (0, 1)

abbrev big : BigFloats (ℕ × ℕ)
big = record {
  Big = ℕ × ℕ;
  set_int = to_fraction;
  quo = fractions.div;
  big_mul = fractions.mul;
  float64 = λ x. x;
}

abbrev sol : String
sol = "So11111111111111111111111111111111111111112"

abbrev usdc : String
usdc = "EPjFWdd5AufqSSqeM2qN1xzybapC8G4wEGGkZwyTDt1v"

abbrev state : WhirlpoolState
state = record {
  token_mint_a = sol;
  token_mint_b = usdc;
  sqrt_price = codes "36893488147419103232";
  tick_current_index = negsuc 4;
  liquidity = codes "1";
  fee_rate = 30;
  protocol_fee_rate = 300;
}

abbrev swap : Swap
swap = record {
  signature = "sig";
  slot = 7;
  timestamp = 0;
  instruction_data = le_bytes 8 swap_instruction_discriminator ++ layout 20000 0 5 0 true true;
  accounts = "program" ∷ "authority" ∷ "pool" ∷ [];
  pre_balances = 0 ∷ 0 ∷ 0 ∷ 50000 ∷ 0 ∷ 10 ∷ 0 ∷ [];
  post_balances = 0 ∷ 0 ∷ 0 ∷ 30000 ∷ 0 ∷ 90 ∷ 0 ∷ [];
  pool_state_pre = some state;
  pool_state_post = some state;
}

abbrev event : SwapEvent (ℕ × ℕ)
event = record {
  signature = "sig";
  slot = 7;
  timestamp = 0;
  pool_address = "pool";
  mint_a = sol;
  mint_b = usdc;
  a_to_b = true;
  amount_in = 20000;
  amount_out = 80;
  sqrt_price_q64_pre = codes "36893488147419103232";
  sqrt_price_q64_post = codes "36893488147419103232";
  tick_index_pre = negsuc 4;
  tick_index_post = negsuc 4;
  liquidity_pre = codes "1";
  liquidity_post = codes "1";
  fee_amount = 60;
  protocol_fee = 1;
  price = (36893488147419103232 * 36893488147419103232, u64_mod * u64_mod);
  volume_base = (20000, 10 ^ 9);
  volume_quote = (80, 10 ^ 6);
  base_asset = sol;
  quote_asset = usdc;
}

program : Unit {0}
unfolding Amounts.scale_amount layout le_bytes le_word lookup insert digits_from to_decimal
    decimal_loop Metadata.new get_mint_metadata get_decimals get_priority determine_base_quote
    u128_text bytes_to_u128_string read_instruction decode_swap_instruction calculate_amounts
    calculate_fee_amount calculate_protocol_fee set_string or_error sqrt_price_q64_to_float volumes
    build_event check_discriminator pool_account finish_swap decode_swap_transaction
program = tt

decode_swap_instruction-layout_example :
    decode_swap_instruction (layout 1 2 3 4 true false ++ 9 ∷ [])
    ≡ ok (instruction 1 2 3 4 true false)
decode_swap_instruction-layout_example =
    decode_swap_instruction-layout 1 2 3 4 (9 ∷ []) (omega arith) (omega arith) (omega arith)
      (omega arith) true false

-- the text of 2^64 + 7
wrong_text : u128_text 7 1 ≡ codes "10000000000000007"
unfolding program u128_text pad_16 zeros
wrong_text = refl

u128_text_lem_example : (digits_from 0 (u128_text 7 1) ≡ some (7 + u64_mod * 1)) ↔ (◌≡◌ {A = ℕ} 1 0)
u128_text_lem_example = u128_text_lem 7 1

calculate_protocol_fee-le_example :
    (calculate_protocol_fee (calculate_fee_amount 20000 30) 300 ≤ calculate_fee_amount 20000 30)
    × (calculate_fee_amount 20000 30 ≤ 20000)
calculate_protocol_fee-le_example =
    calculate_protocol_fee-le 20000 30 300 (omega arith) (omega arith)
