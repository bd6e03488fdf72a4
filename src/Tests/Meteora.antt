-- ===== src/Tests/Meteora.antt =====
-- decoder/meteora: a swap of SOL for USDC, with a log line.
use lp_indexer.Prelude.{ℕ, ◌≡◌, refl, [], ◌∷◌, some, ok, String, Bool}
use lp_indexer.Prelude.Maps.{lookup}
use lp_indexer.Prelude.Bytes.{
  Bytes, codes, parse_uint, has_prefix, trim_prefix, contains, fields, trim, to_lower, bytes_beq,
}
use lp_indexer.Yellowstone.{TokenBalance}
use lp_indexer.Canonical.Pair.{initial, resolve_pair, resolve_token_symbol, get_quote_priority}
use lp_indexer.Meteora.Types.{
  SwapEvent, InstructionContext, dlmm, program_kinds, program_kind_for_id,
}
use lp_indexer.Meteora.Balances.{
  TokenBalanceDelta, outgoing, incoming, find_token_balance, extract_balance, pick_non_empty,
  pick_decimals, join_balances, balance_or_missing, balance_for_account, delta_decimals,
  snapshot_decimals, decimals_for_mint,
}
use lp_indexer.Meteora.Logs.{
  tokenize, extract_uint, extract_prefixed, extract_reserves, reserve_loop, reserve_token,
  apply_line, apply_log_metadata,
}
use lp_indexer.Meteora.Decoder.{
  account_index, resolve_account, orient, new_event, finish_event, decode_pair, decode_balances,
  check_accounts, decode_swap_event,
}
use lp_indexer.Meteora.Amounts.{IsSwap, decode_swap_event-IsSwap}

abbrev balance : ℕ → String → Bytes → ℕ → TokenBalance
balance index mint amount decimals = record {
  account_index = index;
  mint = mint;
  owner = "pool";
  ui_token_amount = some (record { amount = amount; decimals = decimals });
}

abbrev sol : String
sol = "So11111111111111111111111111111111111111112"

abbrev usdc : String
usdc = "EPjFWdd5AufqSSqeM2qN1xzybapC8G4wEGGkZwyTDt1v"

abbrev context : InstructionContext
context = record {
  slot = 7;
  signature = "sig";
  logs = codes "Program log: fee_bps=25 virtual_reserves base=1000, quote=2000" ∷ [];
  accounts = "user" ∷ "pool" ∷ "in" ∷ "out" ∷ [];
  instruction_accounts = 0 ∷ 1 ∷ 2 ∷ 3 ∷ 0 ∷ 0 ∷ 0 ∷ 0 ∷ [];
  pre_token_balances = balance 2 sol (codes "500") 9 ∷ balance 3 usdc (codes "10") 6 ∷ [];
  post_token_balances = balance 2 sol (codes "200") 9 ∷ balance 3 usdc (codes "70") 6 ∷ [];
  program_id = "Eo7WjKq67rjJQSZxS6z3YkapzY3eMj6Xy8X5EQVn5UaB";
  kind = dlmm;
  timestamp = 1700000000;
}

-- the event that the context decodes to
abbrev event : SwapEvent
event = record {
  signature = "sig";
  slot = 7;
  timestamp = 1700000000;
  program_id = "Eo7WjKq67rjJQSZxS6z3YkapzY3eMj6Xy8X5EQVn5UaB";
  pool = "pool";
  kind = dlmm;
  base_mint = sol;
  quote_mint = usdc;
  base_dec = 9;
  quote_dec = 6;
  base_amount = 300;
  quote_amount = 60;
  fee_bps = 25;
  virtual_reserves_base = 1000;
  virtual_reserves_quote = 2000;
  real_reserves_base = 0;
  real_reserves_quote = 0;
  mint_base = sol;
  mint_quote = usdc;
  dec_base = 9;
  dec_quote = 6;
  base_decreased = Bool.false;
}

program : Unit {0}
unfolding lookup parse_uint has_prefix trim_prefix contains fields trim to_lower bytes_beq
    resolve_pair resolve_token_symbol get_quote_priority outgoing incoming find_token_balance
    extract_balance pick_non_empty pick_decimals join_balances balance_or_missing
    balance_for_account delta_decimals snapshot_decimals decimals_for_mint tokenize extract_uint
    extract_prefixed extract_reserves reserve_loop reserve_token apply_line apply_log_metadata
    resolve_account orient new_event finish_event decode_pair decode_balances check_accounts
    decode_swap_event program_kind_for_id
program = tt

decoded : decode_swap_event initial (some context) ≡ ok event
unfolding program
decoded = refl

dlmm_program :
    program_kind_for_id program_kinds "Eo7WjKq67rjJQSZxS6z3YkapzY3eMj6Xy8X5EQVn5UaB" ≡ some dlmm
unfolding program
dlmm_program = refl

decode_swap_event-IsSwap_example :
    (input output : TokenBalanceDelta) × (balance_for_account context (account_index context 2)
      ≡ ok input)
    × (balance_for_account context (account_index context 3) ≡ ok output)
    × IsSwap input output event
decode_swap_event-IsSwap_example = decode_swap_event-IsSwap initial context decoded
