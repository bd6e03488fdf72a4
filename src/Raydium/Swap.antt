-- ===== src/Raydium/Swap.antt =====
-- decoder/raydium/parser.go: swap events. `int64` differences of vault balances are bit patterns.
pub mod Direction
pub mod Normalize
use lp_indexer.Prelude.{
  ℕ, Bool, true, false, not, String, Option, some, none, Result, ok, err, ◌==◌, nat_eq, ◌&&◌,
  if◌then◌else◌, wrap_err,
}
use lp_indexer.Prelude.Words.{delta64, is_positive, is_negative, neg64}
use lp_indexer.Amounts.{Floats, scale_amount}
use lp_indexer.Canonical.Pair.{Registry, CanonicalPair, PairError, resolve_pair}
use lp_indexer.Raydium.Instruction.{SwapInstruction}

-- `AccountKeys`
pub record AccountKeys : Type 0 where
  pub pool_address : String
  pub token_vault_a : String
  pub token_vault_b : String
  pub mint_a : String
  pub mint_b : String
  pub user_token_a : String
  pub user_token_b : String
  pub tick_array_lower : String
  pub tick_array_upper : String
  pub observation_key : String

-- `SwapContext`; `int64` timestamps are bit patterns
pub record SwapContext : Type 0 where
  pub accounts : AccountKeys
  pub pre_token_a : ℕ
  pub post_token_a : ℕ
  pub pre_token_b : ℕ
  pub post_token_b : ℕ
  pub decimals_a : ℕ
  pub decimals_b : ℕ
  pub fee_bps : ℕ
  pub slot : ℕ
  pub signature : String
  pub timestamp : ℕ

-- `SwapEvent`
pub record SwapEvent : Type 0 where
  pub pool_address : String
  pub mint_a : String
  pub mint_b : String
  pub decimals_a : ℕ
  pub decimals_b : ℕ
  pub amount_in : ℕ
  pub amount_out : ℕ
  pub fee_bps : ℕ
  pub sqrt_price_x64_low : ℕ
  pub sqrt_price_x64_high : ℕ
  pub is_base_input : Bool
  pub slot : ℕ
  pub signature : String
  pub timestamp : ℕ

-- the errors of `ParseSwapEvent`, in the order of its checks
pub data SwapError : Type 0 where
  nil_instruction nil_context : SwapError
  unknown_direction : ℕ → ℕ → SwapError
  zero_amount_in zero_amount_out : SwapError

-- the event before the `switch` on the differences, with its zero amounts
unfoldable pub base_event : SwapInstruction → SwapContext → SwapEvent
base_event instr ctx = record {
  pool_address = ctx.accounts.pool_address;
  mint_a = ctx.accounts.mint_a;
  mint_b = ctx.accounts.mint_b;
  decimals_a = ctx.decimals_a;
  decimals_b = ctx.decimals_b;
  amount_in = 0;
  amount_out = 0;
  fee_bps = ctx.fee_bps;
  sqrt_price_x64_low = instr.sqrt_price_limit_low;
  sqrt_price_x64_high = instr.sqrt_price_limit_high;
  is_base_input = instr.is_base_input;
  slot = ctx.slot;
  signature = ctx.signature;
  timestamp = ctx.timestamp;
}

-- the checks of the amounts at the end
unfoldable pub validate : SwapEvent → Result SwapError SwapEvent
validate event =
    if event.amount_in == 0
    then err zero_amount_in
    else if event.amount_out == 0
    then err zero_amount_out
    else ok event

-- the `switch` on the two differences
unfoldable pub with_direction : ℕ → ℕ → SwapEvent → Result SwapError SwapEvent
unfolding validate
with_direction delta_a delta_b event =
    if is_positive delta_a && is_negative delta_b
    then validate
        (record event { amount_in = delta_a; amount_out = neg64 delta_b; is_base_input = true })
    else if is_negative delta_a && is_positive delta_b
    then validate
        (record event { amount_in = delta_b; amount_out = neg64 delta_a; is_base_input = false })
    else err (unknown_direction delta_a delta_b)

-- `ParseSwapEvent`; a nil pointer is `none`
unfoldable pub parse_swap_event :
    Option SwapInstruction → Option SwapContext → Result SwapError SwapEvent
unfolding base_event with_direction
parse_swap_event none ctx = err nil_instruction
parse_swap_event (some instr) none = err nil_context
parse_swap_event (some instr) (some ctx) =
    with_direction (delta64 ctx.post_token_a ctx.pre_token_a)
      (delta64 ctx.post_token_b ctx.pre_token_b) (base_event instr ctx)

-- `NormalizeToCanonicalPair`: the pair or the error, and the event as the method leaves it
unfoldable pub normalize_to_canonical_pair :
    Registry → SwapEvent → Result PairError CanonicalPair × SwapEvent
normalize_to_canonical_pair reg e = elim (resolve_pair reg e.mint_a e.mint_b) [
  | err x ↦ (err x, e)
  | ok pair ↦ (
    ok pair,
    if pair.inverted
        then record e {
          mint_a = e.mint_b;
          mint_b = e.mint_a;
          decimals_a = e.decimals_b;
          decimals_b = e.decimals_a;
          is_base_input = not e.is_base_input;
        }
        else e,
  )
]

-- `CalculatePrice`
module _ (fl : Floats) where
  open fl use {Float, of_ℕ, div, is_zero}

  unfoldable pub calculate_price : SwapEvent → Float
  calculate_price e =
      let base_amount =
        if e.is_base_input
        then scale_amount fl e.amount_in e.decimals_a
        else scale_amount fl e.amount_out e.decimals_a in
      let quote_amount =
        if e.is_base_input
        then scale_amount fl e.amount_out e.decimals_b
        else scale_amount fl e.amount_in e.decimals_b in
      if is_zero base_amount then of_ℕ 0 else div quote_amount base_amount

-- `CalculateVolume`
unfoldable pub calculate_volume : SwapEvent → ℕ
calculate_volume e = if e.is_base_input then e.amount_out else e.amount_in
