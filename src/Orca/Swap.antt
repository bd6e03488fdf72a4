-- ===== src/Orca/Swap.antt =====
-- decoder/orca_whirlpool/decoder.go, `DecodeSwapTransaction`, with decoder/common/fixed_point.go,
-- `SqrtPriceQ64ToFloat`. `big.Float` is a parameter as `float64` is.
pub mod Laws
use lp_indexer.Prelude.{
  ℕ, zero, suc, ◌^◌, Bool, true, false, String, Option, none, some, List, [], ◌∷◌, Result, ok, err,
  ◌>>=◌, ◌>>◌, wrap_err, ltb, ◌==◌, nat_eq, string_eq, length, slice, drop, get_elem?,
  if◌then◌else◌,
}
use lp_indexer.Prelude.Bytes.{Bytes, digits_from}
use lp_indexer.Prelude.Int.{ℤ, pos, negsuc}
use lp_indexer.Prelude.Words.{le_word}
use lp_indexer.Amounts.{Floats, scale_amount}
use lp_indexer.Canonical.Metadata.{MintMetadataProvider, MetadataError, determine_base_quote}
use lp_indexer.Orca.Instruction.{
  SwapInstruction, InstructionError, swap_instruction_discriminator, decode_swap_instruction,
  calculate_amounts, calculate_fee_amount, calculate_protocol_fee,
}

-- `WhirlpoolState`, as far as the decoder reads it; ticks are signed
pub record WhirlpoolState : Type 0 where
  pub token_mint_a : String
  pub token_mint_b : String
  pub sqrt_price : Bytes
  pub tick_current_index : ℤ
  pub liquidity : Bytes
  pub fee_rate : ℕ
  pub protocol_fee_rate : ℕ

-- `SwapEvent`, over a type of floats
pub record SwapEvent (Float : Type 0) : Type 0 where
  pub signature : String
  pub slot : ℕ
  pub timestamp : ℕ
  pub pool_address : String
  pub mint_a : String
  pub mint_b : String
  pub a_to_b : Bool
  pub amount_in : ℕ
  pub amount_out : ℕ
  pub sqrt_price_q64_pre : Bytes
  pub sqrt_price_q64_post : Bytes
  pub tick_index_pre : ℤ
  pub tick_index_post : ℤ
  pub liquidity_pre : Bytes
  pub liquidity_post : Bytes
  pub fee_amount : ℕ
  pub protocol_fee : ℕ
  pub price : Float
  pub volume_base : Float
  pub volume_quote : Float
  pub base_asset : String
  pub quote_asset : String

-- the errors of `DecodeSwapTransaction`, in the order of its checks
pub data DecodeError : Type 0 where
  data_too_short : DecodeError
  not_a_swap : ℕ → DecodeError
  bad_instruction : InstructionError → DecodeError
  insufficient_accounts pool_state_pre_missing pool_state_post_missing : DecodeError
  insufficient_balances : DecodeError
  decimals_a_failed decimals_b_failed base_quote_failed : MetadataError → DecodeError
  invalid_sqrt_price : Bytes → DecodeError

-- the arguments of `DecodeSwapTransaction`
pub record Swap : Type 0 where
  pub signature : String
  pub slot : ℕ
  pub timestamp : ℕ
  pub instruction_data : Bytes
  pub accounts : List String
  pub pre_balances : List ℕ
  pub post_balances : List ℕ
  pub pool_state_pre : Option WhirlpoolState
  pub pool_state_post : Option WhirlpoolState

-- the operations of `big.Float`
pub record BigFloats (Float : Type 0) : Type 1 where
  pub Big : Type 0
  pub set_int : ℤ → Big
  pub quo : Big → Big → Big
  pub big_mul : Big → Big → Big
  pub float64 : Big → Float

-- `(*big.Int).SetString(s, 10)`: an optional sign and at least one digit
abbrev negated : Option ℕ → Option ℤ
negated none = none
negated (some n) = elim n [ zero ↦ some (pos 0) | suc m ↦ some (negsuc m) ]

abbrev positive : Option ℕ → Option ℤ
positive none = none
positive (some n) = some (pos n)

abbrev digits : Bytes → Option ℕ
digits [] = none
digits (c ∷ s) = digits_from 0 (c ∷ s)

unfoldable pub set_string : Bytes → Option ℤ
set_string [] = none
set_string (c ∷ s) =
    if c == b'-'
    then negated (digits s)
    else if c == b'+'
    then positive (digits s)
    else positive (digits (c ∷ s))

unfoldable pub or_error : {E A : Type 0} → E → Option A → Result E A
or_error e none = err e
or_error e (some a) = ok a

module _ (fl : Floats) (big : BigFloats fl.Float) where
  open fl use {Float, of_ℕ, div}

  -- `SqrtPriceQ64ToFloat`
  abbrev price_of : Option ℤ → Option Float
  price_of none = none
  price_of (some n) =
      let root = big.quo (big.set_int n) (big.set_int (pos (2 ^ 64))) in
      some (big.float64 (big.big_mul root root))

  unfoldable pub sqrt_price_q64_to_float : Bytes → Option Float
  sqrt_price_q64_to_float text = price_of (set_string text)

  -- the branches on the direction and on the base: the volumes of the base and of the quote
  unfoldable pub volumes : Bool → Bool → ℕ → ℕ → ℕ → ℕ → Float × Float
  volumes a_to_b base_is_a amount_in amount_out decimals_a decimals_b =
      if a_to_b
      then (if base_is_a
          then (scale_amount fl amount_in decimals_a, scale_amount fl amount_out decimals_b)
          else (scale_amount fl amount_out decimals_b, scale_amount fl amount_in decimals_a))
      else if base_is_a
      then (scale_amount fl amount_out decimals_a, scale_amount fl amount_in decimals_b)
      else (scale_amount fl amount_in decimals_b, scale_amount fl amount_out decimals_a)

  -- the event, from what has been looked up
  unfoldable pub build_event :
      Swap
      → SwapInstruction
      → String
      → WhirlpoolState
      → WhirlpoolState
      → ℕ × ℕ
      → ℕ × ℕ
      → String × String
      → Float
      → SwapEvent Float
  build_event swap instruction pool pre post (amount_in, amount_out) (decimals_a, decimals_b)
        (base, quote) price_post =
      let base_is_a = base == pre.token_mint_a in
      let volume =
        volumes instruction.a_to_b base_is_a amount_in amount_out decimals_a decimals_b in
      let fee_amount = calculate_fee_amount amount_in pre.fee_rate in
      record {
        signature = swap.signature;
        slot = swap.slot;
        timestamp = swap.timestamp;
        pool_address = pool;
        mint_a = pre.token_mint_a;
        mint_b = pre.token_mint_b;
        a_to_b = instruction.a_to_b;
        amount_in = amount_in;
        amount_out = amount_out;
        sqrt_price_q64_pre = pre.sqrt_price;
        sqrt_price_q64_post = post.sqrt_price;
        tick_index_pre = pre.tick_current_index;
        tick_index_post = post.tick_current_index;
        liquidity_pre = pre.liquidity;
        liquidity_post = post.liquidity;
        fee_amount = fee_amount;
        protocol_fee = calculate_protocol_fee fee_amount pre.protocol_fee_rate;
        price = if base_is_a then price_post else div (of_ℕ 1) price_post;
        volume_base = volume.0;
        volume_quote = volume.1;
        base_asset = base;
        quote_asset = quote;
      }

  -- the two checks of the discriminator
  unfoldable pub check_discriminator : Bytes → Result DecodeError (Unit {0})
  check_discriminator bytes =
      if ltb (length bytes) 8
      then err data_too_short
      else if le_word (slice 0 8 bytes) == swap_instruction_discriminator
      then ok tt
      else err (not_a_swap (le_word (slice 0 8 bytes)))

  -- `accounts[2]` of at least 3
  unfoldable pub pool_account : List String → Result DecodeError String
  pool_account accounts = or_error insufficient_accounts (get_elem? accounts 2)

  -- `DecodeSwapTransaction` from the amounts on
  unfoldable pub finish_swap :
      MintMetadataProvider
      → Swap
      → SwapInstruction
      → String
      → WhirlpoolState
      → WhirlpoolState
      → ℕ × ℕ
      → Result DecodeError (SwapEvent Float)
  finish_swap provider swap instruction pool pre post amounts = do
    decimals_a ← wrap_err decimals_a_failed (provider.get_decimals pre.token_mint_a)
    decimals_b ← wrap_err decimals_b_failed (provider.get_decimals pre.token_mint_b)
    assets ←
        wrap_err base_quote_failed (determine_base_quote pre.token_mint_a pre.token_mint_b provider)
    price_post ←
        or_error (invalid_sqrt_price post.sqrt_price) (sqrt_price_q64_to_float post.sqrt_price)
    ok (
        build_event swap instruction pool pre post amounts (decimals_a, decimals_b) assets
          price_post)

  -- `DecodeSwapTransaction`
  unfoldable pub decode_swap_transaction :
      MintMetadataProvider → Swap → Result DecodeError (SwapEvent Float)
  decode_swap_transaction provider swap = do
    check_discriminator swap.instruction_data
    instruction ← wrap_err bad_instruction (decode_swap_instruction (drop 8 swap.instruction_data))
    pool ← pool_account swap.accounts
    pre ← or_error pool_state_pre_missing swap.pool_state_pre
    post ← or_error pool_state_post_missing swap.pool_state_post
    amounts ←
        or_error insufficient_balances
          (calculate_amounts instruction swap.pre_balances swap.post_balances)
    finish_swap provider swap instruction pool pre post amounts
