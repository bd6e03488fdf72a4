-- ===== src/Meteora/Decoder.antt =====
-- decoder/meteora/decoder.go, `DecodeSwapEvent`.
use lp_indexer.Prelude.{
  ℕ, Bool, true, false, String, Option, none, some, [], ◌∷◌, Result, ok, err, ◌>>=◌, ◌>>◌, wrap_err,
  ltb, ◌-◌, ◌^◌, ◌==◌, nat_eq, string_eq, ◌&&◌, ◌||◌, length, get_elem?, if◌then◌else◌,
}
use lp_indexer.Canonical.Pair.{Registry, CanonicalPair, PairError, resolve_pair}
use lp_indexer.Meteora.Types.{SwapEvent, InstructionContext}
use lp_indexer.Meteora.Balances.{
  TokenBalanceDelta, BalanceError, outgoing, incoming, balance_for_account, decimals_for_mint,
}
use lp_indexer.Meteora.Logs.{apply_log_metadata}

-- the errors of `DecodeSwapEvent`, in the order of its checks
pub data DecodeError : Type 0 where
  nil_context : DecodeError
  insufficient_accounts : ℕ → DecodeError
  empty_account_list : DecodeError
  missing_account : ℕ → DecodeError
  account_out_of_range : ℕ → ℕ → DecodeError
  input_lookup : BalanceError → DecodeError
  output_lookup : BalanceError → DecodeError
  no_balance_delta : DecodeError
  pair_unresolved : PairError → DecodeError
  zero_sized : ℕ → ℕ → DecodeError

-- the closure `resolveAccount`
unfoldable pub resolve_account : InstructionContext → ℕ → Result DecodeError String
resolve_account ctx pos = elim (get_elem? ctx.instruction_accounts pos) [
  | none ↦ err (missing_account pos)
  | some index ↦ elim (get_elem? ctx.accounts index) [
    | none ↦ err (account_out_of_range index (length ctx.accounts))
    | some account ↦ ok account
  ]
]

-- `ctx.InstructionAccounts[pos]`, behind the check of its length
abbrev pub account_index : InstructionContext → ℕ → ℕ
account_index ctx pos = elim (get_elem? ctx.instruction_accounts pos) [
  | none ↦ 0
  | some index ↦ index
]

-- the amounts of the base and of the quote, and `baseDecreased`
pub record Sides : Type 0 where
  pub base_amount : ℕ
  pub quote_amount : ℕ
  pub base_decreased : Bool

-- the `switch` that lays the two balances over the canonical pair
unfoldable pub orient : CanonicalPair → TokenBalanceDelta → TokenBalanceDelta → ℕ → ℕ → Sides
orient pair input output amount_in amount_out =
    if pair.base_mint == input.mint && pair.quote_mint == output.mint
    then record { base_amount = amount_in; quote_amount = amount_out; base_decreased = false }
    else record { base_amount = amount_out; quote_amount = amount_in; base_decreased = true }

-- Go's zero `time.Time`, which is the year 1, in seconds from the Unix epoch
abbrev pub zero_time : ℕ
zero_time = 2 ^ 64 - 62135596800

-- the event before the log lines
unfoldable pub new_event : InstructionContext → String → CanonicalPair → ℕ → ℕ → Sides → SwapEvent
new_event ctx pool pair base_decimals quote_decimals sides = record {
  signature = ctx.signature;
  slot = ctx.slot;
  timestamp = if ctx.timestamp == zero_time then 0 else ctx.timestamp;
  program_id = ctx.program_id;
  pool = pool;
  kind = ctx.kind;
  base_mint = pair.base_mint;
  quote_mint = pair.quote_mint;
  base_dec = base_decimals;
  quote_dec = quote_decimals;
  base_amount = sides.base_amount;
  quote_amount = sides.quote_amount;
  fee_bps = 0;
  virtual_reserves_base = 0;
  virtual_reserves_quote = 0;
  real_reserves_base = 0;
  real_reserves_quote = 0;
  mint_base = pair.base_mint;
  mint_quote = pair.quote_mint;
  dec_base = base_decimals;
  dec_quote = quote_decimals;
  base_decreased = sides.base_decreased;
}

-- the check of the two amounts, and the event with its log lines
unfoldable pub finish_event : InstructionContext → Sides → SwapEvent → Result DecodeError SwapEvent
finish_event ctx sides event =
    if sides.base_amount == 0 || sides.quote_amount == 0
    then err (zero_sized sides.base_amount sides.quote_amount)
    else ok (apply_log_metadata ctx.kind ctx.logs event)

-- `DecodeSwapEvent` from the canonical pair on
unfoldable pub decode_pair :
    InstructionContext
    → String
    → TokenBalanceDelta
    → TokenBalanceDelta
    → CanonicalPair
    → Result DecodeError SwapEvent
decode_pair ctx pool input output pair =
    let base_decimals = decimals_for_mint ctx pair.base_mint (input ∷ output ∷ []) in
    let quote_decimals = decimals_for_mint ctx pair.quote_mint (input ∷ output ∷ []) in
    let sides = orient pair input output (outgoing input) (incoming output) in
    finish_event ctx sides (new_event ctx pool pair base_decimals quote_decimals sides)

-- `DecodeSwapEvent` from the two balances on
unfoldable pub decode_balances :
    Registry
    → InstructionContext
    → String
    → TokenBalanceDelta
    → TokenBalanceDelta
    → Result DecodeError SwapEvent
decode_balances reg ctx pool input output =
    if outgoing input == 0 && incoming output == 0 then err no_balance_delta else (do
      pair ← wrap_err pair_unresolved (resolve_pair reg input.mint output.mint)
      decode_pair ctx pool input output pair)

-- the two checks of the account lists
unfoldable pub check_accounts : InstructionContext → Result DecodeError (Unit {0})
check_accounts ctx =
    if ltb (length ctx.instruction_accounts) 8
    then err (insufficient_accounts (length ctx.instruction_accounts))
    else if length ctx.accounts == 0
    then err empty_account_list
    else ok tt

-- `DecodeSwapEvent`; a nil context is `none`
unfoldable pub decode_swap_event :
    Registry → Option InstructionContext → Result DecodeError SwapEvent
decode_swap_event reg none = err nil_context
decode_swap_event reg (some ctx) = do
  check_accounts ctx
  pool ← resolve_account ctx 1
  input ← wrap_err input_lookup (balance_for_account ctx (account_index ctx 2))
  output ← wrap_err output_lookup (balance_for_account ctx (account_index ctx 3))
  decode_balances reg ctx pool input output
