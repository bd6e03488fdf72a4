-- ===== src/SwapDecoder/Swaps.antt =====
-- ingestor/decoder/decoder.go: the swap of one instruction of each program, as a canonical event.
-- `Result` with `none` inside is Go's `nil, nil`: no event and no error.
use lp_indexer.Prelude.{
  ℕ, ◌/◌, ◌%◌, ◌^◌, true, false, String, Option, none, some, List, [], ◌∷◌, Result, ok, ◌>>=◌,
  wrap_err, ◌==◌, nat_eq, string_eq, ◌&&◌, length, get_elem?, if◌then◌else◌,
}
use lp_indexer.Prelude.Bytes.{Bytes}
use lp_indexer.Prelude.Maps.{lookup}
use lp_indexer.Prelude.Words.{delta64, is_positive, is_negative, neg64}
use lp_indexer.Canonical.Pair.{Registry}
use lp_indexer.Dex.{SwapEvent}
use lp_indexer.Raydium.Instruction
use lp_indexer.Raydium.Instruction.{InstructionError, SwapInstruction, parse_swap_instruction}
use lp_indexer.Raydium.Swap
use lp_indexer.Raydium.Swap.{SwapContext, SwapError, parse_swap_event}
use lp_indexer.Meteora.Types
use lp_indexer.Meteora.Types.{PoolKind, InstructionContext}
use lp_indexer.Meteora.Decoder
use lp_indexer.Meteora.Decoder.{decode_swap_event, zero_time}
use lp_indexer.Pools.Orca.{OrcaPoolInfo}
use lp_indexer.Yellowstone.{CompiledInstruction, TransactionStatusMeta}
use lp_indexer.SwapDecoder.State.{Decoder, whirlpool_program_id}
use lp_indexer.SwapDecoder.Vaults.{VaultBalance, or_empty, resolve_pool}

-- `chainIDSolana`
abbrev pub chain_id_solana : ℕ
chain_id_solana = 501

-- the wrapped errors of the three builders
pub data BuildError : Type 0 where
  raydium_instruction : InstructionError → BuildError
  raydium_swap : SwapError → BuildError
  meteora_swap : Decoder.DecodeError → BuildError

-- the arguments that the three builders share
pub record TxContext : Type 0 where
  pub signature : String
  pub slot : ℕ
  pub timestamp : ℕ
  pub index : ℕ
  pub accounts : List String
  pub vaults : List (String × List VaultBalance)

-- the fields that every event takes from its transaction, with all amounts 0
abbrev pub blank : TxContext → String → String → SwapEvent
blank tx program_id pool = record {
  chain_id = chain_id_solana;
  slot = tx.slot;
  sig = tx.signature;
  index = tx.index % 2 ^ 32;
  program_id = program_id;
  pool_id = pool;
  mint_base = "";
  mint_quote = "";
  dec_base = 0;
  dec_quote = 0;
  base_in = 0;
  base_out = 0;
  quote_in = 0;
  quote_out = 0;
  sqrt_price_q64_pre = 0;
  sqrt_price_q64_post = 0;
  reserves_base = 0;
  reserves_quote = 0;
  fee_bps = 0;
  provisional = true;
  is_undo = false;
}

-- `convertRaydiumSwap`
unfoldable pub convert_raydium_swap : TxContext → Swap.SwapEvent → ℕ → SwapEvent
convert_raydium_swap tx ev fee_bps =
    let msg : SwapEvent = record (blank tx Instruction.program_id ev.pool_address) {
      mint_base = ev.mint_a;
      mint_quote = ev.mint_b;
      dec_base = ev.decimals_a;
      dec_quote = ev.decimals_b;
      sqrt_price_q64_pre = ev.sqrt_price_x64_low;
      sqrt_price_q64_post = ev.sqrt_price_x64_high;
      fee_bps = fee_bps;
    } in
    if ev.is_base_input
    then record msg { base_in = ev.amount_in; quote_out = ev.amount_out }
    else record msg { base_out = ev.amount_out; quote_in = ev.amount_in }

-- the swap context of a Raydium pool's two vaults
abbrev pub swap_context : TxContext → String → VaultBalance → VaultBalance → SwapContext
swap_context tx pool vault_a vault_b = record {
  accounts = record {
    pool_address = pool;
    token_vault_a = "";
    token_vault_b = "";
    mint_a = vault_a.mint;
    mint_b = vault_b.mint;
    user_token_a = "";
    user_token_b = "";
    tick_array_lower = "";
    tick_array_upper = "";
    observation_key = "";
  };
  pre_token_a = vault_a.pre;
  post_token_a = vault_a.post;
  pre_token_b = vault_b.pre;
  post_token_b = vault_b.post;
  decimals_a = vault_a.decimals;
  decimals_b = vault_b.decimals;
  fee_bps = 0;
  slot = tx.slot;
  signature = tx.signature;
  timestamp = tx.timestamp;
}

-- `m[key]` of a map of fees
abbrev pub fee_or_zero : Option ℕ → ℕ
fee_or_zero none = 0
fee_or_zero (some fee) = fee

-- `buildRaydiumSwap` once the pool and its two vaults are known
unfoldable pub raydium_swap_of :
    Decoder
    → TxContext
    → Bytes
    → String
    → VaultBalance
    → VaultBalance
    → Result BuildError (Option SwapEvent)
raydium_swap_of d tx payload pool vault_a vault_b = do
  swap_instr ← wrap_err raydium_instruction (parse_swap_instruction payload)
  event ←
      wrap_err raydium_swap
        (parse_swap_event (some swap_instr) (some (swap_context tx pool vault_a vault_b)))
  ok (some (convert_raydium_swap tx event (fee_or_zero (lookup pool d.pool_fees))))

-- `buildRaydiumSwap`
unfoldable pub build_raydium_swap :
    Decoder → TxContext → CompiledInstruction → Result BuildError (Option SwapEvent)
build_raydium_swap d tx instr =
    if length instr.payload == 0
    then ok none
    else (elim (resolve_pool instr tx.accounts tx.vaults) [
      | none ↦ ok none
      | some (pool, vault_a, vault_b) ↦ raydium_swap_of d tx instr.payload pool vault_a vault_b
    ])

-- the loop that picks the vaults of an Orca pool's two mints: the last balance of each wins
unfoldable pub pick_vaults :
    OrcaPoolInfo
    → List VaultBalance
    → Option VaultBalance
    → Option VaultBalance
    → Option VaultBalance × Option VaultBalance
pick_vaults info [] vault_a vault_b = (vault_a, vault_b)
pick_vaults info (tb ∷ rest) vault_a vault_b =
    let is_a = tb.mint == info.token_mint_a in
    let is_b = tb.mint == info.token_mint_b in
    pick_vaults info rest (if is_a then some tb else vault_a)
      (if is_a then vault_b else if is_b then some tb else vault_b)

-- the amounts of an Orca event, from the two differences
unfoldable pub orca_amounts : ℕ → ℕ → SwapEvent → SwapEvent
orca_amounts delta_a delta_b event =
    if is_negative delta_a && is_positive delta_b
    then record event { base_out = neg64 delta_a; quote_in = delta_b }
    else record event {
      base_in = if is_positive delta_a then delta_a else 0;
      quote_out = if is_negative delta_b then neg64 delta_b else 0;
    }

-- `buildOrcaSwap` from the two vaults on
unfoldable pub orca_event :
    TxContext → String → OrcaPoolInfo → VaultBalance → VaultBalance → Option SwapEvent
orca_event tx pool_id info vault_a vault_b =
    let delta_a = delta64 vault_a.post vault_a.pre in
    let delta_b = delta64 vault_b.post vault_b.pre in
    if delta_a == 0 && delta_b == 0
    then none
    else some (
        orca_amounts delta_a delta_b (record (blank tx whirlpool_program_id pool_id) {
          mint_base = info.token_mint_a;
          mint_quote = info.token_mint_b;
          dec_base = vault_a.decimals;
          dec_quote = vault_b.decimals;
          fee_bps = info.fee_rate / 100;
        }))

abbrev pub orca_of_vaults :
    TxContext → String → OrcaPoolInfo → Option VaultBalance × Option VaultBalance → Option SwapEvent
orca_of_vaults tx pool_id info (some vault_a, some vault_b) =
    orca_event tx pool_id info vault_a vault_b
orca_of_vaults tx pool_id info (some vault_a, none) = none
orca_of_vaults tx pool_id info (none, vault_b) = none

abbrev pub orca_of_pool : TxContext → String → Option OrcaPoolInfo → Option SwapEvent
orca_of_pool tx pool_id none = none
orca_of_pool tx pool_id (some info) =
    orca_of_vaults tx pool_id info
      (pick_vaults info (or_empty (lookup pool_id tx.vaults)) none none)

abbrev pub orca_of_address : Decoder → TxContext → Option String → Option SwapEvent
orca_of_address d tx none = none
orca_of_address d tx (some pool_id) = orca_of_pool tx pool_id (lookup pool_id d.orca_pools)

abbrev pub orca_of_index : Decoder → TxContext → Option ℕ → Option SwapEvent
orca_of_index d tx none = none
orca_of_index d tx (some pool_idx) = orca_of_address d tx (get_elem? tx.accounts pool_idx)

-- `buildOrcaSwap`, which has no error: the pool is the account at position 2 of at least 3. A pool
-- without balances has no vaults either.
unfoldable pub build_orca_swap :
    Decoder → TxContext → CompiledInstruction → Result BuildError (Option SwapEvent)
build_orca_swap d tx instr = ok (orca_of_index d tx (get_elem? instr.accounts 2))

-- the event of a decoded Meteora swap
unfoldable pub convert_meteora_swap : TxContext → String → Types.SwapEvent → SwapEvent
convert_meteora_swap tx program_id event =
    let no_virtual = event.virtual_reserves_base == 0 && event.virtual_reserves_quote == 0 in
    let proto : SwapEvent = record (blank tx program_id event.pool) {
      mint_base = event.mint_base;
      mint_quote = event.mint_quote;
      dec_base = event.dec_base;
      dec_quote = event.dec_quote;
      reserves_base = if no_virtual then event.real_reserves_base else event.virtual_reserves_base;
      reserves_quote =
          if no_virtual then event.real_reserves_quote else event.virtual_reserves_quote;
      fee_bps = event.fee_bps;
    } in
    if event.base_decreased
    then record proto { base_out = event.base_amount; quote_in = event.quote_amount }
    else record proto { base_in = event.base_amount; quote_out = event.quote_amount }

abbrev pub instruction_context :
    TxContext → CompiledInstruction → TransactionStatusMeta → String → PoolKind → InstructionContext
instruction_context tx instr meta program_id kind = record {
  slot = tx.slot;
  signature = tx.signature;
  logs = meta.log_messages;
  accounts = tx.accounts;
  instruction_accounts = instr.accounts;
  pre_token_balances = meta.pre_token_balances;
  post_token_balances = meta.post_token_balances;
  program_id = program_id;
  kind = kind;
  timestamp = if tx.timestamp == 0 then zero_time else tx.timestamp;
}

-- `buildMeteoraSwap`; `if resBase != 0 || resQuote != 0` writes no more than the zeros that are there
unfoldable pub build_meteora_swap :
    Registry
    → TxContext
    → CompiledInstruction
    → TransactionStatusMeta
    → String
    → PoolKind
    → Result BuildError (Option SwapEvent)
build_meteora_swap reg tx instr meta program_id kind = do
  event ←
      wrap_err meteora_swap
        (decode_swap_event reg (some (instruction_context tx instr meta program_id kind)))
  ok (some (convert_meteora_swap tx program_id event))
