-- ===== src/SwapDecoder/Decode.antt =====
-- ingestor/decoder/decoder.go, `DecodeTransaction`. `encode` is `base58.Encode`; `visit` is the order
-- in which Go visits the token balances' map.
use lp_indexer.Prelude.{
  ℕ, String, Option, none, some, List, [], ◌∷◌, ◌++◌, map, Result, ok, err, ◌>>=◌, wrap_err, ◌==◌,
  nat_eq, string_eq, get_elem?, if◌then◌else◌,
}
use lp_indexer.Prelude.Bytes.{Bytes}
use lp_indexer.Canonical.Pair.{Registry}
use lp_indexer.Dex.{SwapEvent}
use lp_indexer.SlotCache
use lp_indexer.SlotCache.{SlotCache, CacheError}
use lp_indexer.Raydium.Instruction
use lp_indexer.Meteora.Types.{PoolKind, program_kind_for_id}
use lp_indexer.Meteora.Decoder.{zero_time}
use lp_indexer.Yellowstone.{
  CompiledInstruction, TransactionStatusMeta, Message, Transaction, TransactionInfo,
  TransactionUpdate,
}
use lp_indexer.SwapDecoder.State.{Decoder, whirlpool_program_id}
use lp_indexer.SwapDecoder.Vaults.{Visit, extract_vault_balances}
use lp_indexer.SwapDecoder.Swaps.{
  BuildError, TxContext, build_raydium_swap, build_orca_swap, build_meteora_swap,
}

-- `DecodeError`
pub record DecodeError : Type 0 where
  pub program : String
  pub cause : BuildError

-- `encodeSignature`
unfoldable pub encode_signature : (Bytes → String) → List Bytes → String
encode_signature encode [] = ""
encode_signature encode (sig ∷ rest) = encode sig

-- `lookupSlotTimestamp`
abbrev time_or_zero : Result CacheError ℕ → ℕ
time_or_zero (err e) = 0
time_or_zero (ok ts) = if ts == zero_time then 0 else ts

unfoldable pub lookup_slot_timestamp : SlotCache ℕ → ℕ → ℕ
lookup_slot_timestamp cache slot = time_or_zero (SlotCache.get slot cache)

-- What a decoder takes from its packages: the base58 encoder, the registry of pairs, the kinds of the
-- Meteora programs, and the order of map visits.
pub record Env : Type 0 where
  pub encode : Bytes → String
  pub registry : Registry
  pub kinds : List (String × PoolKind)
  pub visit : Visit

module _ (env : Env) (d : Decoder) where
  -- the `default` of the `switch` on the program
  unfoldable pub build_other :
      TxContext
      → TransactionStatusMeta
      → CompiledInstruction
      → String
      → Option PoolKind
      → Result BuildError (Option SwapEvent)
  build_other tx meta instr program_id none = ok none
  build_other tx meta instr program_id (some kind) =
      build_meteora_swap env.registry tx instr meta program_id kind

  -- the `switch` on the program of an instruction
  unfoldable pub build_swap :
      TxContext
      → TransactionStatusMeta
      → CompiledInstruction
      → String
      → Result BuildError (Option SwapEvent)
  build_swap tx meta instr program_id =
      if program_id == Instruction.program_id
      then build_raydium_swap d tx instr
      else if program_id == whirlpool_program_id
      then build_orca_swap d tx instr
      else build_other tx meta instr program_id (program_kind_for_id env.kinds program_id)

  abbrev pub add_event : Option SwapEvent → List SwapEvent → List SwapEvent
  add_event none events = events
  add_event (some ev) events = events ++ ev ∷ []

  -- the swap of an instruction, at the program that its index names
  unfoldable pub build_at :
      TxContext
      → TransactionStatusMeta
      → CompiledInstruction
      → Option String
      → Result DecodeError (Option SwapEvent)
  build_at tx meta instr none = ok none
  build_at tx meta instr (some program_id) =
      wrap_err (λ e. record { program = program_id; cause = e })
        (build_swap tx meta instr program_id)

  -- the loop over the instructions
  unfoldable pub decode_loop :
      TxContext
      → TransactionStatusMeta
      → List CompiledInstruction
      → List SwapEvent
      → Result DecodeError (List SwapEvent)
  decode_loop tx meta [] events = ok events
  decode_loop tx meta (instr ∷ rest) events = do
    ev ← build_at tx meta instr (get_elem? tx.accounts instr.program_id_index)
    decode_loop tx meta rest (add_event ev events)

  -- the context that the builders share
  abbrev pub tx_context : ℕ → ℕ → TransactionStatusMeta → List Bytes → Message → TxContext
  tx_context slot index meta signatures message = record {
    signature = encode_signature env.encode signatures;
    slot = slot;
    timestamp = lookup_slot_timestamp d.slot_cache slot;
    index = index;
    accounts = map env.encode message.account_keys;
    vaults = extract_vault_balances env.visit meta;
  }

  unfoldable pub decode_message :
      ℕ
      → ℕ
      → Option TransactionStatusMeta
      → Option Transaction
      → Result DecodeError (List SwapEvent)
  decode_message slot index none tx = ok []
  decode_message slot index (some meta) none = ok []
  decode_message slot index (some meta) (some tx) = elim tx.message [
    | none ↦ ok []
    | some message ↦
        decode_loop (tx_context slot index meta tx.signatures message) meta message.instructions []
  ]

  unfoldable pub decode_info : ℕ → Option TransactionInfo → Result DecodeError (List SwapEvent)
  decode_info slot none = ok []
  decode_info slot (some info) = decode_message slot info.index info.meta info.transaction

  -- `DecodeTransaction`; a missing message anywhere on the way gives no events
  unfoldable pub decode_transaction : Option TransactionUpdate → Result DecodeError (List SwapEvent)
  decode_transaction none = ok []
  decode_transaction (some update) = decode_info update.slot update.transaction
