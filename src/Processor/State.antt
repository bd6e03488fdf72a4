-- ===== src/Processor/State.antt =====
-- ingestor/geyser/processor.go: the processor's state, its metrics, and publishing. The publisher is
-- an interface: whether it accepts the n-th publication is a parameter, and what it has accepted is
-- the log.
use lp_indexer.Prelude.{
  ℕ, suc, ◌+◌, Bool, true, false, String, Option, none, some, List, [], ◌∷◌, ◌++◌, ◌==◌, string_eq,
  nat_eq, if◌then◌else◌,
}
use lp_indexer.Prelude.Maps.{lookup, insert}
use lp_indexer.Dex.{SwapEvent, BlockHead, TxMeta}
use lp_indexer.Raydium.Instruction
use lp_indexer.Meteora.Types.{PoolKind, program_kind_for_id}
use lp_indexer.SwapDecoder.State
use lp_indexer.SwapDecoder.State.{Decoder, whirlpool_program_id}
use lp_indexer.SwapDecoder.Decode.{DecodeError}
use lp_indexer.SlotCache.{SlotCache}

-- the three methods of `SwapPublisher`, as messages
pub data Publication : Type 0 where
  swap_published : SwapEvent → Publication
  head_published : BlockHead → Publication
  meta_published : TxMeta → Publication

-- `processorMetrics`
pub record Metrics : Type 0 where
  pub raydium_swaps : ℕ
  pub raydium_errors : ℕ
  pub orca_swaps : ℕ
  pub orca_errors : ℕ
  pub meteora_swaps : ℕ
  pub meteora_errors : ℕ

-- `Processor`, with the publisher's log and the number of publications tried
pub record Processor : Type 0 where
  pub decoder : Decoder
  pub metrics : Metrics
  pub pending : List (ℕ × List SwapEvent)
  pub block_heads : List (ℕ × BlockHead)
  pub log : List Publication
  pub tried : ℕ

-- the errors of the handlers
pub data ProcessorError : Type 0 where
  decode_transaction_failed : DecodeError → ProcessorError
  publish_meta_failed publish_swap_failed publish_final_failed publish_undo_failed : ProcessorError
  publish_head_failed : ProcessorError
  publish_status_failed : String → ProcessorError

-- `NewProcessor`
unfoldable pub new_processor : Option (SlotCache ℕ) → Processor
new_processor cache = record {
  decoder = State.new cache;
  metrics = record {
    raydium_swaps = 0;
    raydium_errors = 0;
    orca_swaps = 0;
    orca_errors = 0;
    meteora_swaps = 0;
    meteora_errors = 0;
  };
  pending = [];
  block_heads = [];
  log = [];
  tried = 0;
}

-- the `default` of the two metrics' switches
abbrev if_meteora : Option PoolKind → Metrics → Metrics → Metrics
if_meteora none m counted = m
if_meteora (some kind) m counted = counted

-- `recordSwap` and `recordError`
unfoldable pub count_swap : List (String × PoolKind) → String → Metrics → Metrics
count_swap kinds program_id m =
    if program_id == Instruction.program_id
    then record m { raydium_swaps = m.raydium_swaps + 1 }
    else if program_id == whirlpool_program_id
    then record m { orca_swaps = m.orca_swaps + 1 }
    else if_meteora (program_kind_for_id kinds program_id) m
        (record m { meteora_swaps = m.meteora_swaps + 1 })

unfoldable pub count_error : List (String × PoolKind) → String → Metrics → Metrics
count_error kinds program_id m =
    if program_id == Instruction.program_id
    then record m { raydium_errors = m.raydium_errors + 1 }
    else if program_id == whirlpool_program_id
    then record m { orca_errors = m.orca_errors + 1 }
    else if_meteora (program_kind_for_id kinds program_id) m
        (record m { meteora_errors = m.meteora_errors + 1 })

unfoldable pub record_swap : List (String × PoolKind) → String → Processor → Processor
record_swap kinds program_id p = record p { metrics = count_swap kinds program_id p.metrics }

unfoldable pub record_error : List (String × PoolKind) → String → Processor → Processor
record_error kinds program_id p = record p { metrics = count_error kinds program_id p.metrics }

-- whether the publisher accepts its n-th publication
abbrev pub Accepts : Type 0
Accepts = ℕ → Publication → Bool

-- one call of the publisher: whether it returned no error, and the state after it
unfoldable pub publish : Accepts → Publication → Processor → Bool × Processor
publish accepts message p =
    if accepts p.tried message
    then (true, record p { log = p.log ++ message ∷ []; tried = suc p.tried })
    else (false, record p { tried = suc p.tried })

-- `p.pending[slot]`
abbrev pub no_events : Option (List SwapEvent) → List SwapEvent
no_events none = []
no_events (some events) = events

unfoldable pub pending_at : ℕ → Processor → List SwapEvent
pending_at slot p = no_events (lookup slot p.pending)

-- `appendPending`, of an event that is not nil
unfoldable pub append_pending : ℕ → SwapEvent → Processor → Processor
unfolding pending_at
append_pending slot event p = record p {
  pending = insert slot (pending_at slot p ++ event ∷ []) p.pending;
}
