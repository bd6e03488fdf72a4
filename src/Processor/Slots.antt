-- ===== src/Processor/Slots.antt =====
-- ingestor/geyser/processor.go: a slot that is finalized or dead settles its pending swaps.
use lp_indexer.Prelude.{
  ℕ, true, false, String, Option, none, some, List, [], ◌∷◌, ◌||◌, ◌==◌, string_eq, nat_eq,
  if◌then◌else◌,
}
use lp_indexer.Prelude.Maps.{lookup, insert, erase}
use lp_indexer.Dex.{SwapEvent, BlockHead}
use lp_indexer.Meteora.Types.{PoolKind}
use lp_indexer.Yellowstone.{SlotStatus, slot_finalized, slot_dead, slot_other, SlotUpdate}
use lp_indexer.Processor.State.{
  Processor, ProcessorError, publish_final_failed, publish_undo_failed, publish_status_failed,
  swap_published, head_published, Accepts, publish, record_error, pending_at,
}

-- The clones that `finalizeSlot` and `undoSlot` publish.
abbrev pub final : SwapEvent → SwapEvent
final ev = record ev { provisional = false; is_undo = false }

abbrev pub undo : SwapEvent → SwapEvent
undo ev = record ev { provisional = false; is_undo = true }

module _ (kinds : List (String × PoolKind)) (accepts : Accepts) where
  -- the loop of both methods: each event's clone is published, and the first error returns
  unfoldable pub settle_loop :
      (SwapEvent → SwapEvent)
      → ProcessorError
      → List SwapEvent
      → Processor
      → Option ProcessorError × Processor
  settle_loop clone failure [] p = (none, p)
  settle_loop clone failure (ev ∷ rest) p =
      let (sent, p') = publish accepts (swap_published (clone ev)) p in
      let later = settle_loop clone failure rest p' in
      if sent then later else (some failure, record_error kinds (clone ev).program_id p')

  abbrev pub drop_pending :
      ℕ → Option ProcessorError × Processor → Option ProcessorError × Processor
  drop_pending slot (none, p) = (none, record p { pending = erase slot p.pending })
  drop_pending slot (some e, p) = (some e, p)

  -- `finalizeSlot` and `undoSlot`; a slot without pending events is deleted too
  unfoldable pub finalize_slot : ℕ → Processor → Option ProcessorError × Processor
  finalize_slot slot p =
      drop_pending slot (settle_loop final publish_final_failed (pending_at slot p) p)

  unfoldable pub undo_slot : ℕ → Processor → Option ProcessorError × Processor
  undo_slot slot p = drop_pending slot (settle_loop undo publish_undo_failed (pending_at slot p) p)

  -- the block head's entry once its new status is published
  unfoldable pub update_head : ℕ → String → BlockHead → Processor → Processor
  update_head slot status head p = record p {
    block_heads =
        if status == "finalized" || status == "dead"
        then erase slot p.block_heads
        else insert slot (record head { status = status }) p.block_heads;
  }

  unfoldable pub publish_status :
      ℕ → String → Option BlockHead → Processor → Option ProcessorError × Processor
  publish_status slot status none p = (none, p)
  publish_status slot status (some head) p =
      let (sent, p') = publish accepts (head_published (record head { status = status })) p in
      if sent
      then (none, update_head slot status head p')
      else (some (publish_status_failed status), p')

  -- `publishBlockHeadStatus`
  unfoldable pub publish_block_head_status :
      ℕ → String → Processor → Option ProcessorError × Processor
  publish_block_head_status slot status p = publish_status slot status (lookup slot p.block_heads) p

  abbrev pub then_status :
      ℕ → String → Option ProcessorError × Processor → Option ProcessorError × Processor
  then_status slot status (none, p) = publish_block_head_status slot status p
  then_status slot status (some e, p) = (some e, p)

  -- the `switch` of `handleSlot`
  unfoldable pub on_status : ℕ → SlotStatus → Processor → Option ProcessorError × Processor
  on_status slot slot_finalized p = then_status slot "finalized" (finalize_slot slot p)
  on_status slot slot_dead p = then_status slot "dead" (undo_slot slot p)
  on_status slot slot_other p = (none, p)

  -- `handleSlot`
  unfoldable pub handle_slot : Option SlotUpdate → Processor → Option ProcessorError × Processor
  handle_slot none p = (none, p)
  handle_slot (some update) p = on_status update.slot update.status p
