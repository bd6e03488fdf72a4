-- ===== src/Processor/Safety/Updates.antt =====
-- The handlers of the processor keep the log safe, and so does any run of updates.
use mathlib.Core.Path.{subst}
use lp_indexer.Prelude.{
  ℕ, ◌≡◌, refl, true, String, Option, none, some, List, [], ◌∷◌, ◌++◌, Result, ok, err, inl, inr,
  arith, All, All-append, nat_eq, ◌==◌, Bool-cases, nat_beq_iff, if_intro,
}
use lp_indexer.Prelude.Maps.{lookup, insert, lookup-insert}
use lp_indexer.Dex.{SwapEvent, BlockHead, TxMeta}
use lp_indexer.Meteora.Types.{PoolKind}
use lp_indexer.SlotCache.{SlotCache}
use lp_indexer.Yellowstone.{
  SubscribeUpdate, transaction_update, block_meta_update, account_update, slot_update, block_update,
  other_update, SlotStatus, slot_finalized, slot_dead, slot_other, SlotUpdate, TransactionUpdate,
  BlockMetaUpdate,
}
use lp_indexer.SwapDecoder.State.{handle_block_meta}
use lp_indexer.SwapDecoder.Decode.{Env, DecodeError, decode_transaction}
use lp_indexer.SwapDecoder.Events.{IsProvisional, decode_transaction-IsProvisional}
use lp_indexer.Processor.State.{
  Processor, ProcessorError, Publication, swap_published, head_published, meta_published, Accepts,
  publish, record_swap, pending_at, append_pending, new_processor,
}
use lp_indexer.Processor.Slots.{
  final, undo, finalize_slot, undo_slot, publish_status, publish_block_head_status, update_head,
  then_status, on_status, handle_slot,
}
use lp_indexer.Processor.Updates.{
  event_loop, publish_events, on_decoded, handle_transaction, handle_block, handle_update, new_head,
}
use lp_indexer.Processor.Log.{Sent, Sent-last, Justify}
use lp_indexer.Processor.Safety.{
  IsSafe, Waiting, IsSafeAfter, publish-IsSafe, settle_loop-IsSafe, drop_pending-IsSafe,
  final-Settles, undo-Settles, record_error-IsSafe, record_swap-IsSafe,
}

module _ (kinds : List (String × PoolKind)) (accepts : Accepts) where
  finalize_slot-IsSafe :
      (slot : ℕ) (p : Processor) → IsSafe p → IsSafe (finalize_slot kinds accepts slot p).1
  unfolding finalize_slot
  finalize_slot-IsSafe slot p safe = drop_pending-IsSafe kinds accepts slot _ (
      settle_loop-IsSafe kinds accepts final _ slot (pending_at slot p) final-Settles safe
        (safe.waiting slot))

  undo_slot-IsSafe :
      (slot : ℕ) (p : Processor) → IsSafe p → IsSafe (undo_slot kinds accepts slot p).1
  unfolding undo_slot
  undo_slot-IsSafe slot p safe = drop_pending-IsSafe kinds accepts slot _ (
      settle_loop-IsSafe kinds accepts undo _ slot (pending_at slot p) undo-Settles safe
        (safe.waiting slot))

  update_head-IsSafe :
      (slot : ℕ) (status : String) (head : BlockHead) {p : Processor}
      → IsSafe p
      → IsSafe (update_head kinds accepts slot status head p)
  unfolding update_head pending_at
  update_head-IsSafe slot status head safe = record {
    justified = safe.justified;
    waiting = safe.waiting;
  }

  publish_status-IsSafe :
      (slot : ℕ) (status : String) (head : Option BlockHead) {p : Processor}
      → IsSafe p
      → IsSafe (publish_status kinds accepts slot status head p).1
  unfolding publish_status
  publish_status-IsSafe slot status none safe = safe
  publish_status-IsSafe slot status (some head) {p} safe =
      let m = head_published (record head { status = status }) in
      let safe' = publish-IsSafe accepts m safe tt in
      if_intro IsSafeAfter (publish accepts m p).0 (update_head-IsSafe slot status head safe') safe'

  then_status-IsSafe :
      (slot : ℕ) (status : String) (r : Option ProcessorError × Processor)
      → IsSafe r.1
      → IsSafe (then_status kinds accepts slot status r).1
  unfolding publish_block_head_status
  then_status-IsSafe slot status (none, p) safe =
      publish_status-IsSafe slot status (lookup slot p.block_heads) safe
  then_status-IsSafe slot status (some e, p) safe = safe

  on_status-IsSafe :
      (slot : ℕ) (status : SlotStatus) (p : Processor)
      → IsSafe p
      → IsSafe (on_status kinds accepts slot status p).1
  unfolding on_status
  on_status-IsSafe slot slot_finalized p safe =
      then_status-IsSafe slot "finalized" _ (finalize_slot-IsSafe slot p safe)
  on_status-IsSafe slot slot_dead p safe =
      then_status-IsSafe slot "dead" _ (undo_slot-IsSafe slot p safe)
  on_status-IsSafe slot slot_other p safe = safe

  handle_slot-IsSafe :
      (update : Option SlotUpdate) (p : Processor)
      → IsSafe p
      → IsSafe (handle_slot kinds accepts update p).1
  unfolding handle_slot
  handle_slot-IsSafe none p safe = safe
  handle_slot-IsSafe (some update) p safe = on_status-IsSafe update.slot update.status p safe

append_pending-IsSafe :
    (e : SwapEvent) {p : Processor}
    → IsProvisional e
    → Sent (swap_published e) p.log
    → IsSafe p
    → IsSafe (append_pending e.slot e p)
unfolding append_pending
append_pending-IsSafe e {p} prov sent safe =
    let own : Waiting e.slot p.log e = record {
      at_slot = refl;
      provisional = prov.0;
      no_undo = prov.1;
      sent = sent;
    } in
    let all : All (Waiting e.slot p.log) (pending_at e.slot p ++ e ∷ []) =
      All-append _ (pending_at e.slot p) (e ∷ []) (safe.waiting e.slot) (own, tt) in
    record {
      justified = safe.justified;
      waiting = λ s.
          rw (lookup-insert e.slot s (pending_at e.slot p ++ e ∷ []) p.pending)
            (elim (Bool-cases (e.slot == s)) [
              | inl same ↦ rw same (
                  subst (λ k. All (Waiting k p.log) (pending_at e.slot p ++ e ∷ []))
                    ((nat_beq_iff e.slot s).0 same) all)
              | inr other ↦ rw other (safe.waiting s)
            ]);
    }

publish-Sent :
    (accepts : Accepts) (m : Publication) (p : Processor)
    → (publish accepts m p).0 ≡ true
    → Sent m (publish accepts m p).1.log
unfolding publish
publish-Sent accepts m p h = elim (Bool-cases (accepts p.tried m)) [
  | inl yes_sent ↦ rw yes_sent (Sent-last m p.log)
  | inr refused ↦ absurd (ground arith)
]

pub new_processor-IsSafe : (cache : Option (SlotCache ℕ)) → IsSafe (new_processor cache)
unfolding new_processor pending_at lookup
new_processor-IsSafe cache = record { justified = tt; waiting = λ s. tt }

module _ (env : Env) (accepts : Accepts) where
  event_loop-IsSafe :
      (events : List SwapEvent) {p : Processor}
      → All IsProvisional events
      → IsSafe p
      → IsSafe (event_loop env accepts events p).1
  unfolding event_loop
  event_loop-IsSafe [] all safe = safe
  event_loop-IsSafe (e ∷ events) {p} all safe =
      let counted = record_swap env.kinds e.program_id p in
      let m = swap_published e in
      let safe' : IsSafe (publish accepts m counted).1 =
        publish-IsSafe accepts m (record_swap-IsSafe env.kinds e.program_id safe) (inl all.0) in
      elim (Bool-cases (publish accepts m counted).0) [
        | inl sent ↦ rw sent (
            event_loop-IsSafe events all.1
              (append_pending-IsSafe e all.0 (publish-Sent accepts m counted sent) safe'))
        | inr refused ↦ rw refused (record_error-IsSafe env.kinds e.program_id safe')
      ]

  publish_events-IsSafe :
      (meta : Option TxMeta) (events : List SwapEvent) {p : Processor}
      → All IsProvisional events
      → IsSafe p
      → IsSafe (publish_events env accepts meta events p).1
  unfolding publish_events
  publish_events-IsSafe none events all safe = event_loop-IsSafe events all safe
  publish_events-IsSafe (some meta) events {p} all safe =
      let safe' = publish-IsSafe accepts (meta_published meta) safe tt in
      if_intro IsSafeAfter (publish accepts (meta_published meta) p).0
        (event_loop-IsSafe events all safe') safe'

  on_decoded-IsSafe :
      (meta : Option TxMeta) (r : Result DecodeError (List SwapEvent)) {p : Processor}
      → ((events : List SwapEvent) → r ≡ ok events → All IsProvisional events)
      → IsSafe p
      → IsSafe (on_decoded env accepts meta r p).1
  unfolding on_decoded
  on_decoded-IsSafe meta (err e) all safe = record_error-IsSafe env.kinds e.program safe
  on_decoded-IsSafe meta (ok events) all safe =
      publish_events-IsSafe meta events (all events refl) safe

  handle_transaction-IsSafe :
      (tx : Option TransactionUpdate) {p : Processor}
      → IsSafe p
      → IsSafe (handle_transaction env accepts tx p).1
  unfolding handle_transaction
  handle_transaction-IsSafe none safe = safe
  handle_transaction-IsSafe (some tx) {p} safe =
      on_decoded-IsSafe _ (decode_transaction env p.decoder (some tx))
        (λ events h. decode_transaction-IsProvisional env p.decoder (some tx) h) safe

  handle_block-IsSafe :
      (meta : Option BlockMetaUpdate) {p : Processor}
      → IsSafe p
      → IsSafe (handle_block env accepts meta p).1
  unfolding handle_block pending_at
  handle_block-IsSafe none safe = safe
  handle_block-IsSafe (some meta) {p} safe =
      let stored : IsSafe (record p {
        decoder = handle_block_meta (some meta) p.decoder;
        block_heads = insert meta.slot (new_head env accepts meta) p.block_heads;
      }) =
        record { justified = safe.justified; waiting = safe.waiting } in
      let safe' = publish-IsSafe accepts (head_published (new_head env accepts meta)) stored tt in
      if_intro IsSafeAfter _ safe' safe'

  pub handle_update-IsSafe :
      (update : SubscribeUpdate) {p : Processor}
      → IsSafe p
      → IsSafe (handle_update env accepts update p).1
  unfolding handle_update pending_at
  handle_update-IsSafe (transaction_update tx) safe = handle_transaction-IsSafe tx safe
  handle_update-IsSafe (block_meta_update meta) safe = handle_block-IsSafe meta safe
  handle_update-IsSafe (account_update account) safe = record {
    justified = safe.justified;
    waiting = safe.waiting;
  }
  handle_update-IsSafe (slot_update update) {p} safe =
      handle_slot-IsSafe env.kinds accepts update p safe
  handle_update-IsSafe (block_update block) safe = safe
  handle_update-IsSafe other_update safe = safe

  -- The processor after a run of updates, where each error is left behind as the stream goes on.
  unfoldable pub run_updates : List SubscribeUpdate → Processor → Processor
  run_updates [] p = p
  run_updates (update ∷ updates) p = run_updates updates (handle_update env accepts update p).1

  run_updates-IsSafe :
      (updates : List SubscribeUpdate) {p : Processor} → IsSafe p → IsSafe (run_updates updates p)
  unfolding run_updates
  run_updates-IsSafe [] safe = safe
  run_updates-IsSafe (update ∷ updates) safe =
      run_updates-IsSafe updates (handle_update-IsSafe update safe)

  -- Whatever updates arrive at a new processor, and whichever publications the publisher refuses, each
  -- swap in the log is either provisional and no undo, or is a final or an undo event whose
  -- provisional event, with all other fields the same, stands earlier in the log.
  pub run_updates-Justify :
      (cache : Option (SlotCache ℕ)) (updates : List SubscribeUpdate)
      → Justify [] (run_updates updates (new_processor cache)).log
  run_updates-Justify cache updates =
      (run_updates-IsSafe updates (new_processor-IsSafe cache)).justified
