-- ===== src/Processor/Updates.antt =====
-- ingestor/geyser/processor.go: `HandleUpdate` and the handlers of transactions, blocks and accounts.
use lp_indexer.Prelude.{
  ℕ, Option, none, some, List, [], ◌∷◌, Result, ok, err, nat_eq, if◌then◌else◌,
}
use lp_indexer.Prelude.Maps.{insert}
use lp_indexer.Dex.{SwapEvent, BlockHead, TxMeta}
use lp_indexer.TxMeta.{convert_tx_meta}
use lp_indexer.Yellowstone.{
  TransactionUpdate, BlockMetaUpdate, SubscribeUpdate, transaction_update, block_meta_update,
  account_update, slot_update, block_update, other_update,
}
use lp_indexer.SwapDecoder.State.{handle_block_meta, handle_account}
use lp_indexer.SwapDecoder.Decode.{Env, DecodeError, decode_transaction}
use lp_indexer.Processor.State.{
  Processor, ProcessorError, decode_transaction_failed, publish_meta_failed, publish_swap_failed,
  publish_head_failed, swap_published, head_published, meta_published, Accepts, publish,
  record_swap, record_error, append_pending,
}
use lp_indexer.Processor.Slots.{handle_slot}

module _ (env : Env) (accepts : Accepts) where
  -- the loop of `handleTransaction` over the decoded events
  unfoldable pub event_loop : List SwapEvent → Processor → Option ProcessorError × Processor
  event_loop [] p = (none, p)
  event_loop (ev ∷ rest) p =
      let counted = record_swap env.kinds ev.program_id p in
      let (sent, p') = publish accepts (swap_published ev) counted in
      let later = event_loop rest (append_pending ev.slot ev p') in
      if sent then later else (some publish_swap_failed, record_error env.kinds ev.program_id p')

  -- the metadata's publication, and then the events
  unfoldable pub publish_events :
      Option TxMeta → List SwapEvent → Processor → Option ProcessorError × Processor
  publish_events none events p = event_loop events p
  publish_events (some meta) events p =
      let (sent, p') = publish accepts (meta_published meta) p in
      let later = event_loop events p' in if sent then later else (some publish_meta_failed, p')

  unfoldable pub on_decoded :
      Option TxMeta
      → Result DecodeError (List SwapEvent)
      → Processor
      → Option ProcessorError × Processor
  on_decoded meta (err e) p =
      (some (decode_transaction_failed e), record_error env.kinds e.program p)
  on_decoded meta (ok events) p = publish_events meta events p

  -- `handleTransaction`
  unfoldable pub handle_transaction :
      Option TransactionUpdate → Processor → Option ProcessorError × Processor
  handle_transaction none p = (none, p)
  handle_transaction (some tx) p =
      on_decoded (convert_tx_meta env.encode (some tx)) (decode_transaction env p.decoder (some tx))
        p

  -- the block head that `handleBlockMeta` builds
  abbrev pub seconds_or_zero : Option ℕ → ℕ
  seconds_or_zero none = 0
  seconds_or_zero (some ts) = ts

  unfoldable pub new_head : BlockMetaUpdate → BlockHead
  new_head meta = record {
    chain_id = 501;
    slot = meta.slot;
    ts_sec = seconds_or_zero meta.block_time;
    status = "confirmed";
  }

  -- `handleBlockMeta`
  unfoldable pub handle_block :
      Option BlockMetaUpdate → Processor → Option ProcessorError × Processor
  handle_block none p = (none, p)
  handle_block (some meta) p =
      let stored = record p {
        decoder = handle_block_meta (some meta) p.decoder;
        block_heads = insert meta.slot (new_head meta) p.block_heads;
      } in
      let (sent, p') = publish accepts (head_published (new_head meta)) stored in
      if sent then (none, p') else (some publish_head_failed, p')

  -- `HandleUpdate`, of an update that is not nil
  unfoldable pub handle_update : SubscribeUpdate → Processor → Option ProcessorError × Processor
  handle_update (transaction_update tx) p = handle_transaction tx p
  handle_update (block_meta_update meta) p = handle_block meta p
  handle_update (account_update account) p =
      (none, record p { decoder = handle_account env.encode account p.decoder })
  handle_update (slot_update update) p = handle_slot env.kinds accepts update p
  handle_update (block_update block) p = (none, p)
  handle_update other_update p = (none, p)
