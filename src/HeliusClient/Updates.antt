-- ===== src/HeliusClient/Updates.antt =====
-- What the Helius client sends of one update, and what the processor of the Geyser service publishes.
use mathlib.Core.List.{append_assoc, append-nil}
use mathlib.Core.Path.{sym, ap, ◌∙◌}
use lp_indexer.Prelude.{
  suc, ℕ, ◌≡◌, refl, Bool, true, Option, none, some, List, [], ◌∷◌, ◌++◌, map, ok,
}
use lp_indexer.Dex.{SwapEvent, TxMeta}
use lp_indexer.TxMeta.{convert_tx_meta}
use lp_indexer.Yellowstone.{
  TransactionUpdate, BlockMetaUpdate, SubscribeUpdate, transaction_update, block_meta_update,
  account_update, slot_update, block_update, other_update,
}
use lp_indexer.SwapDecoder.State.{Decoder, handle_block_meta, handle_account}
use lp_indexer.SwapDecoder.Decode.{Env, decode_transaction}
use lp_indexer.Processor.State.{
  count_swap, Processor, Publication, swap_published, head_published, meta_published, Accepts,
  publish, record_swap, append_pending,
}
use lp_indexer.Processor.Updates
use lp_indexer.Processor.Updates.{
  publish_events, handle_transaction, handle_block, handle_update, new_head,
}
use lp_indexer.HeliusClient
use lp_indexer.HeliusClient.{
  Event, report_result, on_update, beat, event_loop, Update, block_head, tx_meta, swap, Client,
  ClientError, send_update, send_swaps, send_meta, on_decoded, head_of, send_head,
  handle_subscribe_update,
}

abbrev pub publication : Update → Publication
publication (block_head head) = head_published head
publication (tx_meta meta) = meta_published meta
publication (swap ev) = swap_published ev

-- a publisher that accepts all, and sends that find a reader
abbrev pub always : Accepts
always n message = true

abbrev pub taken : ℕ → Bool
taken n = true

-- the decoders are the same, and the client has sent what the processor has published since
pub record Follows (c c' : Client) (p p' : Processor) : Type 0 where
  pub decoders : c'.decoder ≡ p'.decoder
  pub new : List Update
  pub sent : c'.sent ≡ c.sent ++ new
  pub log : p'.log ≡ p.log ++ map publication new

abbrev updates_of : List SwapEvent → List Update
updates_of events = map (λ ev. swap ev) events

module _ (env : Env) where
  send_swaps-sent :
      (events : List SwapEvent) (c : Client)
      → ((send_swaps env taken events c).sent ≡ c.sent ++ updates_of events)
        × ((send_swaps env taken events c).decoder ≡ c.decoder)
  unfolding send_swaps send_update
  send_swaps-sent [] c = (sym (append-nil c.sent), refl)
  send_swaps-sent (ev ∷ events) c =
      let (more, same) = send_swaps-sent events (send_update env taken (swap ev) c) in
      (more ∙ append_assoc c.sent (swap ev ∷ []) (updates_of events), same)

  event_loop-log :
      (events : List SwapEvent) (p : Processor)
      → ((Updates.event_loop env always events p).1.log
          ≡ p.log ++ map publication (updates_of events))
        × ((Updates.event_loop env always events p).1.decoder ≡ p.decoder)
  unfolding Updates.event_loop publish record_swap append_pending
  event_loop-log [] p = (sym (append-nil p.log), refl)
  event_loop-log (ev ∷ events) p =
      let (more, same) = event_loop-log events (
        append_pending ev.slot ev (record p {
          metrics = count_swap env.kinds ev.program_id p.metrics;
          log = p.log ++ swap_published ev ∷ [];
          tried = suc p.tried;
        })) in
      (
        more ∙ append_assoc p.log (swap_published ev ∷ []) (map publication (updates_of events)),
        same,
      )

  -- an update that is not the status of a slot, and whose transaction can be decoded
  abbrev pub IsDecodable : Decoder → SubscribeUpdate → Type 0
  IsDecodable d (transaction_update tx) =
      (events : List SwapEvent) × (decode_transaction env d tx ≡ ok events)
  IsDecodable d (slot_update u) = ⊥
  IsDecodable d u = Unit

  pub nothing-Follows : (c : Client) (p : Processor) → c.decoder ≡ p.decoder → Follows c c p p
  nothing-Follows c p same = record {
    decoders = same;
    new = [];
    sent = sym (append-nil c.sent);
    log = sym (append-nil p.log);
  }

  events-Follows :
      (meta : Option TxMeta) (events : List SwapEvent) (c : Client) (p : Processor)
      → c.decoder ≡ p.decoder
      → Follows c
          (send_swaps env taken events (send_meta env taken meta c))
          p
          (publish_events env always meta events p).1
  unfolding publish_events send_update publish
  events-Follows none events c p same =
      let (sent, kept) = send_swaps-sent events c in
      let (log, left) = event_loop-log events p in
      record { decoders = kept ∙ same ∙ sym left; new = updates_of events; sent = sent; log = log }
  events-Follows (some meta) events c p same =
      let c' = record c { sent = c.sent ++ tx_meta meta ∷ []; tried = suc c.tried } in
      let p' = record p { log = p.log ++ meta_published meta ∷ []; tried = suc p.tried } in
      let (sent, kept) = send_swaps-sent events c' in
      let (log, left) = event_loop-log events p' in
      record {
        decoders = kept ∙ same ∙ sym left;
        new = tx_meta meta ∷ updates_of events;
        sent = sent ∙ append_assoc c.sent (tx_meta meta ∷ []) (updates_of events);
        log =
            log
            ∙ append_assoc p.log (meta_published meta ∷ []) (map publication (updates_of events));
      }

  decoded-Follows :
      (tx : TransactionUpdate) (events : List SwapEvent) (c : Client) (p : Processor)
      → c.decoder ≡ p.decoder
      → decode_transaction env p.decoder (some tx) ≡ ok events
      → Follows c
          (handle_subscribe_update env taken (transaction_update (some tx)) c).1
          p
          (handle_update env always (transaction_update (some tx)) p).1
  unfolding handle_subscribe_update handle_update handle_transaction Updates.on_decoded
  decoded-Follows tx events c p same decodes =
      let decodes' = ap (λ d. decode_transaction env d (some tx)) same ∙ decodes in
      rw (decodes, decodes') (events-Follows (convert_tx_meta env.encode (some tx)) events c p same)

  nil_transaction-Follows :
      (c : Client) (p : Processor)
      → c.decoder ≡ p.decoder
      → Follows c
          (handle_subscribe_update env taken (transaction_update none) c).1
          p
          (handle_update env always (transaction_update none) p).1
  unfolding handle_subscribe_update handle_update handle_transaction decode_transaction
      convert_tx_meta send_swaps
  nil_transaction-Follows c p same = nothing-Follows c p same

  seconds_agree :
      (t : Option ℕ)
      → Updates.seconds_or_zero env always t ≡ HeliusClient.seconds_or_zero env taken t
  seconds_agree none = refl
  seconds_agree (some ts) = refl

  heads_agree : (meta : BlockMetaUpdate) → new_head env always meta ≡ head_of env taken meta
  unfolding new_head head_of
  heads_agree meta =
      ap (λ t. record { chain_id = 501; slot = meta.slot; ts_sec = t; status = "confirmed" })
        (seconds_agree meta.block_time)

  block-Follows :
      (meta : Option BlockMetaUpdate) (c : Client) (p : Processor)
      → c.decoder ≡ p.decoder
      → Follows c
          (handle_subscribe_update env taken (block_meta_update meta) c).1
          p
          (handle_update env always (block_meta_update meta) p).1
  unfolding handle_subscribe_update handle_update handle_block send_update publish head_of new_head
      handle_block_meta
  block-Follows none c p same = record {
    decoders = same;
    new = [];
    sent = sym (append-nil c.sent);
    log = sym (append-nil p.log);
  }
  block-Follows (some meta) c p same = record {
    decoders = ap (λ d. handle_block_meta (some meta) d) same;
    new = block_head (head_of env taken meta) ∷ [];
    sent = refl;
    log = ap (λ h. p.log ++ head_published h ∷ []) (heads_agree meta);
  }

  pub update-Follows :
      (u : SubscribeUpdate) (c : Client) (p : Processor)
      → c.decoder ≡ p.decoder
      → IsDecodable p.decoder u
      → Follows c (handle_subscribe_update env taken u c).1 p (handle_update env always u p).1
  unfolding handle_subscribe_update handle_update
  update-Follows (transaction_update none) c p same h = nil_transaction-Follows c p same
  update-Follows (transaction_update (some tx)) c p same (events, decodes) =
      decoded-Follows tx events c p same decodes
  update-Follows (block_meta_update meta) c p same h = block-Follows meta c p same
  update-Follows (account_update account) c p same h = record {
    decoders = ap (λ d. handle_account env.encode account d) same;
    new = [];
    sent = sym (append-nil c.sent);
    log = sym (append-nil p.log);
  }
  update-Follows (slot_update u) c p same h = absurd h
  update-Follows (block_update u) c p same h = nothing-Follows c p same
  update-Follows other_update c p same h = nothing-Follows c p same
