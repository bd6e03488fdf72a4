-- ===== src/HeliusClient.antt =====
-- ingestor/helius/client.go: the client that turns the updates of a stream into canonical ones, and its
-- health. Whether a send finds a reader before the context is done, and whether the channel of errors has
-- room, are functions of the number of sends so far; the stream's events are a list.
pub mod Updates
pub mod Agrees
pub mod Settings
use lp_indexer.Prelude.{
  ℕ, suc, ◌==◌, nat_eq, ◌<◌, ltb, Bool, true, false, String, Option, none, some, List, [], ◌∷◌,
  ◌++◌, Result, ok, err, if◌then◌else◌, not,
}
use lp_indexer.Dex.{SwapEvent, BlockHead, TxMeta}
use lp_indexer.TxMeta.{convert_tx_meta}
use lp_indexer.Yellowstone.{
  TransactionUpdate, BlockMetaUpdate, SubscribeUpdate, transaction_update, block_meta_update,
  account_update, slot_update, block_update, other_update,
}
use lp_indexer.SwapDecoder.State.{Decoder, handle_block_meta, handle_account}
use lp_indexer.SwapDecoder.Decode.{Env, DecodeError, decode_transaction}
use lp_indexer.Stream.Helius.{extract_slot}

-- `Update`, of which one field is set
pub data Update : Type 0 where
  block_head : BlockHead → Update
  tx_meta : TxMeta → Update
  swap : SwapEvent → Update

-- `HealthSnapshot`
pub record Health : Type 0 where
  pub last_heartbeat : ℕ
  pub last_slot : ℕ
  pub healthy : Bool
  pub source : String

pub data ClientError : Type 0 where
  init_failed connect_failed stream_failed : ClientError
  decode_failed : DecodeError → ClientError

-- `Client`, with the updates and the errors that it has sent and the number of sends tried
pub record Client : Type 0 where
  pub decoder : Decoder
  pub health : Health
  pub sent : List Update
  pub errors : List ClientError
  pub tried : ℕ

-- what the `select` of `run` takes: the context's end, an error or nil from the channel of errors, an
-- update at a time, or the end of the channel of updates
pub data Event : Type 0 where
  context_done no_error updates_closed : Event
  stream_error : Event
  stream_update : ℕ → SubscribeUpdate → Event

module _ (env : Env) (taken : ℕ → Bool) where
  -- `sendUpdate`
  unfoldable pub send_update : Update → Client → Client
  send_update update c =
      if taken c.tried
      then record c { sent = c.sent ++ update ∷ []; tried = suc c.tried }
      else record c { tried = suc c.tried }

  unfoldable pub send_swaps : List SwapEvent → Client → Client
  send_swaps [] c = c
  send_swaps (ev ∷ events) c = send_swaps events (send_update (swap ev) c)

  abbrev pub send_meta : Option TxMeta → Client → Client
  send_meta none c = c
  send_meta (some meta) c = send_update (tx_meta meta) c

  abbrev pub on_decoded : Result DecodeError (List SwapEvent) → Client → Option ClientError × Client
  on_decoded (err e) c = (some (decode_failed e), c)
  on_decoded (ok events) c = (none, send_swaps events c)

  -- the block head of an update of a block's metadata
  abbrev pub seconds_or_zero : Option ℕ → ℕ
  seconds_or_zero none = 0
  seconds_or_zero (some ts) = ts

  unfoldable pub head_of : BlockMetaUpdate → BlockHead
  head_of meta = record {
    chain_id = 501;
    slot = meta.slot;
    ts_sec = seconds_or_zero meta.block_time;
    status = "confirmed";
  }

  abbrev pub send_head : Option BlockMetaUpdate → Client → Client
  send_head none c = c
  send_head (some meta) c = send_update (block_head (head_of meta)) c

  -- `handleSubscribeUpdate`
  unfoldable pub handle_subscribe_update : SubscribeUpdate → Client → Option ClientError × Client
  handle_subscribe_update (block_meta_update meta) c =
      (none, send_head meta (record c { decoder = handle_block_meta meta c.decoder }))
  handle_subscribe_update (account_update account) c =
      (none, record c { decoder = handle_account env.encode account c.decoder })
  handle_subscribe_update (transaction_update tx) c =
      on_decoded (decode_transaction env c.decoder tx) (send_meta (convert_tx_meta env.encode tx) c)
  handle_subscribe_update (slot_update u) c = (none, c)
  handle_subscribe_update (block_update u) c = (none, c)
  handle_subscribe_update other_update c = (none, c)

  abbrev pub unhealthy : Client → Client
  unhealthy c = record c { health = record c.health { healthy = false } }

  -- the health after an update
  unfoldable pub beat : ℕ → ℕ → Health → Health
  beat now slot h = record {
    last_heartbeat = now;
    last_slot = if ltb 0 slot then slot else h.last_slot;
    healthy = true;
    source = "grpc";
  }

  -- a send to the channel of errors, which drops the error where the channel is full
  abbrev pub report : Bool → ClientError → Client → Client
  report has_room e c = record c { errors = if has_room then c.errors ++ e ∷ [] else c.errors }

  abbrev pub report_result : Bool → Option ClientError × Client → Client
  report_result has_room (none, c) = c
  report_result has_room (some e, c) = report has_room e c

  module _ (has_room : ℕ → Bool) where
    -- one event of the loop of `run` that does not end it
    unfoldable pub on_update : ℕ → SubscribeUpdate → Client → Client
    on_update now u c =
        report_result (has_room c.tried)
          (handle_subscribe_update u (record c { health = beat now (extract_slot u) c.health }))

    unfoldable pub on_error : Client → Client
    on_error c =
        report (has_room c.tried) stream_failed
          (record c { health = record c.health { healthy = false; source = "grpc" } })

    -- the loop of `run`; `true` once it has returned
    unfoldable pub event_loop : List Event → Client → Bool × Client
    event_loop [] c = (false, c)
    event_loop (context_done ∷ events) c = (true, unhealthy c)
    event_loop (no_error ∷ events) c = event_loop events c
    event_loop (updates_closed ∷ events) c = (true, unhealthy c)
    event_loop (stream_error ∷ events) c = event_loop events (on_error c)
    event_loop (stream_update now u ∷ events) c = event_loop events (on_update now u c)

    -- `run`: whether the stream client can be made and connects, when, and the events
    unfoldable pub run : Bool → Bool → ℕ → List Event → Client → Bool × Client
    run makes connects now events c =
        if not makes
        then (true, report (has_room c.tried) init_failed c)
        else if not connects
        then (true, report (has_room c.tried) connect_failed c)
        else event_loop events (record c {
          health = record c.health { healthy = true; source = "grpc"; last_heartbeat = now };
        })
