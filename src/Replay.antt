-- ===== src/Replay.antt =====
-- cmd/tools/sinkreplay/main.go: the messages that the tool publishes for the events of a fixture. Reading
-- and parsing the fixture, marshalling, and what the server answers are parameters; the pauses between two
-- events are left out. Floats do not occur.
use lp_indexer.Prelude.{
  ℕ, suc, ◌==◌, nat_eq, string_eq, Bool, true, false, String, Option, none, some, List, [], ◌∷◌,
  ◌++◌, Result, ok, err, if◌then◌else◌, ltb, length, take,
}
use lp_indexer.Prelude.Bytes.{Bytes, codes, to_lower}
use lp_indexer.Prelude.Decimal.{to_decimal}
use lp_indexer.Dex.{SwapEvent, BlockHead, TxMeta}
use lp_indexer.Environment.{is_empty}
use lp_indexer.Parquet.Writer.{U128, Candle}
use lp_indexer.Publisher.Outputs.{truth}

-- `event`, without the pause
pub record Event : Type 0 where
  pub kind : String
  pub slot : ℕ
  pub chain_id : ℕ
  pub timestamp : ℕ
  pub status : String
  pub signature : String
  pub index : ℕ
  pub program_id : String
  pub pool_id : String
  pub pair_id : String
  pub mint_base : String
  pub mint_quote : String
  pub dec_base : ℕ
  pub dec_quote : ℕ
  pub base_in : ℕ
  pub base_out : ℕ
  pub quote_in : ℕ
  pub quote_out : ℕ
  pub reserves_base : ℕ
  pub reserves_quote : ℕ
  pub fee_bps : ℕ
  pub provisional : Option Bool
  pub is_undo : Bool
  pub is_correction : Option Bool
  pub success : Option Bool
  pub log_msgs : List Bytes
  pub timeframe : Bytes
  pub window_start : ℕ
  pub open_px_q32 : ℕ
  pub high_px_q32 : ℕ
  pub low_px_q32 : ℕ
  pub close_px_q32 : ℕ
  pub vol_base : ℕ
  pub vol_quote : ℕ
  pub trades : ℕ

-- the protobuf message of an event
pub data Message : Type 0 where
  head : BlockHead → Message
  meta : TxMeta → Message
  swap : SwapEvent → Message
  candle : Candle → Message

-- a message with its subject and its id
pub record Outgoing : Type 0 where
  pub subject : Bytes
  pub message : Message
  pub id : Bytes

pub data ReplayError : Type 0 where
  cancelled : ℕ → ReplayError
  unsupported : String → ReplayError
  marshal_failed publish_failed publish_cancelled publish_timeout : ReplayError

-- `chainID` of `publishEvent`
abbrev pub chain : Event → ℕ
chain ev = if ev.chain_id == 0 then 501 else ev.chain_id

abbrev pub or_bool : Bool → Option Bool → Bool
or_bool default none = default
or_bool default (some b) = b

-- `programSegment`
unfoldable pub program_segment : String → Bytes
program_segment program_id =
    if program_id == ""
    then codes "unknown"
    else if program_id == "CAMMCzo5YL8w4VFF8KVHrK22GGUsp5VTaW7grrKgrWqK"
    then codes "raydium"
    else if program_id == "whirLbMiicVdio4qvUfM5KAg6Ct8VwpYzGff3uctyCc"
    then codes "orca"
    else if program_id == "cpamdpZCGKUy5JxQXB4dcpGPiikHawvSWAd6mEn1sGG"
    then codes "meteora"
    else if ltb 12 (length (codes program_id))
    then take 12 (codes program_id)
    else codes program_id

-- `%d:`
abbrev pub number : ℕ → Bytes → Bytes
number n rest = to_decimal n ++ b':' ∷ rest

-- the case "block_head"
unfoldable pub head_of : Bytes → Event → Outgoing
head_of root ev = record {
  subject = root ++ codes ".blocks.head";
  message =
      head
        (record { chain_id = chain ev; slot = ev.slot; ts_sec = ev.timestamp; status = ev.status });
  id = number (chain ev) (number ev.slot (codes "head" ++ b':' ∷ codes ev.status));
}

-- the case "tx_meta"
unfoldable pub meta_of : Bytes → Event → Outgoing
meta_of root ev = record {
  subject = root ++ codes ".tx.meta";
  message = meta (record {
    chain_id = chain ev;
    slot = ev.slot;
    sig = ev.signature;
    success = or_bool true ev.success;
    cu_used = 0;
    cu_price = 0;
    log_msgs = ev.log_msgs;
  });
  id = number (chain ev) (number ev.slot (codes ev.signature ++ b':' ∷ codes "meta"));
}

-- the case "swap"
unfoldable pub swap_of : Bytes → Event → Outgoing
unfolding program_segment
swap_of root ev =
    let provisional = or_bool true ev.provisional in
    record {
      subject = root ++ (codes "." ++ (program_segment ev.program_id ++ codes ".swap"));
      message = swap (record {
        chain_id = chain ev;
        slot = ev.slot;
        sig = ev.signature;
        index = ev.index;
        program_id = ev.program_id;
        pool_id = ev.pool_id;
        mint_base = ev.mint_base;
        mint_quote = ev.mint_quote;
        dec_base = ev.dec_base;
        dec_quote = ev.dec_quote;
        base_in = ev.base_in;
        base_out = ev.base_out;
        quote_in = ev.quote_in;
        quote_out = ev.quote_out;
        sqrt_price_q64_pre = 0;
        sqrt_price_q64_post = 0;
        reserves_base = ev.reserves_base;
        reserves_quote = ev.reserves_quote;
        fee_bps = ev.fee_bps;
        provisional = provisional;
        is_undo = ev.is_undo;
      });
      id = number (chain ev) (
          number ev.slot (
            codes ev.signature
            ++ b':' ∷ number ev.index (truth provisional ++ b':' ∷ truth ev.is_undo)));
    }

abbrev pub volume : ℕ → Option U128
volume n = if n == 0 then none else some (record { hi = 0; lo = n })

-- the case "candle"
unfoldable pub candle_of : Bytes → Event → Outgoing
unfolding to_lower
candle_of root ev =
    let scope = if is_empty (codes ev.pool_id) then codes "pair" else codes "pool" in
    let primary = if is_empty (codes ev.pool_id) then codes ev.pair_id else codes ev.pool_id in
    let timeframe = if is_empty ev.timeframe then codes "unknown" else ev.timeframe in
    record {
      subject = root ++ (codes ".candle." ++ (scope ++ b'.' ∷ to_lower timeframe));
      message = candle (record {
        chain_id = chain ev;
        pair_id = codes ev.pair_id;
        pool_id = codes ev.pool_id;
        timeframe = timeframe;
        window_start = ev.window_start;
        provisional = or_bool false ev.provisional;
        is_correction = or_bool false ev.is_correction;
        open_px_q32 = ev.open_px_q32;
        high_px_q32 = ev.high_px_q32;
        low_px_q32 = ev.low_px_q32;
        close_px_q32 = ev.close_px_q32;
        vol_base = volume ev.vol_base;
        vol_quote = volume ev.vol_quote;
        trades = ev.trades;
      });
      id = number (chain ev) (
          scope
          ++ b':' ∷ (primary ++ b':' ∷ (to_lower timeframe ++ b':' ∷ to_decimal ev.window_start)));
    }

-- the switch of `publishEvent`
unfoldable pub outgoing : Bytes → Event → Result ReplayError Outgoing
unfolding head_of meta_of swap_of candle_of
outgoing root ev =
    if ev.kind == "block_head"
    then ok (head_of root ev)
    else if ev.kind == "tx_meta"
    then ok (meta_of root ev)
    else if ev.kind == "swap"
    then ok (swap_of root ev)
    else if ev.kind == "candle"
    then ok (candle_of root ev)
    else err (unsupported ev.kind)

-- whether marshalling and `publishProto` succeed, and whether the context is done before the n-th event
pub record Net : Type 0 where
  pub marshals : Message → Bool
  pub publishes : Outgoing → Option ReplayError
  pub done : ℕ → Bool

module _ (net : Net) (root : Bytes) where
  abbrev pub send : Result ReplayError Outgoing → Option ReplayError × List Outgoing
  send (err e) = (some e, [])
  send (ok msg) =
      if net.marshals msg.message then (net.publishes msg, msg ∷ []) else (some marshal_failed, [])

  abbrev pub and_then :
      Option ReplayError × List Outgoing
      → Option ReplayError × List Outgoing
      → Option ReplayError × List Outgoing
  and_then (some e, sent) rest = (some e, sent)
  and_then (none, sent) (e, later) = (e, sent ++ later)

  -- the loop of `main`, from the n-th event on, with the messages that it sends
  unfoldable pub replay : ℕ → List Event → Option ReplayError × List Outgoing
  unfolding outgoing
  replay n [] = (none, [])
  replay n (ev ∷ events) =
      let rest = replay (suc n) events in
      if net.done n then (some (cancelled n), []) else and_then (send (outgoing root ev)) rest
