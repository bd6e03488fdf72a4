-- ===== src/ClickHouse/Service.antt =====
-- sinks/clickhouse/service.go: the processor of messages and the loop of `Run`. Unmarshalling is a
-- parameter; the ticker and the context are part of what a round meets.
pub mod Rows
pub mod Keeps
pub mod Succeeds
use mathlib.Core.List.{reverse}
use lp_indexer.Prelude.{
  ℕ, ◌%◌, ◌^◌, ◌==◌, nat_eq, Bool, Option, none, some, List, [], ◌∷◌, ◌++◌, if◌then◌else◌,
}
use lp_indexer.Prelude.Bytes.{Bytes, codes, has_prefix, to_lower, bytes_beq}
use lp_indexer.Prelude.Maps.{lookup, insert, erase}
use lp_indexer.Dex.{SwapEvent, BlockHead}
use lp_indexer.Meteora.Decoder.{zero_time}
use lp_indexer.ClickHouse.Writer.{Trade, Writer, WriterError, write_trades, flush}

-- what the service reads of a `nats.Msg`
pub record Msg : Type 0 where
  pub subject : Bytes
  pub payload : Bytes

pub data ServiceError : Type 0 where
  context_canceled fetch_failed unmarshal_swap unmarshal_head : ServiceError
  write_failed : WriterError → ServiceError

-- `processor`, and the messages that the service has acknowledged and refused
pub record Sink (Float : Type 0) : Type 0 where
  pub writer : Writer Float
  pub slot_times : List (ℕ × ℕ)
  pub acked : List Msg
  pub refused : List Msg

-- one round of `Run`: the end of the context, a tick or not, and then what `Fetch` returns
pub data Fetch : Type 0 where
  timeout fetch_error : Fetch
  batch : List Msg → Fetch

pub data Round : Type 0 where
  context_done : Round
  ticked : Fetch → Round
  quiet : Fetch → Round

-- `strings.HasSuffix(s, suffix)`
unfoldable pub has_suffix : Bytes → Bytes → Bool
unfolding has_prefix
has_suffix s suffix = has_prefix (reverse s) (reverse suffix)

abbrev pub time_or_zero : Option ℕ → ℕ
time_or_zero none = zero_time
time_or_zero (some ts) = ts

-- the trade of `handleSwap`
unfoldable pub trade_of : List (ℕ × ℕ) → SwapEvent → Trade
trade_of slot_times event = record {
  chain_id = event.chain_id % 2 ^ 16;
  slot = event.slot;
  timestamp = time_or_zero (lookup event.slot slot_times);
  signature = event.sig;
  index = event.index;
  program_id = event.program_id;
  pool_id = event.pool_id;
  mint_base = event.mint_base;
  mint_quote = event.mint_quote;
  dec_base = event.dec_base % 2 ^ 8;
  dec_quote = event.dec_quote % 2 ^ 8;
  base_in = event.base_in;
  base_out = event.base_out;
  quote_in = event.quote_in;
  quote_out = event.quote_out;
  price_q32 = 0;
  reserves_base = event.reserves_base;
  reserves_quote = event.reserves_quote;
  fee_bps = event.fee_bps % 2 ^ 16;
  provisional = event.provisional;
  is_undo = event.is_undo;
}

-- `handleBlockHead`, of a head that is not nil
unfoldable pub head_times : BlockHead → List (ℕ × ℕ) → List (ℕ × ℕ)
unfolding to_lower bytes_beq
head_times head times =
    if head.ts_sec == zero_time
    then times
    else if bytes_beq (to_lower (codes head.status)) (codes "dead")
    then erase head.slot (insert head.slot head.ts_sec times)
    else insert head.slot head.ts_sec times

module _ {Float : Type 0} (takes : ℕ → Bool) (swap_of : Bytes → Option SwapEvent)
    (head_of : Bytes → Option BlockHead) where
  -- `WriteTrades` of one trade, and its error
  abbrev pub written :
      Option WriterError × Writer Float → Sink Float → Option ServiceError × Sink Float
  written (none, w) s = (none, record s { writer = w })
  written (some e, w) s = (some (write_failed e), record s { writer = w })

  unfoldable pub handle_swap : Option SwapEvent → Sink Float → Option ServiceError × Sink Float
  handle_swap none s = (some unmarshal_swap, s)
  handle_swap (some event) s =
      written (write_trades takes (trade_of s.slot_times event ∷ []) s.writer) s

  unfoldable pub handle_head : Option BlockHead → Sink Float → Option ServiceError × Sink Float
  handle_head none s = (some unmarshal_head, s)
  handle_head (some head) s = (none, record s { slot_times = head_times head s.slot_times })

  -- `handleMessage`
  unfoldable pub handle_message : Msg → Sink Float → Option ServiceError × Sink Float
  handle_message msg s =
      if has_suffix msg.subject (codes ".swap")
      then handle_swap (swap_of msg.payload) s
      else if has_suffix msg.subject (codes ".blocks.head")
      then handle_head (head_of msg.payload) s
      else (none, s)

  -- the `Nak` and `Ack` calls after `handleMessage`, and the rest of the loop
  abbrev pub settle :
      Msg
      → Option ServiceError × Sink Float
      → (Sink Float → Option ServiceError × Sink Float)
      → Option ServiceError × Sink Float
  settle msg (none, s) next = next (record s { acked = s.acked ++ msg ∷ [] })
  settle msg (some e, s) next = (some e, record s { refused = s.refused ++ msg ∷ [] })

  unfoldable pub handle_all : List Msg → Sink Float → Option ServiceError × Sink Float
  handle_all [] s = (none, s)
  handle_all (msg ∷ msgs) s = settle msg (handle_message msg s) (handle_all msgs)

  unfoldable pub fetched : Fetch → Sink Float → Option ServiceError × Sink Float
  fetched timeout s = (none, s)
  fetched fetch_error s = (some fetch_failed, s)
  fetched (batch msgs) s = handle_all msgs s

  abbrev pub and_then :
      Option ServiceError × Sink Float
      → (Sink Float → Option ServiceError × Sink Float)
      → Option ServiceError × Sink Float
  and_then (none, s) next = next s
  and_then (some e, s) next = (some e, s)

  -- one round of `Run`
  unfoldable pub run_round : Round → Sink Float → Option ServiceError × Sink Float
  run_round context_done s = (some context_canceled, s)
  run_round (ticked fetch) s = and_then (written (flush takes s.writer) s) (fetched fetch)
  run_round (quiet fetch) s = fetched fetch s

  unfoldable pub run_rounds : List Round → Sink Float → Option ServiceError × Sink Float
  run_rounds [] s = (none, s)
  run_rounds (round ∷ rounds) s = and_then (run_round round s) (run_rounds rounds)

  -- the deferred `Flush` of `Run`, whose error is dropped
  abbrev pub last_flush : Option ServiceError × Sink Float → Option ServiceError × Sink Float
  last_flush (none, s) = (none, s)
  last_flush (some e, s) = (some e, record s { writer = (flush takes s.writer).1 })

  -- `Run` over the rounds that it has made: no error means that it still runs
  unfoldable pub run : List Round → Sink Float → Option ServiceError × Sink Float
  run rounds s = last_flush (run_rounds rounds s)
