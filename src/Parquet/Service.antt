-- ===== src/Parquet/Service.antt =====
-- sinks/parquet/service.go: the loop of `Run` and `handleMessage`. The rounds of the loop are those of the
-- ClickHouse sink's service: a tick or none, the end of the context, and what `Fetch` returns.
-- Unmarshalling is a parameter, and the clock of the writer a function of its state. `NewService`, which
-- connects, is not modelled.
pub mod Messages
pub mod Settles
use lp_indexer.Prelude.{ℕ, Bool, Option, none, some, List, [], ◌∷◌, ◌++◌, if◌then◌else◌}
use lp_indexer.Prelude.Bytes.{Bytes, codes, contains}
use lp_indexer.ClickHouse.Service.{
  Msg, Fetch, timeout, fetch_error, batch, Round, context_done, ticked, quiet,
}
use lp_indexer.Parquet.Writer.{Candle, CandleRow, Writer, WriterError, flush_locked, append_candle}

pub data ServiceError : Type 0 where
  context_canceled fetch_failed unmarshal_candle : ServiceError
  write_failed : WriterError → ServiceError

-- the writer of `Service`, and the messages that the service has acknowledged and refused
pub record Sink : Type 0 where
  pub writer : Writer
  pub acked : List Msg
  pub refused : List Msg

module _ (uploaded : ℕ → Bool) (visit : List (Bytes × List CandleRow) → List Bytes)
    (now later : Writer → ℕ) (candle_of : Bytes → Option Candle) where
  -- a call of the writer, and its error
  abbrev pub written : Option WriterError × Writer → Sink → Option ServiceError × Sink
  written (none, w) s = (none, record s { writer = w })
  written (some e, w) s = (some (write_failed e), record s { writer = w })

  unfoldable pub handle_candle : Option Candle → Sink → Option ServiceError × Sink
  handle_candle none s = (some unmarshal_candle, s)
  handle_candle (some candle) s =
      written (append_candle uploaded visit (now s.writer) (later s.writer) (some candle) s.writer)
        s

  -- `handleMessage`
  unfoldable pub handle_message : Msg → Sink → Option ServiceError × Sink
  unfolding contains
  handle_message msg s =
      if contains msg.subject (codes ".candle.")
      then handle_candle (candle_of msg.payload) s
      else (none, s)

  -- the `Nak` and `Ack` calls after `handleMessage`, and the rest of the loop
  abbrev pub settle :
      Msg
      → Option ServiceError × Sink
      → (Sink → Option ServiceError × Sink)
      → Option ServiceError × Sink
  settle msg (none, s) next = next (record s { acked = s.acked ++ msg ∷ [] })
  settle msg (some e, s) next = (some e, record s { refused = s.refused ++ msg ∷ [] })

  unfoldable pub handle_all : List Msg → Sink → Option ServiceError × Sink
  handle_all [] s = (none, s)
  handle_all (msg ∷ msgs) s = settle msg (handle_message msg s) (handle_all msgs)

  unfoldable pub fetched : Fetch → Sink → Option ServiceError × Sink
  fetched timeout s = (none, s)
  fetched fetch_error s = (some fetch_failed, s)
  fetched (batch msgs) s = handle_all msgs s

  -- the writer's `Flush`
  abbrev pub flush : Writer → Option WriterError × Writer
  flush w = flush_locked uploaded visit (later w) w

  abbrev pub and_then :
      Option ServiceError × Sink → (Sink → Option ServiceError × Sink) → Option ServiceError × Sink
  and_then (none, s) next = next s
  and_then (some e, s) next = (some e, s)

  -- one round of `Run`
  unfoldable pub run_round : Round → Sink → Option ServiceError × Sink
  run_round context_done s = (some context_canceled, s)
  run_round (ticked fetch) s = and_then (written (flush s.writer) s) (fetched fetch)
  run_round (quiet fetch) s = fetched fetch s

  unfoldable pub run_rounds : List Round → Sink → Option ServiceError × Sink
  run_rounds [] s = (none, s)
  run_rounds (round ∷ rounds) s = and_then (run_round round s) (run_rounds rounds)

  -- the deferred `Close` of the writer, which flushes it; its error is dropped
  abbrev pub close : Option ServiceError × Sink → Option ServiceError × Sink
  close (none, s) = (none, s)
  close (some e, s) = (some e, record s { writer = (flush s.writer).1 })

  -- `Run` over the rounds that it has made: no error means that it still runs
  unfoldable pub run : List Round → Sink → Option ServiceError × Sink
  run rounds s = close (run_rounds rounds s)
