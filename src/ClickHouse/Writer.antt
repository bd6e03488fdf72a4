-- ===== src/ClickHouse/Writer.antt =====
-- sinks/clickhouse/writer.go: the batches of trades and candles. A batch's columns grow together, so a
-- batch is a list of rows. Whether the database takes the n-th insert is a parameter; what it has taken
-- is part of the state. The connection and its options are the client's.
use lp_indexer.Prelude.Bytes.{Bytes}
use lp_indexer.Prelude.{
  ℕ, suc, ◌+◌, ◌==◌, nat_eq, Bool, String, Option, none, some, List, [], ◌∷◌, ◌++◌, leb,
  if◌then◌else◌,
}

-- `Trade`
pub record Trade : Type 0 where
  pub chain_id : ℕ
  pub slot : ℕ
  pub timestamp : ℕ
  pub signature : String
  pub index : ℕ
  pub program_id : String
  pub pool_id : String
  pub mint_base : String
  pub mint_quote : String
  pub dec_base : ℕ
  pub dec_quote : ℕ
  pub base_in : ℕ
  pub base_out : ℕ
  pub quote_in : ℕ
  pub quote_out : ℕ
  pub price_q32 : ℕ
  pub reserves_base : ℕ
  pub reserves_quote : ℕ
  pub fee_bps : ℕ
  pub provisional : Bool
  pub is_undo : Bool

-- `Candle`, over a type of floats
pub record Candle (Float : Type 0) : Type 0 where
  pub timestamp : ℕ
  pub pool_id : Bytes
  pub open_price : Float
  pub high : Float
  pub low : Float
  pub close : Float
  pub volume : Float

-- `tradeBatch` and `candleBatch`
pub record Batch (Row : Type 0) : Type 0 where
  pub rows : List Row
  pub count : ℕ

pub data WriterError : Type 0 where
  flush_trades_failed flush_candles_failed : WriterError

-- `Writer`, with the rows of the database's two tables and the number of inserts tried
pub record Writer (Float : Type 0) : Type 0 where
  pub batch_size : ℕ
  pub trades_batch : Batch Trade
  pub candles_batch : Batch (Candle Float)
  pub trades_table : List Trade
  pub candles_table : List (Candle Float)
  pub inserts : ℕ

abbrev pub empty : {Row : Type 0} → Batch Row
empty = record { rows = []; count = 0 }

-- the `Append` calls on the columns, and `count++`
abbrev pub append : {Row : Type 0} → Row → Batch Row → Batch Row
append row batch = record { rows = batch.rows ++ row ∷ []; count = batch.count + 1 }

module _ {Float : Type 0} (takes : ℕ → Bool) where
  -- `flushTrades`
  unfoldable pub flush_trades : Writer Float → Option WriterError × Writer Float
  flush_trades w =
      if w.trades_batch.count == 0
      then (none, w)
      else if takes w.inserts
      then (
        none,
        record w {
          trades_batch = empty;
          trades_table = w.trades_table ++ w.trades_batch.rows;
          inserts = suc w.inserts;
        },
      )
      else (some flush_trades_failed, record w { inserts = suc w.inserts })

  -- `flushCandles`
  unfoldable pub flush_candles : Writer Float → Option WriterError × Writer Float
  flush_candles w =
      if w.candles_batch.count == 0
      then (none, w)
      else if takes w.inserts
      then (
        none,
        record w {
          candles_batch = empty;
          candles_table = w.candles_table ++ w.candles_batch.rows;
          inserts = suc w.inserts;
        },
      )
      else (some flush_candles_failed, record w { inserts = suc w.inserts })

  -- the rest of a method after a result without error
  abbrev pub and_then :
      Option WriterError × Writer Float
      → (Writer Float → Option WriterError × Writer Float)
      → Option WriterError × Writer Float
  and_then (none, w) next = next w
  and_then (some e, w) next = (some e, w)

  -- one round of the loop of `WriteTrades`
  unfoldable pub add_trade : Trade → Writer Float → Option WriterError × Writer Float
  add_trade trade w =
      let w' = record w { trades_batch = append trade w.trades_batch } in
      let flushed = flush_trades w' in
      if leb w.batch_size (w.trades_batch.count + 1) then flushed else (none, w')

  -- `WriteTrades`
  unfoldable pub write_trades : List Trade → Writer Float → Option WriterError × Writer Float
  write_trades [] w = (none, w)
  write_trades (trade ∷ trades) w = and_then (add_trade trade w) (write_trades trades)

  -- one round of the loop of `WriteCandles`, and the method
  unfoldable pub add_candle : Candle Float → Writer Float → Option WriterError × Writer Float
  add_candle candle w =
      let w' = record w { candles_batch = append candle w.candles_batch } in
      let flushed = flush_candles w' in
      if leb w.batch_size (w.candles_batch.count + 1) then flushed else (none, w')

  unfoldable pub write_candles :
      List (Candle Float) → Writer Float → Option WriterError × Writer Float
  write_candles [] w = (none, w)
  write_candles (candle ∷ candles) w = and_then (add_candle candle w) (write_candles candles)

  -- `Flush`
  unfoldable pub flush : Writer Float → Option WriterError × Writer Float
  flush w = and_then (flush_trades w) flush_candles
