-- ===== src/Candles.antt =====
-- cmd/candles/main.go: `Process`, which writes a fetched batch of candles to ClickHouse and to Parquet
-- and then acknowledges it. Unmarshalling is a parameter, floats are any type with the operations used,
-- and the clock of the Parquet writer is a function of its state. `main`, which reads flags and connects,
-- is not modelled.
pub mod Batch
pub mod Loop
use lp_indexer.Prelude.{
  if◌then◌else◌, length, map, ◌==◌, nat_eq, ℕ, Bool, Option, none, some, List, [], ◌∷◌, ◌++◌,
}
use lp_indexer.Prelude.Bytes.{Bytes}
use lp_indexer.ClickHouse.Writer as ClickHouse
use lp_indexer.ClickHouse.Writer.{write_candles}
use lp_indexer.ClickHouse.Service.{Msg}
use lp_indexer.Parquet.Writer as Parquet
use lp_indexer.Parquet.Writer.{U128, Candle, CandleRow, append_candle}

-- the operations on floats that the conversion uses; an `int64` is its pattern of bits
pub record Floats (Float : Type 0) : Type 0 where
  pub zero_float : Float
  pub q32_factor : Float
  pub from_int64 : ℕ → Float
  pub from_uint64 : ℕ → Float
  pub divide : Float → Float → Float
  pub add : Float → Float → Float
  pub ldexp : Float → ℕ → Float

-- `Bridge`, and the messages that it has acknowledged and refused
pub record Bridge (Float : Type 0) : Type 0 where
  pub writer : ClickHouse.Writer Float
  pub parquet : Option Parquet.Writer
  pub acked : List Msg
  pub refused : List Msg

pub data BridgeError : Type 0 where
  clickhouse_failed : ClickHouse.WriterError → BridgeError
  parquet_failed : Parquet.WriterError → BridgeError

-- `parquetRows` and `ackMsgs`, and the messages refused on the way
pub record Decoded : Type 0 where
  pub candles : List Candle
  pub ack_msgs : List Msg
  pub undecoded : List Msg

abbrev pub decode_one : Msg → Option Candle → Decoded → Decoded
decode_one msg none rest = record rest { undecoded = msg ∷ rest.undecoded }
decode_one msg (some candle) rest = record rest {
  candles = candle ∷ rest.candles;
  ack_msgs = msg ∷ rest.ack_msgs;
}

-- the first loop of `Process`
unfoldable pub decode : (Bytes → Option Candle) → List Msg → Decoded
decode candle_of [] = record { candles = []; ack_msgs = []; undecoded = [] }
decode candle_of (msg ∷ msgs) = decode_one msg (candle_of msg.payload) (decode candle_of msgs)

module _ {Float : Type 0} (floats : Floats Float) where
  -- `priceFromQ32`
  unfoldable pub price_from_q32 : ℕ → Float
  price_from_q32 val = floats.divide (floats.from_int64 val) floats.q32_factor

  -- `volumeFromU128`
  unfoldable pub volume_from_u128 : Option U128 → Float
  volume_from_u128 none = floats.zero_float
  volume_from_u128 (some u) =
      floats.add (floats.ldexp (floats.from_uint64 u.hi) 64) (floats.from_uint64 u.lo)

  -- `translateCandle`
  unfoldable pub translate_candle : Candle → ClickHouse.Candle Float
  translate_candle c = record {
    timestamp = c.window_start;
    pool_id = c.pool_id;
    open_price = price_from_q32 c.open_px_q32;
    high = price_from_q32 c.high_px_q32;
    low = price_from_q32 c.low_px_q32;
    close = price_from_q32 c.close_px_q32;
    volume = volume_from_u128 c.vol_quote;
  }

-- how the uploads and the order of the buckets are chosen, and the times of an append in a state
pub record ParquetNet : Type 0 where
  pub uploaded : ℕ → Bool
  pub visit : List (Bytes × List CandleRow) → List Bytes
  pub now : Parquet.Writer → ℕ
  pub later : Parquet.Writer → ℕ

module _ (net : ParquetNet) where
  -- the loop over `AppendCandle`
  unfoldable pub append_all :
      List Candle → Parquet.Writer → Option Parquet.WriterError × Parquet.Writer
  append_all [] w = (none, w)
  append_all (candle ∷ candles) w =
      Parquet.and_then net.uploaded net.visit
        (append_candle net.uploaded net.visit (net.now w) (net.later w) (some candle) w)
        (append_all candles)

module _ {Float : Type 0} (floats : Floats Float) (takes : ℕ → Bool) (net : ParquetNet)
    (candle_of : Bytes → Option Candle) where
  -- `nakAll`, and the acknowledgements at the end, whose errors are only logged
  abbrev pub nak_all : List Msg → Bridge Float → Bridge Float
  nak_all msgs s = record s { refused = s.refused ++ msgs }

  abbrev pub ack_all : List Msg → Bridge Float → Bridge Float
  ack_all msgs s = record s { acked = s.acked ++ msgs }

  abbrev pub on_parquet :
      List Msg
      → Option Parquet.WriterError × Parquet.Writer
      → Bridge Float
      → Option BridgeError × Bridge Float
  on_parquet msgs (none, w) s = (none, ack_all msgs (record s { parquet = some w }))
  on_parquet msgs (some e, w) s =
      (some (parquet_failed e), nak_all msgs (record s { parquet = some w }))

  unfoldable pub to_parquet :
      Decoded → Option Parquet.Writer → Bridge Float → Option BridgeError × Bridge Float
  to_parquet d none s = (none, ack_all d.ack_msgs s)
  to_parquet d (some w) s = on_parquet d.ack_msgs (append_all net d.candles w) s

  abbrev pub on_clickhouse :
      Decoded
      → Option ClickHouse.WriterError × ClickHouse.Writer Float
      → Bridge Float
      → Option BridgeError × Bridge Float
  on_clickhouse d (none, w) s = to_parquet d s.parquet (record s { writer = w })
  on_clickhouse d (some e, w) s =
      (some (clickhouse_failed e), nak_all d.ack_msgs (record s { writer = w }))

  -- `Process`
  unfoldable pub process : List Msg → Bridge Float → Option BridgeError × Bridge Float
  process msgs s =
      let d = decode candle_of msgs in
      let s' = nak_all d.undecoded s in
      if length d.candles == 0
      then (none, s')
      else on_clickhouse d (write_candles takes (map (translate_candle floats) d.candles) s.writer)
          s'
