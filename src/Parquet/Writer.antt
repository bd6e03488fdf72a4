-- ===== src/Parquet/Writer.antt =====
-- sinks/parquet/writer.go: the buckets of candle rows. Whether the n-th upload succeeds and the order
-- in which Go visits the buckets are parameters, the clock is an argument, and what has been uploaded
-- is part of the state. Encoding the file and the path under which it is stored are the libraries'.
use lp_indexer.Prelude.{
  ℕ, suc, ◌-◌, ◌%◌, ◌^◌, ◌==◌, nat_eq, Bool, Option, none, some, List, [], ◌∷◌, ◌++◌, ◌||◌, leb,
  length, if◌then◌else◌,
}
use lp_indexer.Prelude.Bytes.{Bytes, codes, bytes_beq}
use lp_indexer.Prelude.Maps.{lookup, insert}
use lp_indexer.Parquet.Keys.{bytes_eq, bucket_key, split_bucket_key}

-- `U128` and `Candle` of gen/go/dex/sol/v1, without the two fields that the sink does not read
pub record U128 : Type 0 where
  pub hi : ℕ
  pub lo : ℕ

pub record Candle : Type 0 where
  pub chain_id : ℕ
  pub pair_id : Bytes
  pub pool_id : Bytes
  pub timeframe : Bytes
  pub window_start : ℕ
  pub provisional : Bool
  pub is_correction : Bool
  pub open_px_q32 : ℕ
  pub high_px_q32 : ℕ
  pub low_px_q32 : ℕ
  pub close_px_q32 : ℕ
  pub vol_base : Option U128
  pub vol_quote : Option U128
  pub trades : ℕ

-- `candleRow`; an int64 or int32 is its pattern of bits
pub record CandleRow : Type 0 where
  pub chain_id : ℕ
  pub pair_id : Bytes
  pub pool_id : Bytes
  pub scope : Bytes
  pub timeframe : Bytes
  pub window_start : ℕ
  pub provisional : Bool
  pub is_correction : Bool
  pub open_px_q32 : ℕ
  pub high_px_q32 : ℕ
  pub low_px_q32 : ℕ
  pub close_px_q32 : ℕ
  pub vol_base_hi : ℕ
  pub vol_base_lo : ℕ
  pub vol_quote_hi : ℕ
  pub vol_quote_lo : ℕ
  pub trades : ℕ

-- an uploaded object, with the key of the bucket that it comes from
pub record Object : Type 0 where
  pub bucket : Bytes
  pub timeframe : Bytes
  pub scope : Bytes
  pub rows : List CandleRow

pub data WriterError : Type 0 where
  nil_candle upload_failed : WriterError

-- `Writer`
pub record Writer : Type 0 where
  pub batch_rows : ℕ
  pub flush_interval : ℕ
  pub buckets : List (Bytes × List CandleRow)
  pub last_flush : ℕ
  pub objects : List Object
  pub uploads : ℕ

abbrev or_zero : Option U128 → U128
or_zero none = record { hi = 0; lo = 0 }
or_zero (some n) = n

abbrev pub or_empty : Option (List CandleRow) → List CandleRow
or_empty none = []
or_empty (some rows) = rows

abbrev pub timeframe_of : Candle → Bytes
timeframe_of candle = if bytes_beq candle.timeframe [] then codes "unknown" else candle.timeframe

abbrev pub scope_of : Candle → Bytes
scope_of candle = if bytes_beq candle.pool_id [] then codes "pair" else codes "pool"

-- the row of `AppendCandle`
unfoldable pub row_of : Candle → CandleRow
row_of candle = record {
  chain_id = candle.chain_id % 2 ^ 32;
  pair_id = candle.pair_id;
  pool_id = candle.pool_id;
  scope = scope_of candle;
  timeframe = timeframe_of candle;
  window_start = candle.window_start;
  provisional = candle.provisional;
  is_correction = candle.is_correction;
  open_px_q32 = candle.open_px_q32;
  high_px_q32 = candle.high_px_q32;
  low_px_q32 = candle.low_px_q32;
  close_px_q32 = candle.close_px_q32;
  vol_base_hi = (or_zero candle.vol_base).hi;
  vol_base_lo = (or_zero candle.vol_base).lo;
  vol_quote_hi = (or_zero candle.vol_quote).hi;
  vol_quote_lo = (or_zero candle.vol_quote).lo;
  trades = candle.trades;
}

-- `w.buckets[key]`
abbrev pub rows_at : Bytes → Writer → List CandleRow
rows_at key w = or_empty (lookup key w.buckets)

module _ (uploaded : ℕ → Bool) (visit : List (Bytes × List CandleRow) → List Bytes) where
  -- `writeBucket`
  unfoldable pub write_bucket : Bytes → List CandleRow → Writer → Option WriterError × Writer
  write_bucket key rows w =
      if uploaded w.uploads
      then (
        none,
        record w {
          uploads = suc w.uploads;
          objects =
              w.objects
              ++ record {
                bucket = key;
                timeframe = (split_bucket_key key).0;
                scope = (split_bucket_key key).1;
                rows = rows;
              }
                ∷ [];
        },
      )
      else (some upload_failed, record w { uploads = suc w.uploads })

  abbrev pub emptied : Bytes → Option WriterError × Writer → Option WriterError × Writer
  emptied key (none, w) = (none, record w { buckets = insert key [] w.buckets })
  emptied key (some e, w) = (some e, w)

  -- one round of the loop of `flushLocked`
  unfoldable pub flush_bucket : Bytes → Writer → Option WriterError × Writer
  flush_bucket key w =
      if length (rows_at key w) == 0
      then (none, w)
      else emptied key (write_bucket key (rows_at key w) w)

  abbrev pub and_then :
      Option WriterError × Writer
      → (Writer → Option WriterError × Writer)
      → Option WriterError × Writer
  and_then (none, w) next = next w
  and_then (some e, w) next = (some e, w)

  unfoldable pub flush_loop : List Bytes → Writer → Option WriterError × Writer
  flush_loop [] w = (none, w)
  flush_loop (key ∷ keys) w = and_then (flush_bucket key w) (flush_loop keys)

  -- `flushLocked`, which ends at the time `later`
  unfoldable pub flush_locked : ℕ → Writer → Option WriterError × Writer
  flush_locked later w =
      if length w.buckets == 0
      then (none, w)
      else and_then (flush_loop (visit w.buckets) w)
          (λ w'. (none, record w' { last_flush = later }))

  -- `AppendCandle` at the time `now`
  unfoldable pub append_candle : ℕ → ℕ → Option Candle → Writer → Option WriterError × Writer
  append_candle now later none w = (some nil_candle, w)
  append_candle now later (some candle) w =
      let key = bucket_key (timeframe_of candle) (scope_of candle) in
      let bucket = rows_at key w ++ row_of candle ∷ [] in
      let w' = record w { buckets = insert key bucket w.buckets } in
      let flushed = flush_locked later w' in
      if leb w.batch_rows (length bucket) || leb w.flush_interval (now - w.last_flush)
      then flushed
      else (none, w')
