-- ===== src/Tests/CandleBridge.antt =====
-- cmd/candles: a batch of two candles and a message that cannot be read.
use lp_indexer.Prelude.{
  ℕ, ◌+◌, ◌*◌, ◌/◌, ◌^◌, ◌≡◌, refl, true, false, Option, none, some, List, [], ◌∷◌, map, length,
  ◌++◌,
}
use lp_indexer.Prelude.Bytes.{Bytes, codes, bytes_beq}
use lp_indexer.Prelude.Maps.{lookup, insert}
use lp_indexer.ClickHouse.Writer.{empty, flush_candles, add_candle, write_candles}
use lp_indexer.ClickHouse.Service.{Msg, timeout, batch}
use lp_indexer.Parquet.Keys.{bytes_eq, bucket_key, cut_at_bar, split_bucket_key}
use lp_indexer.Parquet.Writer.{
  Writer, Object, Candle, row_of, write_bucket, flush_bucket, flush_loop, flush_locked,
  append_candle,
}
use lp_indexer.Candles.{
  Floats, price_from_q32, volume_from_u128, translate_candle, Bridge, decode, ParquetNet,
  append_all, to_parquet, process,
}
use lp_indexer.Candles.Loop.{Round, context_done, fetched, close, on_fetch, main_loop}
use lp_indexer.Candles.Loop.Answers.{Answers, main_loop-Answers}
use lp_indexer.Candles.Batch.{Divides, Settles, process-Settles}

-- whole numbers for floats
abbrev floats : Floats ℕ
floats = record {
  zero_float = 0;
  q32_factor = 2 ^ 32;
  from_int64 = λ n. n;
  from_uint64 = λ n. n;
  divide = λ a b. a / b;
  add = λ a b. a + b;
  ldexp = λ a n. a * 2 ^ n;
}

abbrev candle : ℕ → Candle
candle price = record {
  chain_id = 501;
  pair_id = codes "SOL-USDC";
  pool_id = codes "pool";
  timeframe = codes "1m";
  window_start = 1700000000;
  provisional = false;
  is_correction = false;
  open_px_q32 = price * 2 ^ 32;
  high_px_q32 = price * 2 ^ 32;
  low_px_q32 = price * 2 ^ 32;
  close_px_q32 = price * 2 ^ 32;
  vol_base = none;
  vol_quote = some (record { hi = 0; lo = 7 });
  trades = 1;
}

abbrev msg : Bytes → Msg
msg payload = record { subject = codes "dex.sol.candle.pool.1m"; payload = payload }

abbrev candle_of : Bytes → Option Candle
candle_of [] = none
candle_of (price ∷ rest) = some (candle price)

abbrev bridge : Bridge ℕ
bridge = record {
  writer = record {
    batch_size = 2;
    trades_batch = empty;
    candles_batch = empty;
    trades_table = [];
    candles_table = [];
    inserts = 0;
  };
  parquet = some (record {
    batch_rows = 10;
    flush_interval = 1000;
    buckets = [];
    last_flush = 0;
    objects = [];
    uploads = 0;
  });
  acked = [];
  refused = [];
}

abbrev net : ParquetNet
net = record { uploaded = λ n. true; visit = λ l. map (λ b. b.0) l; now = λ w. 1; later = λ w. 2 }

abbrev msgs : List Msg
msgs = msg (5 ∷ []) ∷ msg [] ∷ msg (6 ∷ []) ∷ []

program : Unit {0}
unfolding bytes_beq lookup insert bucket_key cut_at_bar split_bucket_key write_bucket flush_bucket
    flush_loop flush_locked append_candle row_of flush_candles add_candle write_candles
    price_from_q32 volume_from_u128 translate_candle decode append_all to_parquet process
program = tt

both_written :
    ((process floats (λ n. true) net candle_of msgs bridge).0 ≡ none)
    × (map
          (λ c. c.open_price)
          (process floats (λ n. true) net candle_of msgs bridge).1.writer.candles_table
        ≡ 5 ∷ 6 ∷ [])
    × ((process floats (λ n. true) net candle_of msgs bridge).1.acked
        ≡ msg (5 ∷ []) ∷ msg (6 ∷ []) ∷ [])
    × ((process floats (λ n. true) net candle_of msgs bridge).1.refused ≡ msg [] ∷ [])
unfolding program
both_written = (refl, refl, refl, refl)

-- the insert fails: all is refused, and the candles stay in the batch
insert_fails :
    ((process floats (λ n. false) net candle_of msgs bridge).1.acked ≡ [])
    × ((process floats (λ n. false) net candle_of msgs bridge).1.refused
        ≡ msg [] ∷ msg (5 ∷ []) ∷ msg (6 ∷ []) ∷ [])
    × (length (process floats (λ n. false) net candle_of msgs bridge).1.writer.candles_batch.rows
        ≡ 2)
unfolding program
insert_fails = (refl, refl, refl)

process-Settles_example :
    (read : List Msg) × (bad : List Msg) × (candles : List Candle) × Divides candle_of msgs read
      candles bad
    × Settles floats read bad candles bridge (process floats (λ n. true) net candle_of msgs bridge)
process-Settles_example = process-Settles floats (λ n. true) net candle_of msgs bridge

abbrev rounds : List Round
rounds = fetched timeout ∷ fetched (batch msgs) ∷ context_done ∷ fetched (batch msgs) ∷ []

abbrev or_no_objects : Option Writer → List Object
or_no_objects none = []
or_no_objects (some w) = w.objects

looped :
    ((main_loop floats (λ n. true) net candle_of rounds bridge).refused ≡ msg [] ∷ [])
    × (map
          (λ o. length o.rows)
          (or_no_objects (main_loop floats (λ n. true) net candle_of rounds bridge).parquet)
        ≡ 2 ∷ [])
unfolding program close on_fetch main_loop
looped = (refl, refl)

main_loop-Answers_example :
    Answers candle_of (msgs ++ []) bridge (main_loop floats (λ n. true) net candle_of rounds bridge)
main_loop-Answers_example = main_loop-Answers candle_of floats (λ n. true) net rounds bridge
