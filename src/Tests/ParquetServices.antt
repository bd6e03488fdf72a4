-- ===== src/Tests/ParquetServices.antt =====
-- sinks/parquet/service.go: a batch with a message of another subject, two candles and a message that
-- cannot be read, and then one that the service never comes to.
use lp_indexer.Prelude.{ℕ, ◌≡◌, refl, Option, none, some, List, [], ◌∷◌, length}
use lp_indexer.Prelude.Bytes.{Bytes, codes, bytes_beq, has_prefix, contains}
use lp_indexer.ClickHouse.Service.{Msg, Round, ticked, quiet, timeout, batch, context_done}
use lp_indexer.Parquet.Writer.{
  row_of, write_bucket, flush_bucket, flush_loop, flush_locked, append_candle, Candle, Writer,
}
use lp_indexer.Prelude.Maps.{lookup, insert}
use lp_indexer.Parquet.Keys.{bucket_key, cut_at_bar, split_bucket_key}
use lp_indexer.Parquet.Service.{
  Sink, unmarshal_candle, handle_candle, handle_message, handle_all, fetched, run_round, run_rounds,
  run,
}
use lp_indexer.Parquet.Service.Settles.{Settles, run-Settles}
use lp_indexer.ClickHouse.Service.Keeps.Runs.{messages}
use lp_indexer.Tests.Parquets.{candle, new_writer, keys, always}

abbrev msg : Bytes → Msg
msg payload = record { subject = codes "dex.sol.candle.pool.1m"; payload = payload }

abbrev swap : Msg
swap = record { subject = codes "dex.sol.swap"; payload = [] }

abbrev pub candle_of : Bytes → Option Candle
candle_of [] = none
candle_of (n ∷ rest) = some (candle (codes "pool") n)

abbrev pub fresh : Sink
fresh = record { writer = new_writer; acked = []; refused = [] }

abbrev rounds : List Round
rounds =
    quiet timeout
    ∷ ticked (batch (swap ∷ msg (1 ∷ []) ∷ msg (2 ∷ []) ∷ msg [] ∷ msg (3 ∷ []) ∷ []))
    ∷ context_done
    ∷ []

abbrev pub clock : Writer → ℕ
clock w = 7

service_program : Unit {0}
unfolding bytes_beq lookup insert bucket_key cut_at_bar split_bucket_key write_bucket flush_bucket
    flush_loop flush_locked append_candle row_of has_prefix contains handle_candle handle_message
    handle_all fetched run_round run_rounds run
service_program = tt

ran :
    ((run always keys clock clock candle_of rounds fresh).0 ≡ some unmarshal_candle)
    × (length (run always keys clock clock candle_of rounds fresh).1.acked ≡ 3)
    × ((run always keys clock clock candle_of rounds fresh).1.refused ≡ msg [] ∷ [])
    × (length (run always keys clock clock candle_of rounds fresh).1.writer.objects ≡ 1)
unfolding service_program
ran = (refl, refl, refl, refl)

run-Settles_example :
    Settles always keys clock clock candle_of fresh
      (messages rounds)
      (run always keys clock clock candle_of rounds fresh)
run-Settles_example = run-Settles always keys clock clock candle_of fresh rounds
