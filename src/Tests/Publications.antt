-- ===== src/Tests/Publications.antt =====
-- sinks/nats/publisher.go: a candle of one minute and one of five, which start together.
use lp_indexer.Prelude.{◌≡◌, refl, ◌↔◌, some, [], nat_eq, ◌∷◌}
use lp_indexer.Prelude.Bytes.{codes, bytes_beq}
use lp_indexer.Prelude.Decimal.{to_decimal, decimal_loop, NoColon}
use lp_indexer.Parquet.Writer.{Candle}
use lp_indexer.Publisher.Outputs.{
  Outgoing, Answer, acked, publish, unexpected_stream, candle_subject, candle_id, publish_candle,
}
use lp_indexer.Publisher.Outputs.CandleIds.{SameWindow, candle_id_iff}
use lp_indexer.Publisher.Routes.{Routes, subject-Routes}
use lp_indexer.Tests.Parquets.{candle, keys, always}
use lp_indexer.Tests.ParquetServices.{clock, candle_of, fresh}
use lp_indexer.Tests.Sinks.{takes, swap_of, head_of, sink}

abbrev one : Candle
one = record (candle (codes "pool") 1) { window_start = 60 }

abbrev five : Candle
five = record (candle (codes "pool") 4) { window_start = 60; timeframe = codes "5m" }

abbrev elsewhere : Outgoing → Answer
elsewhere msg = acked (some (codes "OTHER"))

program : Unit {0}
unfolding bytes_beq to_decimal decimal_loop publish candle_subject candle_id publish_candle
program = tt

published :
    (candle_id one ≡ codes "501:SOL-USDC:pool:60:false")
    × (candle_subject (codes "dex.sol") five ≡ codes "dex.sol.candle.pool.5m")
    × ((publish_candle (codes "DEX") (codes "dex.sol") elsewhere (λ c. some []) (some one)).0
        ≡ some (unexpected_stream (codes "OTHER")))
unfolding program
published = (refl, refl, refl)

abbrev no_colon : NoColon (codes "SOL-USDC")
no_colon = (refl, (refl, (refl, (refl, (refl, (refl, (refl, (refl, tt))))))))

abbrev no_colon_in_pool : NoColon (codes "pool")
no_colon_in_pool = (refl, (refl, (refl, (refl, tt))))

candle_id_iff_example : (candle_id one ≡ candle_id five) ↔ SameWindow one five
candle_id_iff_example = candle_id_iff one five no_colon no_colon no_colon_in_pool no_colon_in_pool

subject-Routes_example :
    Routes takes swap_of head_of always keys clock clock candle_of
      (codes "dex.sol")
      (1 ∷ [])
      sink
      fresh
subject-Routes_example =
    subject-Routes takes swap_of head_of always keys clock clock candle_of (codes "dex.sol")
      (1 ∷ []) sink fresh
