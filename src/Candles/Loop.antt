-- ===== src/Candles/Loop.antt =====
-- cmd/candles/main.go: the loop of `main` over the rounds that it has made, and the deferred `Close` of the
-- Parquet writer. The errors of `Process` and of `Fetch` are only logged.
pub mod Answers
use lp_indexer.Prelude.{ℕ, Bool, Option, none, some, List, [], ◌∷◌, ◌++◌}
use lp_indexer.Prelude.Bytes.{Bytes}
use lp_indexer.ClickHouse.Service.{Msg, Fetch, timeout, fetch_error, batch}
use lp_indexer.Parquet.Writer as Parquet
use lp_indexer.Parquet.Writer.{Candle, flush_locked}
use lp_indexer.Candles.{Floats, Bridge, ParquetNet, process}

-- one round: the context is done, or what `Fetch` returns
pub data Round : Type 0 where
  context_done : Round
  fetched : Fetch → Round

module _ {Float : Type 0} (floats : Floats Float) (takes : ℕ → Bool) (net : ParquetNet)
    (candle_of : Bytes → Option Candle) where
  abbrev pub closed : Option Parquet.Writer → Option Parquet.Writer
  unfolding flush_locked
  closed none = none
  closed (some w) = some (flush_locked net.uploaded net.visit (net.later w) w).1

  -- the deferred `Close`
  unfoldable pub close : Bridge Float → Bridge Float
  close s = record s { parquet = closed s.parquet }

  unfoldable pub on_fetch : Fetch → Bridge Float → Bridge Float
  unfolding process
  on_fetch timeout s = s
  on_fetch fetch_error s = s
  on_fetch (batch msgs) s = (process floats takes net candle_of msgs s).1

  -- the loop of `main`
  unfoldable pub main_loop : List Round → Bridge Float → Bridge Float
  main_loop [] s = s
  main_loop (context_done ∷ rounds) s = close s
  main_loop (fetched fetch ∷ rounds) s = main_loop rounds (on_fetch fetch s)
