-- ===== src/Tests/Sinks.antt =====
-- sinks/clickhouse: a batch of two trades, and a database that refuses its second insert.
use lp_indexer.Prelude.{
  if◌then◌else◌, ℕ, ◌≡◌, refl, Bool, true, false, some, List, [], ◌∷◌, arith, nat_eq, ◌==◌, none,
  Option,
}
use lp_indexer.ClickHouse.Writer.{
  Trade, Writer, empty, flush_trades_failed, flush_trades, add_trade, write_trades,
}
use lp_indexer.Prelude.Bytes.{Bytes, codes, to_lower, bytes_beq, has_prefix}
use lp_indexer.Dex.{SwapEvent, BlockHead}
use lp_indexer.Meteora.Decoder.{zero_time}
use lp_indexer.Prelude.Maps.{lookup, insert, erase}
use lp_indexer.ClickHouse.Writer.{flush_candles, flush}
use lp_indexer.ClickHouse.Service.{
  Msg, Sink, Round, quiet, ticked, batch, timeout, unmarshal_swap, has_suffix, trade_of, head_times,
  handle_swap, handle_head, handle_message, handle_all, fetched, run_round, run_rounds, run,
}
use lp_indexer.ClickHouse.Service.Keeps.Runs.{Keeps, messages, run-Keeps}
use lp_indexer.ClickHouse.Service.Succeeds.{Reads, run_goes_on}
use lp_indexer.ClickHouse.Loops.{Writes}
use lp_indexer.ClickHouse.Batches.{held, write_trades-Writes, IsRoomy}

abbrev trade : ℕ → Trade
trade slot = record {
  chain_id = 501;
  slot = slot;
  timestamp = 1700000000;
  signature = "sig";
  index = 0;
  program_id = "program";
  pool_id = "pool";
  mint_base = "base";
  mint_quote = "quote";
  dec_base = 9;
  dec_quote = 6;
  base_in = 1000;
  base_out = 0;
  quote_in = 0;
  quote_out = 150;
  price_q32 = 0;
  reserves_base = 50000;
  reserves_quote = 7500;
  fee_bps = 25;
  provisional = true;
  is_undo = false;
}

abbrev new_writer : Writer ℕ
new_writer = record {
  batch_size = 2;
  trades_batch = empty;
  candles_batch = empty;
  trades_table = [];
  candles_table = [];
  inserts = 0;
}

-- the database refuses its second insert
abbrev pub takes : ℕ → Bool
takes n = if n == 1 then false else true

abbrev trades : List Trade
trades = trade 1 ∷ trade 2 ∷ trade 3 ∷ trade 4 ∷ trade 5 ∷ []

second_refused :
    ((write_trades takes trades new_writer).0 ≡ some flush_trades_failed)
    × ((write_trades takes trades new_writer).1.trades_table ≡ trade 1 ∷ trade 2 ∷ [])
    × ((write_trades takes trades new_writer).1.trades_batch.rows ≡ trade 3 ∷ trade 4 ∷ [])
unfolding write_trades add_trade flush_trades
second_refused = (refl, refl, refl)

write_trades-Writes_example :
    Writes takes held IsRoomy trades new_writer (write_trades takes trades new_writer)
write_trades-Writes_example =
    write_trades-Writes takes trades new_writer record { counts = refl; room = omega arith }

abbrev event : SwapEvent
event = record {
  chain_id = 501;
  slot = 7;
  sig = "sig";
  index = 3;
  program_id = "program";
  pool_id = "pool";
  mint_base = "base";
  mint_quote = "quote";
  dec_base = 9;
  dec_quote = 6;
  base_in = 1000;
  base_out = 0;
  quote_in = 0;
  quote_out = 150;
  sqrt_price_q64_pre = 0;
  sqrt_price_q64_post = 0;
  reserves_base = 50000;
  reserves_quote = 7500;
  fee_bps = 25;
  provisional = true;
  is_undo = false;
}

abbrev block : BlockHead
block = record { chain_id = 501; slot = 7; ts_sec = 1700000000; status = "confirmed" }

-- an empty payload cannot be read
abbrev pub swap_of : Bytes → Option SwapEvent
swap_of [] = none
swap_of (b ∷ bytes) = some event

abbrev pub head_of : Bytes → Option BlockHead
head_of [] = none
head_of (b ∷ bytes) = some block

abbrev swap_msg : Msg
swap_msg = record { subject = codes "dex.sol.orca.swap"; payload = 1 ∷ [] }

abbrev head_msg : Msg
head_msg = record { subject = codes "dex.sol.blocks.head"; payload = 1 ∷ [] }

abbrev bad_msg : Msg
bad_msg = record { subject = codes "dex.sol.orca.swap"; payload = [] }

abbrev pub sink : Sink ℕ
sink = record { writer = new_writer; slot_times = []; acked = []; refused = [] }

abbrev rounds : List Round
rounds =
    quiet (batch (head_msg ∷ swap_msg ∷ [])) ∷ ticked timeout ∷ quiet (batch (swap_msg ∷ [])) ∷ []

program : Unit {0}
unfolding write_trades add_trade flush_trades flush_candles flush has_prefix has_suffix trade_of
    head_times to_lower bytes_beq lookup insert erase handle_swap handle_head handle_message
    handle_all fetched run_round run_rounds run
program = tt

-- the tick writes the first swap with the time of its block, and the second stays in the batch
two_swaps :
    ((run takes swap_of head_of rounds sink).0 ≡ none)
    × ((run takes swap_of head_of rounds sink).1.acked ≡ head_msg ∷ swap_msg ∷ swap_msg ∷ [])
    × ((run takes swap_of head_of rounds sink).1.writer.trades_table
        ≡ record (trade 7) { index = 3 } ∷ [])
    × ((run takes swap_of head_of rounds sink).1.writer.trades_batch.rows
        ≡ record (trade 7) { index = 3 } ∷ [])
unfolding program
two_swaps = (refl, refl, refl, refl)

abbrev bad_rounds : List Round
bad_rounds = quiet (batch (swap_msg ∷ bad_msg ∷ swap_msg ∷ [])) ∷ []

-- a message that cannot be read ends the service, and its last flush writes the batch
unreadable :
    ((run takes swap_of head_of bad_rounds sink).0 ≡ some unmarshal_swap)
    × ((run takes swap_of head_of bad_rounds sink).1.refused ≡ bad_msg ∷ [])
    × ((run takes swap_of head_of bad_rounds sink).1.acked ≡ swap_msg ∷ [])
    × ((run takes swap_of head_of bad_rounds sink).1.writer.trades_table
        ≡ record (trade 7) { index = 3; timestamp = zero_time } ∷ [])
unfolding program
unreadable = (refl, refl, refl, refl)

run-Keeps_example :
    Keeps takes swap_of head_of sink (messages rounds) (run takes swap_of head_of rounds sink)
run-Keeps_example = run-Keeps takes swap_of head_of sink rounds

abbrev always : ℕ → Bool
always n = true

swap-Reads : Reads swap_of head_of swap_msg
swap-Reads = record { swap = λ e h. ground (arith, h); head = λ e h. ground (arith, h) }

head-Reads : Reads swap_of head_of head_msg
head-Reads = record { swap = λ e h. ground (arith, h); head = λ e h. ground (arith, h) }

run_goes_on_example : (run always swap_of head_of rounds sink).0 ≡ none
run_goes_on_example =
    run_goes_on always swap_of head_of (λ n. refl) rounds sink
      ((head-Reads, (swap-Reads, tt)), (tt, ((swap-Reads, tt), tt)))
