-- ===== src/Tests/Replays.antt =====
-- cmd/tools/sinkreplay: a swap and a candle, and then an event of an unknown type.
use lp_indexer.Prelude.{◌≡◌, refl, nat_eq, string_eq, true, false, none, some, List, [], ◌∷◌, map}
use lp_indexer.Prelude.Bytes.{codes, to_lower}
use lp_indexer.Prelude.Decimal.{to_decimal, decimal_loop}
use lp_indexer.Replay.{
  Event, Net, unsupported, cancelled, program_segment, head_of, meta_of, swap_of, candle_of,
  outgoing, replay,
}

abbrev event : Event
event = record {
  kind = "swap";
  slot = 9;
  chain_id = 0;
  timestamp = 1;
  status = "";
  signature = "sig";
  index = 2;
  program_id = "cpamdpZCGKUy5JxQXB4dcpGPiikHawvSWAd6mEn1sGG";
  pool_id = "p";
  pair_id = "q";
  mint_base = "a";
  mint_quote = "b";
  dec_base = 9;
  dec_quote = 6;
  base_in = 1;
  base_out = 0;
  quote_in = 0;
  quote_out = 1;
  reserves_base = 0;
  reserves_quote = 0;
  fee_bps = 30;
  provisional = none;
  is_undo = false;
  is_correction = none;
  success = none;
  log_msgs = [];
  timeframe = codes "1M";
  window_start = 60;
  open_px_q32 = 1;
  high_px_q32 = 1;
  low_px_q32 = 1;
  close_px_q32 = 1;
  vol_base = 0;
  vol_quote = 5;
  trades = 1;
}

abbrev events : List Event
events = event ∷ record event { kind = "candle" } ∷ record event { kind = "bad" } ∷ event ∷ []

abbrev net : Net
net = record { marshals = λ m. true; publishes = λ msg. none; done = λ n. false }

program : Unit {0}
unfolding to_lower to_decimal decimal_loop program_segment head_of meta_of swap_of candle_of
    outgoing replay
program = tt

replayed :
    ((replay net (codes "dex.sol") 0 events).0 ≡ some (unsupported "bad"))
    × (map (λ msg. msg.subject) (replay net (codes "dex.sol") 0 events).1
        ≡ codes "dex.sol.meteora.swap" ∷ codes "dex.sol.candle.pool.1m" ∷ [])
    × (map (λ msg. msg.id) (replay net (codes "dex.sol") 0 events).1
        ≡ codes "501:9:sig:2:true:false" ∷ codes "501:pool:p:1m:60" ∷ [])
    × ((replay (record net { done = λ n. true }) (codes "dex.sol") 0 events).0 ≡ some (cancelled 0))
unfolding program
replayed = (refl, refl, refl, refl)
