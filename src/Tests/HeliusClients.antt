-- ===== src/Tests/HeliusClients.antt =====
-- ingestor/helius/client.go: the transaction of the processor's tests, and a block.
use lp_indexer.Prelude.{ℕ, refl, true, false, none, some, List, [], ◌∷◌}
use lp_indexer.Yellowstone.{SubscribeUpdate, transaction_update, block_meta_update}
use lp_indexer.SwapDecoder.State
use lp_indexer.SwapDecoder.State.{handle_block_meta}
use lp_indexer.Processor.State.{new_processor}
use lp_indexer.Processor.Safety.Updates.{run_updates}
use lp_indexer.HeliusClient.{Client, event_loop}
use lp_indexer.HeliusClient.Updates.{taken, always, Follows}
use lp_indexer.HeliusClient.Agrees.{timed, untimed, AllDecodable, event_loop-run_updates}
use lp_indexer.Tests.Ingest.{env, update, event, decoded}

abbrev client : Client
client = record {
  decoder = State.new none;
  health = record { last_heartbeat = 0; last_slot = 0; healthy = false; source = "" };
  sent = [];
  errors = [];
  tried = 0;
}

abbrev updates : List (ℕ × SubscribeUpdate)
updates =
    (10, transaction_update (some update))
    ∷ (11, block_meta_update (some (record { slot = 8; block_time = some 1700000000 })))
    ∷ []

updates-AllDecodable : AllDecodable env (λ n. true) (new_processor none) updates
unfolding new_processor
updates-AllDecodable = ((event ∷ [], decoded), (tt, tt))

event_loop-run_updates_example :
    Follows client
      (event_loop env taken (λ n. true) (timed updates) client).1
      (new_processor none)
      (run_updates env always (untimed updates) (new_processor none))
unfolding new_processor
event_loop-run_updates_example =
    event_loop-run_updates env (λ n. true) updates client (new_processor none) refl
      updates-AllDecodable
