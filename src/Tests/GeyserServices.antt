-- ===== src/Tests/GeyserServices.antt =====
-- ingestor/geyser/service.go: a block, and then the end of the stream.
use lp_indexer.Prelude.{◌≡◌, refl, true, false, nat_eq, none, some, [], ◌∷◌}
use lp_indexer.Prelude.Maps.{lookup, insert}
use lp_indexer.Canonical.Pair.{initial}
use lp_indexer.Meteora.Types.{program_kinds}
use lp_indexer.SlotCache
use lp_indexer.Yellowstone.{block_meta_update, SubscribeUpdate}
use lp_indexer.SwapDecoder.State
use lp_indexer.SwapDecoder.State.{set_time, handle_block_meta}
use lp_indexer.SwapDecoder.Decode.{Env}
use lp_indexer.Processor.State.{new_processor, publish, Accepts}
use lp_indexer.Processor.Updates.{new_head, handle_block, handle_update}
use lp_indexer.Failover as Failover
use lp_indexer.Failover.{
  Session, update, closed, no_error, run_client, context_done, deadline_exceeded, context_error,
  canceled,
}
use lp_indexer.GeyserService.{
  Service, returned, idle, listening, shut_down, build_metrics_server, listen, shutdown_metrics,
  event_loop, run,
}
use lp_indexer.GeyserService.Agrees.{Agrees, run-Agrees}

abbrev env : Env
env = record { encode = λ b. ""; registry = initial; kinds = program_kinds; visit = λ l. l }

abbrev block : SubscribeUpdate
block = block_meta_update (some (record { slot = 9; block_time = some 5 }))

abbrev session : Session
session = record {
  connect_error = none;
  events = update block ∷ no_error ∷ closed ∷ [];
  context = none;
}

abbrev fresh : Service
fresh = record { processor = new_processor none; metrics = build_metrics_server false }

-- a publisher that accepts all, and one that accepts nothing
abbrev all_accepted : Accepts
all_accepted n m = true

abbrev no_accepted : Accepts
no_accepted n m = false

program : Unit {0}
unfolding lookup insert SlotCache.set SlotCache.new State.new set_time handle_block_meta
    new_processor publish new_head handle_block handle_update listen shutdown_metrics event_loop run
program = tt

ends :
    ((run env all_accepted session fresh).0 ≡ returned none)
    × ((run env all_accepted session fresh).1.metrics ≡ shut_down)
    × ((run env no_accepted session fresh).1.metrics ≡ listening)
unfolding program
ends = (refl, refl, refl)

-- a deadline ends the context: `Run` says so, and `runClient` returns `context.Canceled`
abbrev late : Session
late = record { connect_error = none; events = context_done ∷ []; context = some deadline_exceeded }

deadline :
    ((run env all_accepted late fresh).0 ≡ returned (some (context_error deadline_exceeded)))
    × ((run_client env all_accepted "geyser" late fresh.processor).0
        ≡ some (context_error canceled))
unfolding program Failover.event_loop run_client
deadline = (refl, refl)

run-Agrees_example :
    Agrees none idle
      (run_client env no_accepted "geyser" session (new_processor none))
      (run env no_accepted session fresh)
run-Agrees_example = run-Agrees env no_accepted "geyser" session fresh
