-- ===== src/Tests/Failovers.antt =====
-- ingestor/geyser/failover_service.go: the primary fails, the fallback delivers a block, and is cancelled.
use lp_indexer.Prelude.{
  ◌≡◌, refl, true, false, ◌==◌, nat_eq, if◌then◌else◌, none, some, List, [], ◌∷◌, length,
}
use lp_indexer.Prelude.Maps.{lookup, insert}
use lp_indexer.Canonical.Pair.{initial}
use lp_indexer.Meteora.Types.{program_kinds}
use lp_indexer.SlotCache
use lp_indexer.Yellowstone.{block_meta_update}
use lp_indexer.SwapDecoder.State
use lp_indexer.SwapDecoder.State.{set_time, handle_block_meta}
use lp_indexer.SwapDecoder.Decode.{Env}
use lp_indexer.Processor.State.{new_processor, publish}
use lp_indexer.Processor.Updates.{new_head, handle_block, handle_update}
use lp_indexer.Failover.{
  Session, Failover, Setup, update, gauge, event_loop, run_client, next_turn, run, context_done,
  returned, canceled,
}
use lp_indexer.Failover.Turns.{TakesTurns, run-TakesTurns}

abbrev env : Env
env = record { encode = λ b. ""; registry = initial; kinds = program_kinds; visit = λ l. l }

abbrev setup : Setup
setup = record {
  name = λ n. if n == 0 then "geyser" else "helius";
  has_fallback = true;
  is_canceled = λ e. false;
}

abbrev sessions : List Session
sessions =
    record { connect_error = some "refused"; events = []; context = none }
    ∷ record {
      connect_error = none;
      events =
          update (block_meta_update (some (record { slot = 9; block_time = some 5 })))
          ∷ context_done
          ∷ [];
      context = some canceled;
    }
    ∷ []

abbrev fresh : Failover
fresh = record { processor = new_processor none; current = 0; active = 0; failures = [] }

program : Unit {0}
unfolding lookup insert SlotCache.set SlotCache.new State.new set_time handle_block_meta
    new_processor publish new_head handle_block handle_update gauge event_loop run_client next_turn
    run
program = tt

fallback_delivers :
    ((run env (λ n m. true) setup sessions fresh).0 ≡ returned (some canceled))
    × ((run env (λ n m. true) setup sessions fresh).1.failures ≡ "geyser" ∷ [])
    × ((run env (λ n m. true) setup sessions fresh).1.active ≡ 2)
    × (length (run env (λ n m. true) setup sessions fresh).1.processor.log ≡ 1)
unfolding program
fallback_delivers = (refl, refl, refl, refl)

run-TakesTurns_example :
    TakesTurns env (λ n m. true) setup 0 sessions fresh (run env (λ n m. true) setup sessions fresh)
run-TakesTurns_example = run-TakesTurns env (λ n m. true) setup sessions fresh
