-- ===== src/Tests/Backfills.antt =====
-- backfill/orchestrator: a span of 25 slots in batches of 10, stopped in its third round or not.
use lp_indexer.Prelude.{
  none, ◌*◌, ◌+◌, ◌≤◌, ◌⊎◌, ℕ, ◌≡◌, refl, ◌==◌, nat_eq, suc, ◌-◌, false, List, [], ◌∷◌, some, arith,
}
use lp_indexer.Backfill.Workers.{
  State, ended, exited, Reach, here, next, cut, hand, complete, leave, slice, on_slice, Waited,
  Step, run_result, Join, KeepsError,
}
use lp_indexer.Backfill.Workers.Results.{Processes, run-Processes}
use lp_indexer.Backfill.Workers.Progress.{run_ends, Moves}
use lp_indexer.Prelude.Int.{pos}
use lp_indexer.Backfill.{
  Config, Range, Outcome, finished, context_done, validate, valid, add_with_overflow, batch_end,
  overflows, produce,
}
use lp_indexer.Backfill.Tiling.{Covers, span_end, produce-tiles}

abbrev config : Config
config = record { start_slot = 100; end_slot = 125; batch_size = 10; concurrency = pos 4 }

abbrev range : ℕ → ℕ → Range
range lo hi = record { start_slot = lo; end_slot = hi }

program : Unit {0}
unfolding validate valid add_with_overflow batch_end overflows produce
program = tt

three_ranges :
    produce config (λ n. false) (λ n. false) 26 0 100
    ≡ some (range 100 110 ∷ range 110 120 ∷ range 120 125 ∷ [], finished)
unfolding program
three_ranges = refl

stopped :
    produce config (λ n. n == 2) (λ n. false) 26 0 100
    ≡ some (range 100 110 ∷ range 110 120 ∷ [], context_done)
unfolding program
stopped = refl

produce-tiles_example :
    (ranges : List Range) × (outcome : Outcome) × (produce config
        (λ n. n == 2)
        (λ n. false)
        (suc (span_end config - 100))
        0
        100
      ≡ some (ranges, outcome))
    × Covers config (λ n. n == 2) (λ n. false) 100 ranges outcome
unfolding validate
produce-tiles_example =
    produce-tiles config (λ n. n == 2) (λ n. false) (omega arith) (omega arith) refl

-- one worker and one range
abbrev small_config : Config
small_config = record { start_slot = 100; end_slot = 105; batch_size = 10; concurrency = pos 1 }

-- the group keeps the first error
abbrev first_error : Join
first_error none e = some e
first_error (some old) e = some old

keeps : KeepsError first_error
keeps none e h = ground (arith, h)
keeps (some old) e h = ground (arith, h)

abbrev last : State
last = record {
  producer = ended;
  workers = exited ∷ [];
  error = none;
  cancelled = false;
  sent = range 100 105 ∷ [];
  processed = range 100 105 ∷ [];
  failed = [];
}

-- the producer cuts the range and hands it over, finds the end of the span, and the worker completes
one_range : Reach first_error small_config 5 last
unfolding program slice on_slice
one_range =
    next
      (next
        (next (next (next here (cut 100 refl refl)) (hand (range 100 105) false [] [] refl refl))
          (cut 105 refl refl))
        (complete (range 100 105) [] [] refl))
      (leave [] [] refl refl)

last-Waited : Waited last
last-Waited = record { producer_ended = refl; workers_exited = (refl, tt) }

run-Processes_example : Processes small_config last
unfolding program run_result
run-Processes_example =
    run-Processes small_config first_error (λ e. false) keeps (omega arith) (omega arith) refl
      one_range last-Waited refl

run_ends_example :
    5 ≤ 3 * (span_end small_config - 100) + 1 + 3
    × (Waited last ⊎ ((t : State) × (step : Step first_error small_config last t) × Moves step))
unfolding program
run_ends_example =
    run_ends small_config first_error keeps (omega arith) (omega arith) refl one_range
