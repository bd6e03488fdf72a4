-- ===== src/Backfill/Workers/Results.antt =====
-- What a backfill that returns no error has done.
use mathlib.Core.Path.{subst, ap}
use lp_indexer.Prelude.{
  inl, inr, ℕ, ◌<◌, ◌≡◌, refl, Bool, Option, none, some, List, [], ◌∷◌, ok, arith,
}
use lp_indexer.Prelude.Words.{u64_mod}
use lp_indexer.Backfill.{Config, Range, validate}
use lp_indexer.Backfill.Tiling.{Tiles, span_end, validate-positive}
use lp_indexer.Backfill.Workers.{
  Join, KeepsError, RunError, Worker, State, Reach, Waited, AllExited, run_result,
}
use lp_indexer.Backfill.Workers.Invariant.{count, in_hand, Stands, Inv, Reach-Inv}

none_in_hand : (workers : List Worker) → AllExited workers → in_hand workers ≡ []
none_in_hand [] h = refl
none_in_hand (w ∷ workers) (e, h) = rw e (none_in_hand workers h)

no_error :
    (is_canceled : RunError → Bool) (e : Option RunError)
    → run_result is_canceled e ≡ none
    → e ≡ none
unfolding run_result
no_error is_canceled none h = refl
no_error is_canceled (some e) h = ground (arith, h)

-- the ranges sent tile the span, and those processed are the same, as often
pub record Processes (c : Config) (s : State) : Type 0 where
  pub tiles : Tiles c.batch_size c.start_slot (span_end c) s.sent
  pub processed : (p : Range → Bool) → count p s.processed ≡ count p s.sent
  pub none_failed : s.failed ≡ []

reached_end :
    (c : Config) (s : State) (inv : Inv c s) → Waited s → s.error ≡ none → inv.reached ≡ span_end c
reached_end c s inv waited clean =
    elim (subst (λ p. Stands c inv.reached s.error p) waited.producer_ended inv.stands) [
      | inl e ↦ e
      | inr fails ↦ absurd (fails clean)
    ]

ended-Processes : (c : Config) (s : State) → Inv c s → Waited s → s.error ≡ none → Processes c s
ended-Processes c s inv waited clean = record {
  tiles =
      subst (λ at. Tiles c.batch_size c.start_slot at s.sent) (reached_end c s inv waited clean)
        inv.tiles;
  processed = λ p. omega (
    arith,
    inv.kept p,
    ap (λ l. count p l) (inv.failures clean),
    ap (λ l. count p l) (none_in_hand s.workers waited.workers_exited),
  );
  none_failed = inv.failures clean;
}

-- With a configuration that `Validate` accepts: whatever the order in which the goroutines take their
-- steps, when `Run` returns no error, the ranges sent are consecutive from the start slot to the end
-- slot, or to the largest `uint64` where none is set, and each of them has been processed without error
-- as often as it was sent, and no other.
pub run-Processes :
    (c : Config) (join : Join) (is_canceled : RunError → Bool) {n : ℕ} {s : State}
    → KeepsError join
    → c.start_slot < u64_mod
    → c.end_slot < u64_mod
    → validate c ≡ ok tt
    → Reach join c n s
    → Waited s
    → run_result is_canceled s.error ≡ none
    → Processes c s
run-Processes c join is_canceled {s} keeps small_start small valid_config reach waited clean =
    let (positive, below) = validate-positive c small_start valid_config in
    ended-Processes c s (Reach-Inv join keeps c positive small below reach) waited
      (no_error is_canceled s.error clean)
