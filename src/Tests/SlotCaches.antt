-- ===== src/Tests/SlotCaches.antt =====
-- ingestor/common/slot_cache.go: a cache of three slots.
use lp_indexer.Prelude.{
  ℕ, ◌≡◌, refl, true, false, List, [], ◌∷◌, none, some, ok, err, arith, if◌then◌else◌, nat_eq, ◌-◌,
  suc,
}
use lp_indexer.Prelude.Words.{u64_mod}
use lp_indexer.Prelude.Maps.{lookup, insert, remove_if, count_if}
use lp_indexer.SlotCache.{
  new, get, set, get_range, range_loop, add_found, prune_before_slot, size, set_replay_marker,
  is_replay_slot, slot_not_found,
}
use lp_indexer.SlotCache.Laws.{Call, set_call, marker_call, prune_call, run, get-run}
use lp_indexer.SlotCache.Ranges.{in_range, get_range_lem, get_range-diverges}

abbrev calls : List (Call ℕ)
calls = set_call 100 7 ∷ set_call 101 8 ∷ marker_call 101 ∷ set_call 103 9 ∷ prune_call 101 ∷ []

program : Unit {0}
unfolding new get set lookup insert remove_if count_if prune_before_slot range_loop get_range
    add_found set_replay_marker is_replay_slot size
program = tt

pruned_slot : get 100 (run new calls) ≡ err (slot_not_found 100)
unfolding program
pruned_slot = refl

replayed :
    (is_replay_slot 101 (run new calls) ≡ true) × (is_replay_slot 100 (run new calls) ≡ false)
unfolding program
replayed = (refl, refl)

get-run_example : get 101 (run new calls) ≡ ok 8
get-run_example = get-run calls 101

get_range_lem_example :
    (r : List (ℕ × ℕ)) × (get_range (suc (suc 102 - 101)) 101 102 (run new calls) ≡ some r)
    × ((k : ℕ) → lookup k r ≡ (if in_range 101 102 k then lookup k (run new calls).slots else none))
get_range_lem_example = get_range_lem 101 102 (run new calls) (omega arith)

get_range-diverges_example : get_range 9 (u64_mod - 1) (u64_mod - 1) (run new calls) ≡ none
get_range-diverges_example = get_range-diverges 9 (u64_mod - 1) (run new calls) (omega arith)
