-- ===== src/Backfill.antt =====
-- backfill/orchestrator: the producer that slices the configured span of slots into ranges. Whether the
-- context is done when a round asks for its error, and whether a round's `select` takes the context
-- instead of a worker, are two functions of the round's number.
pub mod Tiling
pub mod Workers
pub mod Environment
use lp_indexer.Prelude.{
  ℕ, zero, suc, ◌+◌, ◌-◌, ◌==◌, nat_eq, Bool, true, false, Option, none, some, List, [], ◌∷◌,
  Result, ok, err, ltb, leb, not, ◌&&◌, if◌then◌else◌,
}
use lp_indexer.Prelude.Words.{u64_mod}
use lp_indexer.Prelude.Int.{ℤ, pos, negsuc}

-- `Config`
pub record Config : Type 0 where
  pub start_slot : ℕ
  pub end_slot : ℕ
  pub batch_size : ℕ
  pub concurrency : ℤ

-- the errors of `Validate`
pub data ConfigError : Type 0 where
  start_not_below_end batch_not_positive concurrency_not_positive : ConfigError

abbrev is_positive : ℤ → Bool
is_positive (pos n) = ltb 0 n
is_positive (negsuc n) = false

-- `Validate`; `ok` is its nil
unfoldable pub validate : Config → Result ConfigError (Unit {0})
validate c =
    if not (c.end_slot == 0) && leb c.end_slot c.start_slot
    then err start_not_below_end
    else if c.batch_size == 0
    then err batch_not_positive
    else if is_positive c.concurrency
    then ok tt
    else err concurrency_not_positive

-- `Range`
pub record Range : Type 0 where
  pub start_slot : ℕ
  pub end_slot : ℕ

-- `valid`
unfoldable pub valid : Range → Bool
valid r = ltb r.start_slot r.end_slot

-- `math.MaxUint64`
abbrev pub max_uint64 : ℕ
max_uint64 = u64_mod - 1

-- `addWithOverflow`
unfoldable pub add_with_overflow : ℕ → ℕ → ℕ × Bool
add_with_overflow start delta =
    if delta == 0
    then (start, false)
    else if ltb (max_uint64 - start) delta
    then (max_uint64, true)
    else (start + delta, false)

-- how the producer ends
pub data Outcome : Type 0 where
  finished : Outcome
  context_done : Outcome
  invalid_range : ℕ → ℕ → Outcome

-- the end of the range that starts at a slot, below the limit where there is one
unfoldable pub batch_end : Config → ℕ → ℕ
unfolding add_with_overflow
batch_end c start =
    let end_slot = (add_with_overflow start c.batch_size).0 in
    if not (c.end_slot == 0) && ltb c.end_slot end_slot then c.end_slot else end_slot

unfoldable pub overflows : Config → ℕ → Bool
unfolding add_with_overflow
overflows c start = (add_with_overflow start c.batch_size).1

abbrev pub send : Range → Option (List Range × Outcome) → Option (List Range × Outcome)
send r none = none
send r (some (ranges, outcome)) = some (r ∷ ranges, outcome)

module _ (c : Config) (cancelled refused : ℕ → Bool) where
  -- The loop of the producer from a round and a start on, with fuel: the ranges that it sends to the
  -- workers, and its end; `none` means that the fuel ran out.
  unfoldable pub produce : ℕ → ℕ → ℕ → Option (List Range × Outcome)
  produce zero round start = none
  produce (suc fuel) round start =
      let rng : Range = record { start_slot = start; end_slot = batch_end c start } in
      let later = produce fuel (round + 1) (batch_end c start) in
      if cancelled round
      then some ([], context_done)
      else if not (c.end_slot == 0) && leb c.end_slot start
      then some ([], finished)
      else if not (valid rng)
      then (if overflows c start
          then some ([], finished)
          else some ([], invalid_range start (batch_end c start)))
      else if refused round
      then some ([], context_done)
      else if c.end_slot == 0 && overflows c start
      then some (rng ∷ [], finished)
      else send rng later
