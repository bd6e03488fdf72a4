-- ===== src/Backfill/Tiling.antt =====
-- The producer's ranges tile the configured span.
use lp_indexer.Prelude.{
  ◌&&◌, not, leb, ℕ, zero, suc, ◌+◌, ◌-◌, ◌<◌, ◌≤◌, ◌≡◌, refl, ◌⊎◌, inl, inr, ◌==◌, nat_eq, Bool,
  true, false, Option, some, List, [], ◌∷◌, ok, arith, if◌then◌else◌, Bool-cases,
}
use lp_indexer.Prelude.Words.{u64_mod}
use lp_indexer.Backfill.{
  Config, Range, Outcome, finished, context_done, validate, valid, batch_end, overflows, max_uint64,
  produce, not,
}

-- Consecutive ranges from one slot to another, none empty and none longer than a batch.
abbrev pub Tiles : ℕ → ℕ → ℕ → List Range → Type 0
Tiles batch lo hi [] = lo ≡ hi
Tiles batch lo hi (r ∷ rest) =
    (r.start_slot ≡ lo) × lo < r.end_slot × r.end_slot ≤ lo + batch × Tiles batch r.end_slot hi rest

-- the slot at which a run that is not stopped ends
abbrev pub span_end : Config → ℕ
span_end c = if c.end_slot == 0 then max_uint64 else c.end_slot

-- the producer stopped with the context, or reached the end
pub record Covers (c : Config) (cancelled refused : ℕ → Bool) (start : ℕ) (ranges : List Range)
    (outcome : Outcome) : Type 0 where
  pub reached : ℕ
  pub tiles : Tiles c.batch_size start reached ranges
  pub end :
      (outcome ≡ finished) × (reached ≡ span_end c)
      ⊎ (outcome ≡ context_done) × ((n : ℕ) × ((cancelled n ≡ true) ⊎ (refused n ≡ true)))

-- the range that starts at a slot of the span
abbrev pub range_at : Config → ℕ → Range
range_at c start = record { start_slot = start; end_slot = batch_end c start }

abbrev pub at_limit : Config → ℕ → Bool
at_limit c start = not (c.end_slot == 0) && leb c.end_slot start

abbrev pub wraps : Config → ℕ → Bool
wraps c start = c.end_slot == 0 && overflows c start

module _ (c : Config) (positive : 0 < c.batch_size) (small : c.end_slot < u64_mod) (start : ℕ)
    (below : start ≤ span_end c) where
  pub batch_end-le_span : batch_end c start ≤ span_end c
  unfolding batch_end
  batch_end-le_span = ground arith

  pub batch_end-le_batch : batch_end c start ≤ start + c.batch_size
  unfolding batch_end
  batch_end-le_batch = ground arith

  pub at_limit-span : at_limit c start ≡ true → start ≡ span_end c
  at_limit-span h = ground arith

  pub valid-lt : valid (range_at c start) ≡ true → start < batch_end c start
  unfolding valid
  valid-lt h = ground arith

  -- an empty range below the limit is only made at the end of `uint64`
  pub empty-span :
      at_limit c start ≡ false
      → valid (range_at c start) ≡ false
      → (overflows c start ≡ true) × (start ≡ span_end c)
  unfolding valid batch_end overflows
  empty-span h k = ground arith

  pub wraps-span : wraps c start ≡ true → batch_end c start ≡ span_end c
  unfolding batch_end overflows
  wraps-span h = ground arith

module _ (c : Config) (cancelled refused : ℕ → Bool) (positive : 0 < c.batch_size)
    (small : c.end_slot < u64_mod) where
  abbrev Produces : Option (List Range × Outcome) → ℕ → Type 0
  Produces r start =
      (ranges : List Range) × (outcome : Outcome) × (r ≡ some (ranges, outcome))
      × Covers c cancelled refused start ranges outcome

  module _ (start : ℕ) (below : start ≤ span_end c) (full : valid (range_at c start) ≡ true) where
    -- one more range in front
    Covers-cons :
        (ranges : List Range) (outcome : Outcome)
        → Covers c cancelled refused (batch_end c start) ranges outcome
        → Covers c cancelled refused start (range_at c start ∷ ranges) outcome
    Covers-cons ranges outcome cov = record {
      reached = cov.reached;
      tiles = (
        refl,
        valid-lt c positive small start below full,
        batch_end-le_batch c positive small start below,
        cov.tiles,
      );
      end = cov.end;
    }

    last-Covers :
        wraps c start ≡ true → Covers c cancelled refused start (range_at c start ∷ []) finished
    last-Covers wrap = Covers-cons [] finished (record {
      reached = batch_end c start;
      tiles = refl;
      end = inl (refl, wraps-span c positive small start below wrap);
    })

  produce-Covers :
      (fuel round start : ℕ)
      → start ≤ span_end c
      → span_end c - start < fuel
      → Produces (produce c cancelled refused fuel round start) start
  unfolding produce
  produce-Covers zero round start below enough = absurd (omega arith)
  produce-Covers (suc fuel) round start below enough = elim (Bool-cases (cancelled round)) [
    | inl done ↦ (
      [],
      context_done,
      rw done refl,
      record { reached = start; tiles = refl; end = inr (refl, (round, inl done)) },
    )
    | inr live ↦ elim (Bool-cases (at_limit c start)) [
      | inl limit ↦ (
        [],
        finished,
        rw (live, limit) refl,
        record {
          reached = start;
          tiles = refl;
          end = inl (refl, at_limit-span c positive small start below limit);
        },
      )
      | inr inside ↦ elim (Bool-cases (valid (range_at c start))) [
        | inr empty ↦
            let (over, last) = empty-span c positive small start below inside empty in
            (
              [],
              finished,
              rw (live, inside, empty, over) refl,
              record { reached = start; tiles = refl; end = inl (refl, last) },
            )
        | inl full ↦ elim (Bool-cases (refused round)) [
          | inl done ↦ (
            [],
            context_done,
            rw (live, inside, full, done) refl,
            record { reached = start; tiles = refl; end = inr (refl, (round, inr done)) },
          )
          | inr taken ↦ elim (Bool-cases (wraps c start)) [
            | inl wrap ↦ (
              range_at c start ∷ [],
              finished,
              rw (live, inside, full, taken, wrap) refl,
              last-Covers start below full wrap,
            )
            | inr more ↦
                let lt = valid-lt c positive small start below full in
                let le = batch_end-le_span c positive small start below in
                let (ranges, outcome, e, cov) =
                  produce-Covers fuel (round + 1) (batch_end c start) le (omega arith) in
                (
                  range_at c start ∷ ranges,
                  outcome,
                  rw (live, inside, full, taken, more, e) refl,
                  Covers-cons start below full ranges outcome cov,
                )
          ]
        ]
      ]
    ]
  ]

pub validate-positive :
    (c : Config)
    → c.start_slot < u64_mod
    → validate c ≡ ok tt
    → (0 < c.batch_size) × (c.start_slot ≤ span_end c)
unfolding validate
validate-positive c small h = ground arith

-- With a configuration that `Validate` accepts, the producer ends, after at most one round for each
-- slot of the span and one more; the ranges that it has sent are consecutive from the start slot on,
-- none empty and none longer than a batch; and it has either reached the end slot, or the largest
-- `uint64` where no end is set, or was stopped by the context in some round. It never makes an invalid
-- range.
pub produce-tiles :
    (c : Config) (cancelled refused : ℕ → Bool)
    → c.start_slot < u64_mod
    → c.end_slot < u64_mod
    → validate c ≡ ok tt
    → (ranges : List Range) × (outcome : Outcome) × (produce c cancelled refused
          (suc (span_end c - c.start_slot))
          0
          c.start_slot
        ≡ some (ranges, outcome))
      × Covers c cancelled refused c.start_slot ranges outcome
produce-tiles c cancelled refused small_start small valid_config =
    let (positive, below) = validate-positive c small_start valid_config in
    produce-Covers c cancelled refused positive small (suc (span_end c - c.start_slot)) 0
      c.start_slot below (omega arith)
