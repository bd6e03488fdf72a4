-- ===== src/Publisher/Outputs/CandleIds.antt =====
-- Which candles share a message id.
use lp_indexer.Prelude.{◌≡◌, refl, ◌↔◌, Bool, true, false, arith}
use lp_indexer.Prelude.Bytes.{codes}
use lp_indexer.Prelude.Decimal.{
  to_decimal, to_decimal-injective, to_decimal-NoColon, NoColon, append-colon-injective,
}
use lp_indexer.Parquet.Writer.{Candle}
use lp_indexer.Publisher.Outputs.{truth, candle_id}

truth-injective : (a b : Bool) → truth a ≡ truth b → a ≡ b
truth-injective true true h = refl
truth-injective false false h = refl
truth-injective true false h = absurd (ground arith)
truth-injective false true h = absurd (ground arith)

pub record SameWindow (a b : Candle) : Type 0 where
  pub pair : a.pair_id ≡ b.pair_id
  pub pool : a.pool_id ≡ b.pool_id
  pub start : a.window_start ≡ b.window_start
  pub provisional : a.provisional ≡ b.provisional

same_id : (a b : Candle) → SameWindow a b → candle_id a ≡ candle_id b
unfolding candle_id
same_id a b h = rw (h.pair, h.pool, h.start, h.provisional) refl

-- Two candles whose pairs and pools hold no colon are published under the same message id exactly where
-- their pairs, their pools, the starts of their windows and their provisional marks are the same, whatever
-- their timeframes, and whether one is a correction of the other.
pub candle_id_iff :
    (a b : Candle)
    → NoColon a.pair_id
    → NoColon b.pair_id
    → NoColon a.pool_id
    → NoColon b.pool_id
    → (candle_id a ≡ candle_id b) ↔ SameWindow a b
unfolding candle_id
candle_id_iff a b pair_a pair_b pool_a pool_b = (
  λ h.
      let (_, tail) =
        append-colon-injective (codes "501") (codes "501") _ _ (refl, (refl, (refl, tt)))
          (refl, (refl, (refl, tt))) h in
      let (pairs, tail') = append-colon-injective a.pair_id b.pair_id _ _ pair_a pair_b tail in
      let (pools, tail'') = append-colon-injective a.pool_id b.pool_id _ _ pool_a pool_b tail' in
      let (starts, marks) =
        append-colon-injective (to_decimal a.window_start) (to_decimal b.window_start) _ _
          (to_decimal-NoColon a.window_start) (to_decimal-NoColon b.window_start) tail'' in
      record {
        pair = pairs;
        pool = pools;
        start = to_decimal-injective a.window_start b.window_start starts;
        provisional = truth-injective a.provisional b.provisional marks;
      },
  same_id a b,
)
