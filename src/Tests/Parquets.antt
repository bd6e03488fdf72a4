-- ===== src/Tests/Parquets.antt =====
-- sinks/parquet: two buckets, and a batch of two rows.
use lp_indexer.Prelude.{
  ℕ, ◌≡◌, ◌≢◌, refl, inl, inr, Bool, true, false, none, some, List, [], ◌∷◌, Bool-cases, ◌⊎◌, map,
  length, nat_eq, ◌==◌,
}
use lp_indexer.Prelude.Bytes.{Bytes, codes, bytes_beq}
use lp_indexer.Prelude.Maps.{lookup, insert}
use lp_indexer.Parquet.Keys.{bytes_eq, bucket_key, split_bucket_key, cut_at_bar}
use lp_indexer.Parquet.Writer.{
  Candle, CandleRow, Writer, rows_at, row_of, write_bucket, flush_bucket, flush_loop, flush_locked,
  append_candle,
}
use lp_indexer.Parquet.Flushes.{flush_locked-empties}

abbrev pub candle : Bytes → ℕ → Candle
candle pool_id trades = record {
  chain_id = 501;
  pair_id = codes "SOL-USDC";
  pool_id = pool_id;
  timeframe = codes "1m";
  window_start = 1700000000;
  provisional = false;
  is_correction = false;
  open_px_q32 = 100;
  high_px_q32 = 120;
  low_px_q32 = 90;
  close_px_q32 = 110;
  vol_base = some (record { hi = 0; lo = 7 });
  vol_quote = none;
  trades = trades;
}

abbrev pub new_writer : Writer
new_writer = record {
  batch_rows = 2;
  flush_interval = 1000;
  buckets = [];
  last_flush = 0;
  objects = [];
  uploads = 0;
}

abbrev pub keys : List (Bytes × List CandleRow) → List Bytes
keys buckets = map (λ b. b.0) buckets

abbrev pub always : ℕ → Bool
always n = true

abbrev pair_key : Bytes
pair_key = codes "1m|pair"

abbrev pool_key : Bytes
pool_key = codes "1m|pool"

-- one row in the bucket of pools, and one in that of pairs
abbrev two_rows : Writer
two_rows = record new_writer {
  buckets =
      (pool_key, row_of (candle (codes "pool") 1) ∷ [])
      ∷ (pair_key, row_of (candle [] 2) ∷ [])
      ∷ [];
}

program : Unit {0}
unfolding bytes_beq lookup insert bucket_key cut_at_bar split_bucket_key write_bucket flush_bucket
    flush_loop flush_locked append_candle row_of
program = tt

appended :
    ((append_candle always keys 1 2 (some (candle (codes "pool") 1)) new_writer).1.buckets
      ≡ (pool_key, row_of (candle (codes "pool") 1) ∷ []) ∷ [])
    × ((append_candle always keys 1 2 (some (candle [] 3)) two_rows).0 ≡ none)
    × (length (append_candle always keys 1 2 (some (candle [] 3)) two_rows).1.objects ≡ 2)
    × ((append_candle always keys 1 2 (some (candle [] 3)) two_rows).1.last_flush ≡ 2)
unfolding program
appended = (refl, refl, refl, refl)

visits : (key : Bytes) → rows_at key two_rows ≢ [] → (pool_key ≡ key) ⊎ ((pair_key ≡ key) ⊎ ⊥)
unfolding lookup
visits key rows = elim (Bool-cases (pool_key == key)) [
  | inl pool ↦ inl ((bytes_eq.beq_iff pool_key key).0 pool)
  | inr other ↦ elim (Bool-cases (pair_key == key)) [
    | inl pair ↦ inr (inl ((bytes_eq.beq_iff pair_key key).0 pair))
    | inr neither ↦ absurd (rows (rw (other, neither) refl))
  ]
]

flushes : (flush_locked always keys 5 two_rows).0 ≡ none
unfolding program
flushes = refl

flush_locked-empties_example : rows_at pool_key (flush_locked always keys 5 two_rows).1 ≡ []
flush_locked-empties_example = flush_locked-empties always keys 5 two_rows visits flushes pool_key

no_bar : cut_at_bar (codes "1m") ≡ none
unfolding program
no_bar = refl

-- a timeframe with a bar is cut at it
cut : split_bucket_key (bucket_key (codes "1|m") (codes "pool")) ≡ (codes "1", codes "m|pool")
unfolding program
cut = refl
