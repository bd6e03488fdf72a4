-- ===== src/ClickHouse/CandleBatches.antt =====
-- The batch of candles keeps its rows, as that of trades does.
use mathlib.Core.List.{append_assoc, append-nil}
use mathlib.Core.Path.{sym, ◌∙◌}
use lp_indexer.Prelude.{
  ℕ, ◌+◌, ◌≡◌, refl, inl, inr, Bool, List, [], ◌∷◌, ◌++◌, leb, ◌==◌, nat_eq, Bool-cases,
}
use lp_indexer.ClickHouse.Loops.{Writes, nothing-Writes, add_then-Writes}
use lp_indexer.ClickHouse.Writer.{Candle, Writer, flush_candles, add_candle, write_candles}

-- the candles that the writer has been given and holds
abbrev pub held_candles : {Float : Type 0} → Writer Float → List (Candle Float)
held_candles w = w.candles_table ++ w.candles_batch.rows

-- no condition on the batch
abbrev pub IsAny : {Float : Type 0} → Writer Float → Type 0
IsAny w = Unit

module _ {Float : Type 0} (takes : ℕ → Bool) where
  flush_candles-held : (w : Writer Float) → held_candles (flush_candles takes w).1 ≡ held_candles w
  unfolding flush_candles
  flush_candles-held w = elim (Bool-cases (w.candles_batch.count == 0)) [
    | inl nothing ↦ rw nothing refl
    | inr rows ↦ elim (Bool-cases (takes w.inserts)) [
      | inl taken ↦ rw (rows, taken) (append-nil (held_candles w))
      | inr refused ↦ rw (rows, refused) refl
    ]
  ]

  add_candle-held :
      (candle : Candle Float) (w : Writer Float)
      → held_candles (add_candle takes candle w).1 ≡ held_candles w ++ candle ∷ []
  unfolding add_candle
  add_candle-held candle w =
      let grown = sym (append_assoc w.candles_table w.candles_batch.rows (candle ∷ [])) in
      elim (Bool-cases (leb w.batch_size (w.candles_batch.count + 1))) [
        | inl full ↦ rw full (flush_candles-held _ ∙ grown)
        | inr roomy ↦ rw roomy grown
      ]

  pub write_candles-Writes :
      (candles : List (Candle Float)) (w : Writer Float)
      → Writes takes held_candles IsAny candles w (write_candles takes candles w)
  unfolding write_candles
  write_candles-Writes [] w = nothing-Writes takes held_candles IsAny w tt
  write_candles-Writes (candle ∷ candles) w =
      add_then-Writes takes held_candles IsAny candle candles w (add_candle takes candle w)
        (write_candles takes candles) (add_candle-held candle w) (λ h. tt)
        (λ w' any. write_candles-Writes candles w')
