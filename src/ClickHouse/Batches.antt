-- ===== src/ClickHouse/Batches.antt =====
-- The writer loses no row and repeats none, whatever the database refuses.
use mathlib.Core.List.{append_assoc, append-nil}
use mathlib.Core.Path.{sym, ◌∙◌}
use lp_indexer.Prelude.{
  ℕ, ◌+◌, ◌<◌, ◌≡◌, refl, inl, inr, Bool, Option, none, some, List, [], ◌∷◌, ◌++◌, arith, length,
  leb, ◌==◌, nat_eq, Bool-cases, length-append,
}
use lp_indexer.ClickHouse.Loops.{Writes, nothing-Writes, add_then-Writes}
use lp_indexer.ClickHouse.Writer.{
  Trade, Writer, WriterError, and_then, flush_trades, flush_candles, add_trade, write_trades, flush,
}

-- the trades that the writer has been given and holds: in the table and then in the batch
abbrev pub held : {Float : Type 0} → Writer Float → List Trade
held w = w.trades_table ++ w.trades_batch.rows

-- the batch of trades counts its rows, and has room for one more
pub record IsRoomy {Float : Type 0} (w : Writer Float) : Type 0 where
  pub counts : w.trades_batch.count ≡ length w.trades_batch.rows
  pub room : w.trades_batch.count < w.batch_size

module _ {Float : Type 0} (takes : ℕ → Bool) where
  flush_trades-held : (w : Writer Float) → held (flush_trades takes w).1 ≡ held w
  unfolding flush_trades
  flush_trades-held w = elim (Bool-cases (w.trades_batch.count == 0)) [
    | inl nothing ↦ rw nothing refl
    | inr rows ↦ elim (Bool-cases (takes w.inserts)) [
      | inl taken ↦ rw (rows, taken) (append-nil (held w))
      | inr refused ↦ rw (rows, refused) refl
    ]
  ]

  pub add_trade-held :
      (trade : Trade) (w : Writer Float) → held (add_trade takes trade w).1 ≡ held w ++ trade ∷ []
  unfolding add_trade
  add_trade-held trade w =
      let grown = sym (append_assoc w.trades_table w.trades_batch.rows (trade ∷ [])) in
      elim (Bool-cases (leb w.batch_size (w.trades_batch.count + 1))) [
        | inl full ↦ rw full (flush_trades-held _ ∙ grown)
        | inr roomy ↦ rw roomy grown
      ]

  add_trade-IsRoomy :
      (trade : Trade) (w : Writer Float)
      → IsRoomy w
      → (add_trade takes trade w).0 ≡ none
      → IsRoomy (add_trade takes trade w).1
  unfolding add_trade flush_trades
  add_trade-IsRoomy trade w h done = ground (arith, length-append w.trades_batch.rows (trade ∷ []))

  -- Whatever the database refuses, `WriteTrades` on a batch that counts its rows and has room returns
  -- no error, holds all its trades in their order after those held before, in the table or in the
  -- batch, and leaves room; or it returns an error and holds those up to and with the one at which it
  -- failed.
  pub write_trades-Writes :
      (trades : List Trade) (w : Writer Float)
      → IsRoomy w
      → Writes takes held IsRoomy trades w (write_trades takes trades w)
  unfolding write_trades
  write_trades-Writes [] w roomy = nothing-Writes takes held IsRoomy w roomy
  write_trades-Writes (trade ∷ trades) w roomy =
      add_then-Writes takes held IsRoomy trade trades w (add_trade takes trade w)
        (write_trades takes trades) (add_trade-held trade w) (add_trade-IsRoomy trade w roomy)
        (write_trades-Writes trades)

  flush_candles-held : (w : Writer Float) → held (flush_candles takes w).1 ≡ held w
  unfolding flush_candles
  flush_candles-held w = ground arith

  flush_then-held :
      (w : Writer Float) (r : Option WriterError × Writer Float)
      → held r.1 ≡ held w
      → held (and_then takes r (flush_candles takes)).1 ≡ held w
  flush_then-held w (none, w') h = flush_candles-held w' ∙ h
  flush_then-held w (some e, w') h = h

  pub flush-held : (w : Writer Float) → held (flush takes w).1 ≡ held w
  unfolding flush
  flush-held w = flush_then-held w (flush_trades takes w) (flush_trades-held w)
