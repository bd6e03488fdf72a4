-- ===== src/ClickHouse/Loops.antt =====
-- The loops of `WriteTrades` and `WriteCandles` have one shape: add a row, and go on unless it failed.
use mathlib.Core.List.{append_assoc, append-nil}
use mathlib.Core.Path.{sym, ap, ◌∙◌}
use lp_indexer.Prelude.{
  ℕ, suc, ◌<◌, ◌≡◌, ◌≢◌, refl, ◌⊎◌, inl, inr, Option, none, some, List, [], ◌∷◌, ◌++◌, arith,
  length, take, Bool,
}
use lp_indexer.ClickHouse.Writer.{Writer, WriterError, and_then}

module _ {Float Row : Type 0} (takes : ℕ → Bool) (held : Writer Float → List Row)
    (IsRoomy : Writer Float → Type 0) where
  -- What the loop leaves: all the rows are held and the batch has room, or the loop failed at a row and
  -- those up to it are held.
  abbrev pub Writes : List Row → Writer Float → Option WriterError × Writer Float → Type 0
  Writes rows w r =
      (r.0 ≡ none) × (held r.1 ≡ held w ++ rows) × IsRoomy r.1
      ⊎ ((n : ℕ) × n < length rows × (r.0 ≢ none) × (held r.1 ≡ held w ++ take (suc n) rows))

  pub nothing-Writes : (w : Writer Float) → IsRoomy w → Writes [] w (none, w)
  nothing-Writes w roomy = inl (refl, sym (append-nil (held w)), roomy)

  Writes-cons :
      (row : Row) (rows : List Row) (w w' : Writer Float) (r : Option WriterError × Writer Float)
      → held w' ≡ held w ++ row ∷ []
      → Writes rows w' r
      → Writes (row ∷ rows) w r
  Writes-cons row rows w w' r grown (inl (done, all, roomy)) =
      inl (done, all ∙ ap (λ l. l ++ rows) grown ∙ append_assoc (held w) (row ∷ []) rows, roomy)
  Writes-cons row rows w w' r grown (inr (n, less, failed, part)) = inr (
    suc n,
    omega arith,
    failed,
    part
        ∙ ap (λ l. l ++ take (suc n) rows) grown
        ∙ append_assoc (held w) (row ∷ []) (take (suc n) rows),
  )

  pub add_then-Writes :
      (row : Row) (rows : List Row) (w : Writer Float) (r : Option WriterError × Writer Float)
      (next : Writer Float → Option WriterError × Writer Float)
      → held r.1 ≡ held w ++ row ∷ []
      → (r.0 ≡ none → IsRoomy r.1)
      → ((w' : Writer Float) → IsRoomy w' → Writes rows w' (next w'))
      → Writes (row ∷ rows) w (and_then takes r next)
  add_then-Writes row rows w (none, w') next grown roomy rest =
      Writes-cons row rows w w' _ grown (rest w' (roomy refl))
  add_then-Writes row rows w (some e, w') next grown roomy rest =
      inr (0, omega arith, λ h. ground arith, grown)
