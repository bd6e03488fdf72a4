-- ===== src/Parquet/Flushes.antt =====
-- A flush that succeeds leaves no rows in the buckets.
use mathlib.Core.Path.{sym, ap, ◌∙◌}
use lp_indexer.Prelude.{
  ℕ, ◌≡◌, ◌≢◌, refl, ◌⊎◌, inl, inr, Bool, true, Option, none, some, List, [], ◌∷◌, arith, length,
  ◌==◌, nat_eq, Bool-cases,
}
use lp_indexer.Prelude.Bytes.{Bytes}
use lp_indexer.Prelude.Maps.{lookup, insert}
use lp_indexer.Parquet.Keys.{bytes_eq}
use lp_indexer.Parquet.Writer.{
  CandleRow, Writer, WriterError, or_empty, rows_at, write_bucket, flush_bucket, and_then,
  flush_loop, flush_locked,
}
use lp_indexer.Parquet.Buckets.{or_empty-insert}

rows-cases : (rows : List CandleRow) → (rows ≡ []) ⊎ (rows ≢ [])
rows-cases [] = inl refl
rows-cases (row ∷ rows) = inr (λ h. ground (arith, h))

no_rows : (rows : List CandleRow) → (length rows == 0) ≡ true → rows ≡ []
no_rows [] h = refl
no_rows (row ∷ rows) h = absurd (ground (arith, h))

-- the key stands among those that Go visits
abbrev pub IsVisited : Bytes → List Bytes → Type 0
IsVisited key [] = ⊥
IsVisited key (first ∷ keys) = (first ≡ key) ⊎ IsVisited key keys

module _ (uploaded : ℕ → Bool) (visit : List (Bytes × List CandleRow) → List Bytes) where
  -- what a step leaves: the empty buckets stay empty, and where it returns no error the given bucket is empty
  record Empties (key : Bytes) (w : Writer) (r : Option WriterError × Writer) : Type 0 where
    stays : (other : Bytes) → rows_at other w ≡ [] → rows_at other r.1 ≡ []
    empties : r.0 ≡ none → rows_at key r.1 ≡ []

  emptied_rows :
      (key other : Bytes) (buckets : List (Bytes × List CandleRow))
      → or_empty (lookup other buckets) ≡ []
      → or_empty (lookup other (insert key [] buckets)) ≡ []
  emptied_rows key other buckets h =
      or_empty-insert key other [] buckets ∙ elim (Bool-cases (key == other)) [
        | inl same ↦ rw same refl
        | inr different ↦ rw different h
      ]

  emptied_self :
      (key : Bytes) (buckets : List (Bytes × List CandleRow))
      → or_empty (lookup key (insert key [] buckets)) ≡ []
  emptied_self key buckets =
      or_empty-insert key key [] buckets ∙ rw ((bytes_eq.beq_iff key key).1 refl) refl

  flush_bucket-Empties :
      (key : Bytes) (w : Writer) → Empties key w (flush_bucket uploaded visit key w)
  unfolding flush_bucket write_bucket
  flush_bucket-Empties key w = elim (Bool-cases (length (rows_at key w) == 0)) [
    | inl nothing ↦
        rw nothing (record { stays = λ other h. h; empties = λ h. no_rows (rows_at key w) nothing })
    | inr rows ↦ elim (Bool-cases (uploaded w.uploads)) [
      | inl done ↦
          rw (rows, done)
            (record {
              stays = λ other h. emptied_rows key other w.buckets h;
              empties = λ h. emptied_self key w.buckets;
            })
      | inr failed ↦
          rw (rows, failed)
            (record { stays = λ other h. h; empties = λ h. absurd (ground (arith, h)) })
    ]
  ]

  then_stays :
      (other : Bytes) (r : Option WriterError × Writer)
      (next : Writer → Option WriterError × Writer)
      → rows_at other r.1 ≡ []
      → ((w' : Writer) → rows_at other w' ≡ [] → rows_at other (next w').1 ≡ [])
      → rows_at other (and_then uploaded visit r next).1 ≡ []
  then_stays other (none, w') next h rest = rest w' h
  then_stays other (some e, w') next h rest = h

  flush_loop-stays :
      (keys : List Bytes) (other : Bytes) (w : Writer)
      → rows_at other w ≡ []
      → rows_at other (flush_loop uploaded visit keys w).1 ≡ []
  unfolding flush_loop
  flush_loop-stays [] other w h = h
  flush_loop-stays (key ∷ keys) other w h =
      then_stays other (flush_bucket uploaded visit key w) (flush_loop uploaded visit keys)
        ((flush_bucket-Empties key w).stays other h) (flush_loop-stays keys other)

  then_empties :
      (other : Bytes) (r : Option WriterError × Writer)
      (next : Writer → Option WriterError × Writer)
      → (r.0 ≡ none → (next r.1).0 ≡ none → rows_at other (next r.1).1 ≡ [])
      → (and_then uploaded visit r next).0 ≡ none
      → rows_at other (and_then uploaded visit r next).1 ≡ []
  then_empties other (none, w') next h done = h refl done
  then_empties other (some e, w') next h done = absurd (ground (arith, done))

  flush_loop-empties :
      (keys : List Bytes) (key : Bytes) (w : Writer)
      → IsVisited key keys
      → (flush_loop uploaded visit keys w).0 ≡ none
      → rows_at key (flush_loop uploaded visit keys w).1 ≡ []
  unfolding flush_loop
  flush_loop-empties [] key w visited done = absurd visited
  flush_loop-empties (first ∷ keys) key w (inl this) done =
      then_empties key (flush_bucket uploaded visit first w) (flush_loop uploaded visit keys)
        (λ ok rest. flush_loop-stays keys key (flush_bucket uploaded visit first w).1 (
          ap (λ k. rows_at k (flush_bucket uploaded visit first w).1) (sym this)
          ∙ (flush_bucket-Empties first w).empties ok))
        done
  flush_loop-empties (first ∷ keys) key w (inr later) done =
      then_empties key (flush_bucket uploaded visit first w) (flush_loop uploaded visit keys)
        (λ ok rest. flush_loop-empties keys key (flush_bucket uploaded visit first w).1 later rest)
        done

  no_buckets :
      (key : Bytes) (buckets : List (Bytes × List CandleRow))
      → (length buckets == 0) ≡ true
      → or_empty (lookup key buckets) ≡ []
  unfolding lookup
  no_buckets key [] h = refl
  no_buckets key (bucket ∷ buckets) h = absurd (ground (arith, h))

  first_of :
      (key : Bytes) (later : ℕ) (r : Option WriterError × Writer)
      → ((r.0 ≡ none) → rows_at key r.1 ≡ [])
      → (and_then uploaded visit r (λ w. (none, record w { last_flush = later }))).0 ≡ none
      → rows_at key (and_then uploaded visit r (λ w. (none, record w { last_flush = later }))).1
        ≡ []
  first_of key later (none, w) h done = h refl
  first_of key later (some e, w) h done = absurd (ground (arith, done))

  -- A flush that returns no error, in which Go visits every bucket that holds rows, leaves no row in
  -- any bucket.
  pub flush_locked-empties :
      (later : ℕ) (w : Writer)
      → ((key : Bytes) → rows_at key w ≢ [] → IsVisited key (visit w.buckets))
      → (flush_locked uploaded visit later w).0 ≡ none
      → (key : Bytes) → rows_at key (flush_locked uploaded visit later w).1 ≡ []
  unfolding flush_locked
  flush_locked-empties later w visits done key = elim (Bool-cases (length w.buckets == 0)) [
    | inl nothing ↦ rw nothing (no_buckets key w.buckets nothing)
    | inr full ↦ rw full (
        first_of key later (flush_loop uploaded visit (visit w.buckets) w)
          (λ ok. elim (rows-cases (rows_at key w)) [
            | inl empty ↦ flush_loop-stays (visit w.buckets) key w empty
            | inr rows ↦ flush_loop-empties (visit w.buckets) key w (visits key rows) ok
          ])
          (rw full at done))
  ]
