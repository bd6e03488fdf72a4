-- ===== src/Parquet/Buckets.antt =====
-- The rows of each bucket are uploaded in order, none lost and none twice, whatever uploads fail.
use mathlib.Core.List.{append_assoc, append-nil}
use mathlib.Core.Path.{sym, ap, ◌∙◌}
use lp_indexer.Prelude.{
  ℕ, ◌-◌, ◌≡◌, refl, inl, inr, Bool, true, Option, none, some, List, [], ◌∷◌, ◌++◌, ◌||◌, leb,
  length, ◌==◌, nat_eq, Bool-cases, if◌then◌else◌,
}
use lp_indexer.Prelude.Bytes.{Bytes}
use lp_indexer.Prelude.Maps.{lookup, insert, lookup-insert}
use lp_indexer.Parquet.Keys.{bytes_eq, bucket_key}
use lp_indexer.Parquet.Writer.{
  Candle, CandleRow, Object, Writer, WriterError, or_empty, rows_at, row_of, timeframe_of, scope_of,
  write_bucket, flush_bucket, and_then, flush_loop, flush_locked, append_candle,
}

-- the rows of some objects that come from a bucket
abbrev pub uploaded_rows : Bytes → List Object → List CandleRow
uploaded_rows key [] = []
uploaded_rows key (object ∷ objects) =
    if object.bucket == key
    then object.rows ++ uploaded_rows key objects
    else uploaded_rows key objects

uploaded_rows-last :
    (key : Bytes) (objects : List Object) (object : Object)
    → uploaded_rows key (objects ++ object ∷ [])
      ≡ uploaded_rows key objects ++ (if object.bucket == key then object.rows else [])
uploaded_rows-last key [] object = elim (Bool-cases (object.bucket == key)) [
  | inl same ↦ rw same (append-nil object.rows)
  | inr other ↦ rw other refl
]
uploaded_rows-last key (o ∷ objects) object = elim (Bool-cases (o.bucket == key)) [
  | inl same ↦
      rw (same, uploaded_rows-last key objects object)
        (sym (append_assoc o.rows (uploaded_rows key objects) _))
  | inr other ↦ rw other (uploaded_rows-last key objects object)
]

-- the rows of a bucket that the writer holds: those uploaded, and then those in the bucket
abbrev pub held : Bytes → Writer → List CandleRow
held key w = uploaded_rows key w.objects ++ rows_at key w

pub or_empty-insert :
    (key other : Bytes) (rows : List CandleRow) (buckets : List (Bytes × List CandleRow))
    → or_empty (lookup other (insert key rows buckets))
      ≡ (if key == other then rows else or_empty (lookup other buckets))
or_empty-insert key other rows buckets = elim (Bool-cases (key == other)) [
  | inl same ↦ rw (lookup-insert key other rows buckets, same) refl
  | inr different ↦ rw (lookup-insert key other rows buckets, different) refl
]

-- the bucket of the one key, or nothing
at_key : (key other : Bytes) (w : Writer) → (key == other) ≡ true → rows_at key w ≡ rows_at other w
at_key key other w same = ap (λ k. rows_at k w) ((bytes_eq.beq_iff key other).0 same)

-- a bucket's rows that are uploaded and leave the bucket are held as before
moved-held :
    (key other : Bytes) (object : Object) (w : Writer)
    → object.bucket ≡ key
    → object.rows ≡ rows_at key w
    → uploaded_rows other (w.objects ++ object ∷ [])
        ++ or_empty (lookup other (insert key [] w.buckets))
      ≡ held other w
moved-held key other object w of_key its_rows = elim (Bool-cases (key == other)) [
  | inl same ↦
      rw
        (
          uploaded_rows-last other w.objects object,
          or_empty-insert key other [] w.buckets,
          of_key,
          same,
          its_rows,
        )
        (append-nil (uploaded_rows other w.objects ++ rows_at key w)
          ∙ ap (λ l. uploaded_rows other w.objects ++ l) (at_key key other w same))
  | inr different ↦
      rw
        (
          uploaded_rows-last other w.objects object,
          or_empty-insert key other [] w.buckets,
          of_key,
          different,
        )
        (ap (λ l. l ++ rows_at other w) (append-nil (uploaded_rows other w.objects)))
]

-- the rows that a candle adds to a bucket
abbrev pub added : Bytes → Option Candle → List CandleRow
added key none = []
added key (some candle) =
    if bucket_key (timeframe_of candle) (scope_of candle) == key then row_of candle ∷ [] else []

module _ (uploaded : ℕ → Bool) (visit : List (Bytes × List CandleRow) → List Bytes) where
  flush_bucket-held :
      (key other : Bytes) (w : Writer)
      → held other (flush_bucket uploaded visit key w).1 ≡ held other w
  unfolding flush_bucket write_bucket
  flush_bucket-held key other w = elim (Bool-cases (length (rows_at key w) == 0)) [
    | inl nothing ↦ rw nothing refl
    | inr rows ↦ elim (Bool-cases (uploaded w.uploads)) [
      | inl done ↦ rw (rows, done) (moved-held key other _ w refl refl)
      | inr failed ↦ rw (rows, failed) refl
    ]
  ]

  and_then-held :
      (other : Bytes) (w : Writer) (r : Option WriterError × Writer)
      (next : Writer → Option WriterError × Writer)
      → held other r.1 ≡ held other w
      → ((w' : Writer) → held other (next w').1 ≡ held other w')
      → held other (and_then uploaded visit r next).1 ≡ held other w
  and_then-held other w (none, w') next h rest = rest w' ∙ h
  and_then-held other w (some e, w') next h rest = h

  flush_loop-held :
      (keys : List Bytes) (other : Bytes) (w : Writer)
      → held other (flush_loop uploaded visit keys w).1 ≡ held other w
  unfolding flush_loop
  flush_loop-held [] other w = refl
  flush_loop-held (key ∷ keys) other w =
      and_then-held other w (flush_bucket uploaded visit key w) (flush_loop uploaded visit keys)
        (flush_bucket-held key other w) (flush_loop-held keys other)

  pub flush_locked-held :
      (later : ℕ) (other : Bytes) (w : Writer)
      → held other (flush_locked uploaded visit later w).1 ≡ held other w
  unfolding flush_locked
  flush_locked-held later other w = elim (Bool-cases (length w.buckets == 0)) [
    | inl nothing ↦ rw nothing refl
    | inr some_buckets ↦ rw some_buckets (
        and_then-held other w (flush_loop uploaded visit (visit w.buckets) w) _
          (flush_loop-held (visit w.buckets) other w) (λ w'. refl))
  ]

  grown-held :
      (other key : Bytes) (row : CandleRow) (w : Writer)
      → held other (record w { buckets = insert key (rows_at key w ++ row ∷ []) w.buckets })
        ≡ held other w ++ (if key == other then row ∷ [] else [])
  grown-held other key row w = elim (Bool-cases (key == other)) [
    | inl same ↦
        rw (or_empty-insert key other (rows_at key w ++ row ∷ []) w.buckets, same)
          (sym (append_assoc (uploaded_rows other w.objects) (rows_at key w) (row ∷ []))
            ∙ ap (λ l. uploaded_rows other w.objects ++ l ++ row ∷ []) (at_key key other w same))
    | inr different ↦
        rw (or_empty-insert key other (rows_at key w ++ row ∷ []) w.buckets, different)
          (sym (append-nil (held other w)))
  ]

  -- Whichever uploads fail and in whatever order the buckets are visited, `AppendCandle` adds the row
  -- of its candle to the rows held of its bucket, at their end, and leaves the rows held of every other
  -- bucket as they are; a nil candle adds nothing.
  pub append_candle-held :
      (now later : ℕ) (key : Bytes) (candle : Option Candle) (w : Writer)
      → held key (append_candle uploaded visit now later candle w).1
        ≡ held key w ++ added key candle
  unfolding append_candle
  append_candle-held now later key none w = sym (append-nil (held key w))
  append_candle-held now later key (some candle) w =
      let grown =
        grown-held key (bucket_key (timeframe_of candle) (scope_of candle)) (row_of candle) w in
      elim (Bool-cases (
        leb w.batch_rows (
          length
            (rows_at (bucket_key (timeframe_of candle) (scope_of candle)) w ++ row_of candle ∷ []))
        || leb w.flush_interval (now - w.last_flush))) [
          | inl due ↦ rw due (flush_locked-held later key _ ∙ grown)
          | inr not_due ↦ rw not_due grown
        ]
