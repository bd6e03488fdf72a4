-- ===== src/Candles/Batch.antt =====
-- A fetched batch of candles is acknowledged as a whole once both sinks hold it, or refused as a whole.
use mathlib.Core.List.{append_assoc, append-nil}
use mathlib.Core.Path.{sym, ap, ◌∙◌}
use lp_indexer.Prelude.{
  ℕ, suc, ◌<◌, ◌≡◌, ◌≢◌, refl, ◌⊎◌, inl, inr, Bool, Option, none, some, List, [], ◌∷◌, ◌++◌, map,
  length, take, arith, ◌==◌, nat_eq, Bool-cases, Option-cases, true,
}
use lp_indexer.Prelude.Bytes.{Bytes}
use lp_indexer.ClickHouse.Writer as ClickHouse
use lp_indexer.ClickHouse.Writer.{write_candles}
use lp_indexer.ClickHouse.Service.{Msg}
use lp_indexer.ClickHouse.CandleBatches.{held_candles, write_candles-Writes}
use lp_indexer.ClickHouse.Loops.{Writes}
use lp_indexer.Parquet.Writer as Parquet
use lp_indexer.Parquet.Writer.{Candle, CandleRow, append_candle}
use lp_indexer.Parquet.Buckets.{held, added, append_candle-held}
use lp_indexer.Candles.{
  Floats, translate_candle, Bridge, BridgeError, Decoded, decode, ParquetNet, append_all,
  on_parquet, to_parquet, on_clickhouse, process,
}

-- some messages divided into those that hold a candle, their candles, and the others
pub data Divides (candle_of : Bytes → Option Candle)
    : List Msg → List Msg → List Candle → List Msg → Type 0 where
  nil : Divides candle_of [] [] [] []
  readable :
      {msg : Msg} {candle : Candle} {msgs read bad : List Msg} {candles : List Candle}
      → candle_of msg.payload ≡ some candle
      → Divides candle_of msgs read candles bad
      → Divides candle_of (msg ∷ msgs) (msg ∷ read) (candle ∷ candles) bad
  unreadable :
      {msg : Msg} {msgs read bad : List Msg} {candles : List Candle}
      → candle_of msg.payload ≡ none
      → Divides candle_of msgs read candles bad
      → Divides candle_of (msg ∷ msgs) read candles (msg ∷ bad)

decode-Divides :
    (candle_of : Bytes → Option Candle) (msgs : List Msg)
    → let d = decode candle_of msgs in Divides candle_of msgs d.ack_msgs d.candles d.undecoded
unfolding decode
decode-Divides candle_of [] = nil
decode-Divides candle_of (msg ∷ msgs) = elim (Option-cases (candle_of msg.payload)) [
  | inl fails ↦ rw fails (unreadable fails (decode-Divides candle_of msgs))
  | inr (candle, reads) ↦ rw reads (readable reads (decode-Divides candle_of msgs))
]

-- the rows that some candles add to a bucket
abbrev pub added_all : Bytes → List Candle → List CandleRow
added_all key [] = []
added_all key (candle ∷ candles) = added key (some candle) ++ added_all key candles

-- the rows held of each bucket have grown by those of some candles
abbrev pub Grows : List Candle → Parquet.Writer → Parquet.Writer → Type 0
Grows candles w w' = (key : Bytes) → held key w' ≡ held key w ++ added_all key candles

abbrev Appends : List Candle → Parquet.Writer → Option Parquet.WriterError × Parquet.Writer → Type 0
Appends candles w r =
    (r.0 ≡ none) × Grows candles w r.1
    ⊎ ((n : ℕ) × n < length candles × (r.0 ≢ none) × Grows (take (suc n) candles) w r.1)

module _ (net : ParquetNet) where
  Grows-cons :
      (candle : Candle) (candles : List Candle) (w w' w'' : Parquet.Writer)
      → ((key : Bytes) → held key w' ≡ held key w ++ added key (some candle))
      → Grows candles w' w''
      → Grows (candle ∷ candles) w w''
  Grows-cons candle candles w w' w'' one more key =
      more key
      ∙ ap (λ l. l ++ added_all key candles) (one key)
      ∙ append_assoc (held key w) (added key (some candle)) (added_all key candles)

  Grows-one :
      (candle : Candle) (w w' : Parquet.Writer)
      → ((key : Bytes) → held key w' ≡ held key w ++ added key (some candle))
      → Grows (candle ∷ []) w w'
  Grows-one candle w w' one =
      Grows-cons candle [] w w' w' one (λ key. sym (append-nil (held key w')))

  then-Appends :
      (candle : Candle) (candles : List Candle) (w : Parquet.Writer)
      (r : Option Parquet.WriterError × Parquet.Writer)
      → ((key : Bytes) → held key r.1 ≡ held key w ++ added key (some candle))
      → ((w' : Parquet.Writer) → Appends candles w' (append_all net candles w'))
      → Appends
          (candle ∷ candles)
          w
          (Parquet.and_then net.uploaded net.visit r (append_all net candles))
  then-Appends candle candles w (some e, w') one rest =
      inr (0, omega arith, λ h. ground (arith, h), Grows-one candle w w' one)
  then-Appends candle candles w (none, w') one rest = elim (rest w') [
    | inl (done, more) ↦
        inl (done, Grows-cons candle candles w w' ((append_all net candles w').1) one more)
    | inr (n, less, failed, more) ↦ inr (
      suc n,
      omega arith,
      failed,
      Grows-cons candle (take (suc n) candles) w w' ((append_all net candles w').1) one more,
    )
  ]

  append_all-Appends :
      (candles : List Candle) (w : Parquet.Writer) → Appends candles w (append_all net candles w)
  unfolding append_all
  append_all-Appends [] w = inl (refl, λ key. sym (append-nil (held key w)))
  append_all-Appends (candle ∷ candles) w =
      then-Appends candle candles w
        (append_candle net.uploaded net.visit (net.now w) (net.later w) (some candle) w)
        (λ key.
          append_candle-held net.uploaded net.visit (net.now w) (net.later w) key (some candle) w)
        (append_all-Appends candles)

-- what the Parquet writer, where there is one, has been given
abbrev pub GrowsOpt : List Candle → Option Parquet.Writer → Option Parquet.Writer → Type 0
GrowsOpt candles none w' = w' ≡ none
GrowsOpt candles (some w) w' = (v : Parquet.Writer) × (w' ≡ some v) × Grows candles w v

module _ {Float : Type 0} (floats : Floats Float) where
  -- both sinks hold the candles, and the messages are acknowledged
  pub record Acked (read bad : List Msg) (candles : List Candle) (s s' : Bridge Float)
      : Type 0 where
    pub acked : s'.acked ≡ s.acked ++ read
    pub refused : s'.refused ≡ s.refused ++ bad
    pub rows :
        held_candles s'.writer ≡ held_candles s.writer ++ map (translate_candle floats) candles
    pub parquet : GrowsOpt candles s.parquet s'.parquet

  -- no message is acknowledged and all are refused; ClickHouse holds the candles up to the one at which
  -- it failed and Parquet has none, or ClickHouse holds all and Parquet those up to where it failed
  pub record Refused (read bad : List Msg) (candles : List Candle) (s s' : Bridge Float)
      : Type 0 where
    pub acked : s'.acked ≡ s.acked
    pub refused : s'.refused ≡ s.refused ++ bad ++ read
    pub sinks :
        ((n : ℕ) × n < length (map (translate_candle floats) candles)
          × (held_candles s'.writer
              ≡ held_candles s.writer ++ take (suc n) (map (translate_candle floats) candles))
          × (s'.parquet ≡ s.parquet))
        ⊎ ((n : ℕ) × n < length candles
            × (held_candles s'.writer
                ≡ held_candles s.writer ++ map (translate_candle floats) candles)
            × GrowsOpt (take (suc n) candles) s.parquet s'.parquet)

  abbrev pub Settles :
      List Msg → List Msg → List Candle → Bridge Float → Option BridgeError × Bridge Float → Type 0
  Settles read bad candles s (none, s') = Acked read bad candles s s'
  Settles read bad candles s (some e, s') = Refused read bad candles s s'

  module _ (takes : ℕ → Bool) (net : ParquetNet) (candle_of : Bytes → Option Candle) where
    on_parquet-Settles :
        (d : Decoded) (w : Parquet.Writer) (s : Bridge Float) (writer : ClickHouse.Writer Float)
        (r : Option Parquet.WriterError × Parquet.Writer)
        → s.parquet ≡ some w
        → held_candles writer ≡ held_candles s.writer ++ map (translate_candle floats) d.candles
        → Appends d.candles w r
        → Settles d.ack_msgs d.undecoded d.candles s (
            on_parquet floats takes net candle_of d.ack_msgs r
              (record s { writer = writer; refused = s.refused ++ d.undecoded }))
    on_parquet-Settles d w s writer (none, w') has rows (inl (done, grows)) = record {
      acked = refl;
      refused = refl;
      rows = rows;
      parquet = rw has (w', refl, grows);
    }
    on_parquet-Settles d w s writer (none, w') has rows (inr (n, less, failed, grows)) =
        absurd (failed refl)
    on_parquet-Settles d w s writer (some e, w') has rows (inl (done, grows)) =
        absurd (ground (arith, done))
    on_parquet-Settles d w s writer (some e, w') has rows (inr (n, less, failed, grows)) = record {
      acked = refl;
      refused = refl;
      sinks = inr (n, less, rows, rw has (w', refl, grows));
    }

    to_parquet-Settles :
        (d : Decoded) (o : Option Parquet.Writer) (s : Bridge Float)
        (writer : ClickHouse.Writer Float)
        → s.parquet ≡ o
        → held_candles writer ≡ held_candles s.writer ++ map (translate_candle floats) d.candles
        → Settles d.ack_msgs d.undecoded d.candles s (
            to_parquet floats takes net candle_of d o
              (record s { writer = writer; refused = s.refused ++ d.undecoded }))
    unfolding to_parquet
    to_parquet-Settles d none s writer without rows = record {
      acked = refl;
      refused = refl;
      rows = rows;
      parquet = rw without refl;
    }
    to_parquet-Settles d (some w) s writer has rows =
        on_parquet-Settles d w s writer (append_all net d.candles w) has rows
          (append_all-Appends net d.candles w)

    on_clickhouse-Settles :
        (d : Decoded) (s : Bridge Float)
        (r : Option ClickHouse.WriterError × ClickHouse.Writer Float)
        → Writes takes held_candles (λ w. Unit) (map (translate_candle floats) d.candles) s.writer r
        → Settles d.ack_msgs d.undecoded d.candles s (
            on_clickhouse floats takes net candle_of d r
              (record s { refused = s.refused ++ d.undecoded }))
    on_clickhouse-Settles d s (none, w) (inl (done, rows, any)) =
        to_parquet-Settles d s.parquet s w refl rows
    on_clickhouse-Settles d s (none, w) (inr (n, less, failed, rows)) = absurd (failed refl)
    on_clickhouse-Settles d s (some e, w) (inl (done, rows, any)) = absurd (ground (arith, done))
    on_clickhouse-Settles d s (some e, w) (inr (n, less, failed, rows)) = record {
      acked = refl;
      refused = refl;
      sinks = inl (n, less, rows, refl);
    }

    GrowsOpt-none : (w : Option Parquet.Writer) → GrowsOpt [] w w
    GrowsOpt-none none = refl
    GrowsOpt-none (some w) = (w, refl, λ key. sym (append-nil (held key w)))

    empty_batch :
        {msgs read bad : List Msg} {candles : List Candle}
        → Divides candle_of msgs read candles bad
        → (length candles == 0) ≡ true
        → (read ≡ []) × (candles ≡ [])
    empty_batch nil h = (refl, refl)
    empty_batch (readable reads rest) h = absurd (ground (arith, h))
    empty_batch (unreadable fails rest) h = empty_batch rest h

    -- where no message holds a candle, none is acknowledged
    nothing-Settles :
        {msgs read bad : List Msg} {candles : List Candle} (s : Bridge Float)
        → Divides candle_of msgs read candles bad
        → (length candles == 0) ≡ true
        → Settles read bad candles s (none, record s { refused = s.refused ++ bad })
    nothing-Settles s divides h =
        let (no_read, no_candles) = empty_batch divides h in
        rw (no_read, no_candles)
          (record {
            acked = sym (append-nil s.acked);
            refused = refl;
            rows = sym (append-nil (held_candles s.writer));
            parquet = GrowsOpt-none s.parquet;
          })

    -- `Process` divides a fetched batch into the messages that hold a candle and the others, which it
    -- refuses. Without an error it acknowledges all the former, and ClickHouse's and Parquet's writers
    -- hold all their candles, each in its order; with an error it acknowledges none and refuses all, and
    -- what the writers hold has grown by a first part of the candles.
    pub process-Settles :
        (msgs : List Msg) (s : Bridge Float)
        → (read : List Msg) × (bad : List Msg) × (candles : List Candle) × Divides candle_of msgs
            read candles bad
          × Settles read bad candles s (process floats takes net candle_of msgs s)
    unfolding process
    process-Settles msgs s =
        let d = decode candle_of msgs in
        (
          d.ack_msgs,
          d.undecoded,
          d.candles,
          decode-Divides candle_of msgs,
          elim (Bool-cases (length d.candles == 0)) [
            | inl nothing ↦ rw nothing (nothing-Settles s (decode-Divides candle_of msgs) nothing)
            | inr some_candles ↦ rw some_candles (
                on_clickhouse-Settles d s
                  (write_candles takes (map (translate_candle floats) d.candles) s.writer)
                  (write_candles-Writes takes (map (translate_candle floats) d.candles) s.writer))
          ],
        )
