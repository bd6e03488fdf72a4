-- ===== src/Parquet/Service/Messages.antt =====
-- The rows of some messages, and what the Parquet service holds after one.
use mathlib.Core.List.{append_assoc, append-nil}
use mathlib.Core.Path.{sym, ap, ◌∙◌}
use lp_indexer.Prelude.{
  ℕ, ◌≡◌, refl, inl, inr, Bool, true, Option, none, some, List, [], ◌∷◌, ◌++◌, Bool-cases,
  Option-cases, if◌then◌else◌,
}
use lp_indexer.Prelude.Bytes.{Bytes, codes, contains}
use lp_indexer.ClickHouse.Service.{Msg}
use lp_indexer.Parquet.Writer.{Candle, CandleRow, Writer, WriterError, append_candle}
use lp_indexer.Parquet.Buckets.{held, added, append_candle-held}
use lp_indexer.Parquet.Service.{Sink, written, handle_candle, handle_message}

module _ (candle_of : Bytes → Option Candle) where
  -- the row that a message adds to a bucket, and those that some messages add
  abbrev pub row_of_message : Bytes → Msg → List CandleRow
  row_of_message key msg =
      if contains msg.subject (codes ".candle.") then added key (candle_of msg.payload) else []

  abbrev pub rows_of : Bytes → List Msg → List CandleRow
  rows_of key [] = []
  rows_of key (msg ∷ msgs) = row_of_message key msg ++ rows_of key msgs

  pub rows_of-last :
      (key : Bytes) (msgs : List Msg) (msg : Msg)
      → rows_of key (msgs ++ msg ∷ []) ≡ rows_of key msgs ++ row_of_message key msg
  rows_of-last key [] msg = append-nil (row_of_message key msg)
  rows_of-last key (m ∷ msgs) msg =
      ap (λ l. row_of_message key m ++ l) (rows_of-last key msgs msg)
      ∙ sym (append_assoc (row_of_message key m) (rows_of key msgs) (row_of_message key msg))

module _ (uploaded : ℕ → Bool) (visit : List (Bytes × List CandleRow) → List Bytes)
    (now later : Writer → ℕ) (candle_of : Bytes → Option Candle) where
  pub record Handled (msg : Msg) (s s' : Sink) : Type 0 where
    pub acked : s'.acked ≡ s.acked
    pub refused : s'.refused ≡ s.refused
    pub holds :
        (key : Bytes) → held key s'.writer ≡ held key s.writer ++ row_of_message candle_of key msg

  written-Handled :
      (msg : Msg) (s : Sink) (r : Option WriterError × Writer)
      → ((key : Bytes) → held key r.1 ≡ held key s.writer ++ row_of_message candle_of key msg)
      → Handled msg s (written uploaded visit now later candle_of r s).1
  written-Handled msg s (none, w) h = record { acked = refl; refused = refl; holds = h }
  written-Handled msg s (some e, w) h = record { acked = refl; refused = refl; holds = h }

  handle_candle-Handled :
      (msg : Msg) (s : Sink)
      → contains msg.subject (codes ".candle.") ≡ true
      → Handled msg s (handle_candle uploaded visit now later candle_of (candle_of msg.payload) s).1
  unfolding handle_candle
  handle_candle-Handled msg s ours = elim (Option-cases (candle_of msg.payload)) [
    | inl fails ↦ rw fails (record {
      acked = refl;
      refused = refl;
      holds = λ key. rw (ours, fails) (sym (append-nil (held key s.writer)));
    })
    | inr (candle, reads) ↦ rw reads (
        written-Handled msg s
          (append_candle uploaded visit (now s.writer) (later s.writer) (some candle) s.writer)
          (λ key.
            rw (ours, reads)
              (append_candle-held uploaded visit (now s.writer) (later s.writer) key (some candle)
                s.writer)))
  ]

  pub handle_message-Handled :
      (msg : Msg) (s : Sink)
      → Handled msg s (handle_message uploaded visit now later candle_of msg s).1
  unfolding handle_message
  handle_message-Handled msg s = elim (Bool-cases (contains msg.subject (codes ".candle."))) [
    | inl ours ↦ rw ours (handle_candle-Handled msg s ours)
    | inr other ↦ rw other (record {
      acked = refl;
      refused = refl;
      holds = λ key. rw other (sym (append-nil (held key s.writer)));
    })
  ]
