-- ===== src/Publisher/Routes.antt =====
-- sinks/nats/publisher.go with sinks/clickhouse/service.go and sinks/parquet/service.go: the sinks tell the
-- messages of the publisher apart by their subjects.
use mathlib.Core.List.{append_assoc, reverse, reverse-append}
use mathlib.Core.Path.{sym, ap, ◌∙◌}
use lp_indexer.Prelude.{
  ℕ, Option, none, List, ◌≡◌, refl, Bool, true, false, [], ◌∷◌, ◌++◌, ◌||◌, arith,
}
use lp_indexer.Prelude.Bytes.{Bytes, codes, has_prefix, contains}
use lp_indexer.Dex.{SwapEvent, BlockHead}
use lp_indexer.Parquet.Writer.{Candle, CandleRow, Writer}
use lp_indexer.Parquet.Service as Parquet
use lp_indexer.ClickHouse.Service as ClickHouse
use lp_indexer.ClickHouse.Service.{has_suffix}
use lp_indexer.Processor.State.{Publication, swap_published, head_published, meta_published}
use lp_indexer.Publisher.{program_segment, subject}
use lp_indexer.Publisher.Outputs.{scope, candle_subject}

-- the end of a text decides what the text ends in
has_suffix-append :
    (front back suffix : Bytes)
    → has_suffix (front ++ back) suffix
      ≡ has_prefix (reverse back ++ reverse front) (reverse suffix)
unfolding has_suffix
has_suffix-append front back suffix =
    ap (λ s. has_prefix s (reverse suffix)) (reverse-append front back)

has_prefix_self : (s t : Bytes) → has_prefix (s ++ t) s ≡ true
unfolding has_prefix
has_prefix_self [] t = refl
has_prefix_self (c ∷ s) t = ground (arith, has_prefix_self s t)

or_true : (a : Bool) {b : Bool} → b ≡ true → a || b ≡ true
or_true true h = refl
or_true false h = h

contains-prefix : (s text : Bytes) → has_prefix s text ≡ true → contains s text ≡ true
unfolding contains
contains-prefix [] text h = h
contains-prefix (c ∷ s) text h = rw h refl

contains-append : (front text back : Bytes) → contains (front ++ (text ++ back)) text ≡ true
unfolding contains
contains-append [] text back = contains-prefix (text ++ back) text (has_prefix_self text back)
contains-append (c ∷ front) text back =
    or_true (has_prefix (c ∷ (front ++ (text ++ back))) text) (contains-append front text back)

abbrev pub is_swap : Publication → Bool
is_swap (swap_published e) = true
is_swap (head_published head) = false
is_swap (meta_published meta) = false

abbrev pub is_head : Publication → Bool
is_head (swap_published e) = false
is_head (head_published head) = true
is_head (meta_published meta) = false

swap_subject :
    (root segment suffix : Bytes)
    → has_suffix (root ++ (codes "." ++ (segment ++ codes ".swap"))) suffix
      ≡ has_prefix
          (reverse (codes ".swap") ++ reverse (root ++ (codes "." ++ segment)))
          (reverse suffix)
swap_subject root segment suffix =
    ap (λ s. has_suffix s suffix)
      (ap (λ s. root ++ s) (sym (append_assoc (codes ".") segment (codes ".swap")))
        ∙ sym (append_assoc root (codes "." ++ segment) (codes ".swap")))
    ∙ has_suffix-append (root ++ (codes "." ++ segment)) (codes ".swap") suffix

swap_end :
    (root : Bytes) (p : Publication) → has_suffix (subject root p) (codes ".swap") ≡ is_swap p
unfolding subject has_prefix
swap_end root (swap_published e) = swap_subject root (program_segment e.program_id) (codes ".swap")
swap_end root (head_published head) = has_suffix-append root (codes ".blocks.head") (codes ".swap")
swap_end root (meta_published meta) = has_suffix-append root (codes ".tx.meta") (codes ".swap")

head_end :
    (root : Bytes) (p : Publication)
    → has_suffix (subject root p) (codes ".blocks.head") ≡ is_head p
unfolding subject has_prefix
head_end root (swap_published e) =
    swap_subject root (program_segment e.program_id) (codes ".blocks.head")
head_end root (head_published head) =
    has_suffix-append root (codes ".blocks.head") (codes ".blocks.head")
head_end root (meta_published meta) =
    has_suffix-append root (codes ".tx.meta") (codes ".blocks.head")

module _ {Float : Type 0} (takes : ℕ → Bool) (swap_of : Bytes → Option SwapEvent)
    (head_of : Bytes → Option BlockHead) where
  -- what the ClickHouse sink does with a publication's payload
  abbrev pub takes_up :
      Publication
      → Bytes
      → ClickHouse.Sink Float
      → Option ClickHouse.ServiceError × ClickHouse.Sink Float
  takes_up (swap_published e) payload s =
      ClickHouse.handle_swap takes swap_of head_of (swap_of payload) s
  takes_up (head_published head) payload s =
      ClickHouse.handle_head takes swap_of head_of (head_of payload) s
  takes_up (meta_published meta) payload s = (none, s)

  handle_message-takes_up :
      (root payload : Bytes) (p : Publication) (s : ClickHouse.Sink Float)
      → ClickHouse.handle_message takes swap_of head_of
          (record { subject = subject root p; payload = payload })
          s
        ≡ takes_up p payload s
  unfolding ClickHouse.handle_message
  handle_message-takes_up root payload (swap_published e) s =
      rw (swap_end root (swap_published e)) refl
  handle_message-takes_up root payload (head_published head) s =
      rw (swap_end root (head_published head), head_end root (head_published head)) refl
  handle_message-takes_up root payload (meta_published meta) s =
      rw (swap_end root (meta_published meta), head_end root (meta_published meta)) refl

-- what the sinks do with the publisher's messages
pub record Routes {Float : Type 0} (takes : ℕ → Bool) (swap_of : Bytes → Option SwapEvent)
    (head_of : Bytes → Option BlockHead) (uploaded : ℕ → Bool)
    (visit : List (Bytes × List CandleRow) → List Bytes) (now later : Writer → ℕ)
    (candle_of : Bytes → Option Candle) (root payload : Bytes) (s : ClickHouse.Sink Float)
    (t : Parquet.Sink) : Type 0 where
  pub events :
      (p : Publication)
      → ClickHouse.handle_message takes swap_of head_of
          (record { subject = subject root p; payload = payload })
          s
        ≡ takes_up takes swap_of head_of p payload s
  pub candles :
      (candle : Candle)
      → Parquet.handle_message uploaded visit now later candle_of
          (record { subject = candle_subject root candle; payload = payload })
          t
        ≡ Parquet.handle_candle uploaded visit now later candle_of (candle_of payload) t

-- Whatever the root of the subjects, the payload and the state of the sinks: the `handleMessage` of the
-- ClickHouse sink, on a message under the subject that the publisher gives a swap, a block head or a
-- transaction's metadata, handles the payload as a swap, handles it as a block head, or does nothing; and
-- that of the Parquet sink, on a message under the subject that the publisher gives a candle of any scope
-- and timeframe, handles the payload as a candle.
pub subject-Routes :
    {Float : Type 0} (takes : ℕ → Bool) (swap_of : Bytes → Option SwapEvent)
    (head_of : Bytes → Option BlockHead) (uploaded : ℕ → Bool)
    (visit : List (Bytes × List CandleRow) → List Bytes) (now later : Writer → ℕ)
    (candle_of : Bytes → Option Candle) (root payload : Bytes) (s : ClickHouse.Sink Float)
    (t : Parquet.Sink)
    → Routes takes swap_of head_of uploaded visit now later candle_of root payload s t
unfolding candle_subject Parquet.handle_message
subject-Routes takes swap_of head_of uploaded visit now later candle_of root payload s t = record {
  events = λ p. handle_message-takes_up takes swap_of head_of root payload p s;
  candles = λ candle.
      rw (contains-append root (codes ".candle.") (scope candle ++ b'.' ∷ candle.timeframe)) refl;
}
