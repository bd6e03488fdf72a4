-- ===== src/ClickHouse/Service/Keeps.antt =====
-- The trades of some messages, and what the sink holds after one.
pub mod Runs
use mathlib.Core.List.{append_assoc, append-nil}
use mathlib.Core.Path.{sym, ap, ◌∙◌}
use native.Mathlib.Omega.{arith, times}
use lp_indexer.Prelude.{
  ◌==◌, nat_eq, ◌%◌, ◌^◌, ℕ, ◌≡◌, refl, ◌⊎◌, inl, inr, Bool, true, false, Option, none, some, List,
  [], ◌∷◌, ◌++◌, Bool-cases, Option-cases, if◌then◌else◌,
}
use lp_indexer.Prelude.Bytes.{Bytes, codes, to_lower, bytes_beq}
use lp_indexer.Prelude.Maps.{lookup, insert, erase, lookup-insert, lookup-erase}
use lp_indexer.Meteora.Decoder.{zero_time}
use lp_indexer.Dex.{SwapEvent, BlockHead}
use lp_indexer.ClickHouse.Service.Rows.{
  times_in, times_after, trades_of_message, row, trade_of-row, head_times-lookup,
}
use lp_indexer.ClickHouse.Writer
use lp_indexer.ClickHouse.Writer.{Trade, Writer, WriterError, write_trades, add_trade, flush}
use lp_indexer.ClickHouse.Batches.{held, add_trade-held}
use lp_indexer.ClickHouse.Service.{
  Msg, Sink, ServiceError, has_suffix, time_or_zero, trade_of, head_times, written, handle_swap,
  handle_head, handle_message,
}

module _ {Float : Type 0} (takes : ℕ → Bool) (swap_of : Bytes → Option SwapEvent)
    (head_of : Bytes → Option BlockHead) where
  -- a message that is handled, or refused
  pub record Handled (msg : Msg) (s s' : Sink Float) : Type 0 where
    pub acked : s'.acked ≡ s.acked
    pub times : times_in s'.slot_times ≡ times_after swap_of head_of (times_in s.slot_times) msg
    pub holds :
        held s'.writer
        ≡ held s.writer ++ trades_of_message swap_of head_of (times_in s.slot_times) msg

  pub record Refused (msg : Msg) (s s' : Sink Float) : Type 0 where
    pub acked : s'.acked ≡ s.acked
    pub holds :
        (held s'.writer ≡ held s.writer)
        ⊎ (held s'.writer
            ≡ held s.writer ++ trades_of_message swap_of head_of (times_in s.slot_times) msg)

  abbrev pub Handles : Msg → Sink Float → Option ServiceError × Sink Float → Type 0
  Handles msg s (none, s') = Handled msg s s'
  Handles msg s (some e, s') = Refused msg s s'

  first_of-held :
      (r : Option WriterError × Writer Float)
      → held (lp_indexer.ClickHouse.Writer.and_then takes r (λ w. (none, w))).1 ≡ held r.1
  first_of-held (none, w) = refl
  first_of-held (some e, w) = refl

  write_one-held :
      (trade : Trade) (w : Writer Float)
      → held (write_trades takes (trade ∷ []) w).1 ≡ held w ++ trade ∷ []
  unfolding write_trades
  write_one-held trade w = first_of-held (add_trade takes trade w) ∙ add_trade-held takes trade w

  write_row :
      (entries : List (ℕ × ℕ)) (event : SwapEvent) (w : Writer Float)
      → held (write_trades takes (trade_of entries event ∷ []) w).1
        ≡ held w ++ row (times_in entries event.slot) event ∷ []
  write_row entries event w =
      write_one-held (trade_of entries event) w
      ∙ ap (λ t. held w ++ t ∷ []) (trade_of-row entries event)

  written-Handles :
      (msg : Msg) (s : Sink Float) (r : Option WriterError × Writer Float)
      → (times_in s.slot_times ≡ times_after swap_of head_of (times_in s.slot_times) msg)
      → held r.1 ≡ held s.writer ++ trades_of_message swap_of head_of (times_in s.slot_times) msg
      → Handles msg s (written takes swap_of head_of r s)
  written-Handles msg s (none, w) same holds = record { acked = refl; times = same; holds = holds }
  written-Handles msg s (some e, w) same holds = record { acked = refl; holds = inr holds }

  handle_swap-Handles :
      (msg : Msg) (s : Sink Float)
      → has_suffix msg.subject (codes ".swap") ≡ true
      → Handles msg s (handle_swap takes swap_of head_of (swap_of msg.payload) s)
  unfolding handle_swap
  handle_swap-Handles msg s swap = elim (Option-cases (swap_of msg.payload)) [
    | inl fails ↦ rw fails (record { acked = refl; holds = inl refl })
    | inr (event, reads) ↦ rw reads (
        written-Handles msg s _ (rw swap refl)
          (rw (swap, reads) (write_row s.slot_times event s.writer)))
  ]

  handle_head-Handles :
      (msg : Msg) (s : Sink Float)
      → has_suffix msg.subject (codes ".swap") ≡ false
      → has_suffix msg.subject (codes ".blocks.head") ≡ true
      → Handles msg s (handle_head takes swap_of head_of (head_of msg.payload) s)
  unfolding handle_head
  handle_head-Handles msg s other head = elim (Option-cases (head_of msg.payload)) [
    | inl fails ↦ rw fails (record { acked = refl; holds = inl refl })
    | inr (block, reads) ↦ rw reads (record {
      acked = refl;
      times = rw (other, head, reads) (λ i slot. head_times-lookup block s.slot_times slot i);
      holds = rw other (sym (append-nil (held s.writer)));
    })
  ]

  pub handle_message-Handles :
      (msg : Msg) (s : Sink Float) → Handles msg s (handle_message takes swap_of head_of msg s)
  unfolding handle_message
  handle_message-Handles msg s = elim (Bool-cases (has_suffix msg.subject (codes ".swap"))) [
    | inl swap ↦ rw swap (handle_swap-Handles msg s swap)
    | inr other ↦ elim (Bool-cases (has_suffix msg.subject (codes ".blocks.head"))) [
      | inl head ↦ rw (other, head) (handle_head-Handles msg s other head)
      | inr rest ↦
          rw (other, rest)
            (record {
              acked = refl;
              times = rw (other, rest) refl;
              holds = rw other (sym (append-nil (held s.writer)));
            })
    ]
  ]
