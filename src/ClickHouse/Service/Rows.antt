-- ===== src/ClickHouse/Service/Rows.antt =====
-- The rows and the times of slots that the messages of the sink stand for, described by themselves.
use mathlib.Core.List.{append_assoc, append-nil}
use mathlib.Core.Path.{sym, ap, ◌∙◌}
use native.Mathlib.Omega.{arith}
use lp_indexer.Prelude.{
  ◌==◌, nat_eq, ◌%◌, ◌^◌, ℕ, ◌≡◌, refl, inl, inr, Option, none, some, List, [], ◌∷◌, ◌++◌,
  Bool-cases, if◌then◌else◌,
}
use lp_indexer.Prelude.Bytes.{Bytes, codes, to_lower, bytes_beq}
use lp_indexer.Prelude.Maps.{lookup, insert, lookup-insert, lookup-erase}
use lp_indexer.Meteora.Decoder.{zero_time}
use lp_indexer.Dex.{SwapEvent, BlockHead}
use lp_indexer.ClickHouse.Writer.{Trade}
use lp_indexer.ClickHouse.Service.{Msg, has_suffix, time_or_zero, trade_of, head_times}

-- the times of the slots that have one
abbrev pub Times : Type 0
Times = ℕ → Option ℕ

abbrev pub times_in : List (ℕ × ℕ) → Times
times_in entries slot = lookup slot entries

-- the row of a swap in a slot with a time or without, field by field
abbrev written_time : Option ℕ → ℕ
written_time none = zero_time
written_time (some ts) = ts

abbrev pub row : Option ℕ → SwapEvent → Trade
row time event = record {
  chain_id = event.chain_id % 2 ^ 16;
  slot = event.slot;
  timestamp = written_time time;
  signature = event.sig;
  index = event.index;
  program_id = event.program_id;
  pool_id = event.pool_id;
  mint_base = event.mint_base;
  mint_quote = event.mint_quote;
  dec_base = event.dec_base % 2 ^ 8;
  dec_quote = event.dec_quote % 2 ^ 8;
  base_in = event.base_in;
  base_out = event.base_out;
  quote_in = event.quote_in;
  quote_out = event.quote_out;
  price_q32 = 0;
  reserves_base = event.reserves_base;
  reserves_quote = event.reserves_quote;
  fee_bps = event.fee_bps % 2 ^ 16;
  provisional = event.provisional;
  is_undo = event.is_undo;
}

-- the times after a block head: one with a time gives it to its slot, or takes it where the block is dead
abbrev pub time_of_head : BlockHead → Option ℕ → Option ℕ
time_of_head head before =
    if head.ts_sec == zero_time
    then before
    else if bytes_beq (to_lower (codes head.status)) (codes "dead")
    then none
    else some head.ts_sec

abbrev pub times_of_head : Times → Option BlockHead → Times
times_of_head times none slot = times slot
times_of_head times (some head) slot =
    if head.slot == slot then time_of_head head (times slot) else times slot

module _ (swap_of : Bytes → Option SwapEvent) (head_of : Bytes → Option BlockHead) where
  abbrev pub trades_of_swap : Times → Option SwapEvent → List Trade
  trades_of_swap times none = []
  trades_of_swap times (some event) = row (times event.slot) event ∷ []

  -- the trade of a message, and the times of the slots after it
  abbrev pub trades_of_message : Times → Msg → List Trade
  trades_of_message times msg =
      if has_suffix msg.subject (codes ".swap")
      then trades_of_swap times (swap_of msg.payload)
      else []

  abbrev pub times_after : Times → Msg → Times
  times_after times msg =
      if has_suffix msg.subject (codes ".swap")
      then times
      else if has_suffix msg.subject (codes ".blocks.head")
      then times_of_head times (head_of msg.payload)
      else times

  abbrev pub times_past : Times → List Msg → Times
  times_past times [] = times
  times_past times (msg ∷ msgs) = times_past (times_after times msg) msgs

  -- the trades of some messages, each with the time that the block heads before it give its slot
  abbrev pub trades_of : Times → List Msg → List Trade
  trades_of times [] = []
  trades_of times (msg ∷ msgs) =
      trades_of_message times msg ++ trades_of (times_after times msg) msgs

  pub times_past-last :
      (times : Times) (msgs : List Msg) (msg : Msg)
      → times_past times (msgs ++ msg ∷ []) ≡ times_after (times_past times msgs) msg
  times_past-last times [] msg = refl
  times_past-last times (m ∷ msgs) msg = times_past-last (times_after times m) msgs msg

  pub trades_of-last :
      (times : Times) (msgs : List Msg) (msg : Msg)
      → trades_of times (msgs ++ msg ∷ [])
        ≡ trades_of times msgs ++ trades_of_message (times_past times msgs) msg
  trades_of-last times [] msg = append-nil (trades_of_message times msg)
  trades_of-last times (m ∷ msgs) msg =
      ap (λ l. trades_of_message times m ++ l) (trades_of-last (times_after times m) msgs msg)
      ∙ sym (
          append_assoc (trades_of_message times m) (trades_of (times_after times m) msgs)
            (trades_of_message (times_past times (m ∷ msgs)) msg))

time_or_zero-written_time : (time : Option ℕ) → time_or_zero time ≡ written_time time
time_or_zero-written_time none = refl
time_or_zero-written_time (some ts) = refl

pub trade_of-row :
    (entries : List (ℕ × ℕ)) (event : SwapEvent)
    → trade_of entries event ≡ row (lookup event.slot entries) event
unfolding trade_of
trade_of-row entries event =
    ap (λ ts. record (row none event) { timestamp = ts })
      (time_or_zero-written_time (lookup event.slot entries))

pub head_times-lookup :
    (head : BlockHead) (entries : List (ℕ × ℕ)) (slot : ℕ)
    → lookup slot (head_times head entries)
      ≡ (if head.slot == slot then time_of_head head (lookup slot entries) else lookup slot entries)
unfolding head_times
head_times-lookup head entries slot =
    elim (Bool-cases (bytes_beq (to_lower (codes head.status)) (codes "dead"))) [
      | inl dead ↦ rw dead (
          ground (
            arith,
            lookup-insert head.slot slot head.ts_sec entries,
            lookup-erase head.slot slot (insert head.slot head.ts_sec entries),
          ))
      | inr alive ↦ rw alive (ground (arith, lookup-insert head.slot slot head.ts_sec entries))
    ]
