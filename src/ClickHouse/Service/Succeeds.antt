-- ===== src/ClickHouse/Service/Succeeds.antt =====
-- The sink goes on as long as the database takes its inserts and the messages can be read.
use lp_indexer.Prelude.{
  ℕ, ◌+◌, ◌≡◌, ◌≢◌, refl, inl, inr, Bool, true, Option, none, some, List, [], ◌∷◌, arith,
  Bool-cases, leb, nat_eq,
}
use lp_indexer.Prelude.Bytes.{Bytes, codes}
use lp_indexer.Dex.{SwapEvent, BlockHead}
use lp_indexer.ClickHouse.Writer
use lp_indexer.ClickHouse.Writer.{
  Trade, Writer, WriterError, write_trades, add_trade, flush, flush_trades, flush_candles,
}
use lp_indexer.ClickHouse.Service.{
  Msg, Sink, ServiceError, Round, Fetch, context_done, ticked, quiet, timeout, fetch_error, batch,
  has_suffix, trade_of, written, handle_swap, handle_head, handle_message, settle, handle_all,
  fetched, and_then, run_round, run_rounds, last_flush, run,
}

module _ {Float : Type 0} (takes : ℕ → Bool) (takes_all : (n : ℕ) → takes n ≡ true) where
  flush_trades-none : (w : Writer Float) → (flush_trades takes w).0 ≡ none
  unfolding flush_trades
  flush_trades-none w = ground (arith, takes_all w.inserts)

  flush_candles-none : (w : Writer Float) → (flush_candles takes w).0 ≡ none
  unfolding flush_candles
  flush_candles-none w = ground (arith, takes_all w.inserts)

  and_then-none :
      (r : Option WriterError × Writer Float)
      (next : Writer Float → Option WriterError × Writer Float)
      → r.0 ≡ none
      → ((w : Writer Float) → (next w).0 ≡ none)
      → (lp_indexer.ClickHouse.Writer.and_then takes r next).0 ≡ none
  and_then-none (none, w) next h rest = rest w
  and_then-none (some e, w) next h rest = h

  pub flush-none : (w : Writer Float) → (flush takes w).0 ≡ none
  unfolding flush
  flush-none w =
      and_then-none (flush_trades takes w) (flush_candles takes) (flush_trades-none w)
        flush_candles-none

  add_trade-none : (trade : Trade) (w : Writer Float) → (add_trade takes trade w).0 ≡ none
  unfolding add_trade
  add_trade-none trade w = elim (Bool-cases (leb w.batch_size (w.trades_batch.count + 1))) [
    | inl full ↦ rw full (flush_trades-none _)
    | inr roomy ↦ rw roomy refl
  ]

  pub write_trades-none :
      (trades : List Trade) (w : Writer Float) → (write_trades takes trades w).0 ≡ none
  unfolding write_trades
  write_trades-none [] w = refl
  write_trades-none (trade ∷ trades) w =
      and_then-none (add_trade takes trade w) (write_trades takes trades) (add_trade-none trade w)
        (write_trades-none trades)

module _ (swap_of : Bytes → Option SwapEvent) (head_of : Bytes → Option BlockHead) where
  -- a message that can be read
  pub record Reads (msg : Msg) : Type 0 where
    pub swap : has_suffix msg.subject (codes ".swap") ≡ true → swap_of msg.payload ≢ none
    pub head : has_suffix msg.subject (codes ".blocks.head") ≡ true → head_of msg.payload ≢ none

  abbrev pub AllRead : List Msg → Type 0
  AllRead [] = Unit
  AllRead (msg ∷ msgs) = Reads msg × AllRead msgs

  abbrev pub Fetches : Fetch → Type 0
  Fetches timeout = Unit
  Fetches fetch_error = ⊥
  Fetches (batch msgs) = AllRead msgs

  -- rounds in which the context is not done, no fetch fails, and all messages can be read
  abbrev pub GoOn : List Round → Type 0
  GoOn [] = Unit
  GoOn (context_done ∷ rounds) = ⊥
  GoOn (ticked fetch ∷ rounds) = Fetches fetch × GoOn rounds
  GoOn (quiet fetch ∷ rounds) = Fetches fetch × GoOn rounds

module _ {Float : Type 0} (takes : ℕ → Bool) (swap_of : Bytes → Option SwapEvent)
    (head_of : Bytes → Option BlockHead) (takes_all : (n : ℕ) → takes n ≡ true) where
  written-none :
      (r : Option WriterError × Writer Float) (s : Sink Float)
      → r.0 ≡ none
      → (written takes swap_of head_of r s).0 ≡ none
  written-none (none, w) s h = refl
  written-none (some e, w) s h = absurd (ground (arith, h))

  handle_swap-none :
      (event : Option SwapEvent) (s : Sink Float)
      → event ≢ none
      → (handle_swap takes swap_of head_of event s).0 ≡ none
  unfolding handle_swap
  handle_swap-none none s h = absurd (h refl)
  handle_swap-none (some event) s h =
      written-none _ s
        (write_trades-none takes takes_all (trade_of s.slot_times event ∷ []) s.writer)

  handle_head-none :
      (head : Option BlockHead) (s : Sink Float)
      → head ≢ none
      → (handle_head takes swap_of head_of head s).0 ≡ none
  unfolding handle_head
  handle_head-none none s h = absurd (h refl)
  handle_head-none (some head) s h = refl

  handle_message-none :
      (msg : Msg) (s : Sink Float)
      → Reads swap_of head_of msg
      → (handle_message takes swap_of head_of msg s).0 ≡ none
  unfolding handle_message
  handle_message-none msg s h = elim (Bool-cases (has_suffix msg.subject (codes ".swap"))) [
    | inl swap ↦ rw swap (handle_swap-none (swap_of msg.payload) s (h.swap swap))
    | inr other ↦ elim (Bool-cases (has_suffix msg.subject (codes ".blocks.head"))) [
      | inl head ↦ rw (other, head) (handle_head-none (head_of msg.payload) s (h.head head))
      | inr rest ↦ rw (other, rest) refl
    ]
  ]

  settle-none :
      (msg : Msg) (r : Option ServiceError × Sink Float)
      (next : Sink Float → Option ServiceError × Sink Float)
      → r.0 ≡ none
      → ((s : Sink Float) → (next s).0 ≡ none)
      → (settle takes swap_of head_of msg r next).0 ≡ none
  settle-none msg (none, s) next h rest = rest _
  settle-none msg (some e, s) next h rest = h

  handle_all-none :
      (msgs : List Msg) (s : Sink Float)
      → AllRead swap_of head_of msgs
      → (handle_all takes swap_of head_of msgs s).0 ≡ none
  unfolding handle_all
  handle_all-none [] s h = refl
  handle_all-none (msg ∷ msgs) s (h, more) =
      settle-none msg (handle_message takes swap_of head_of msg s)
        (handle_all takes swap_of head_of msgs) (handle_message-none msg s h)
        (λ s'. handle_all-none msgs s' more)

  fetched-none :
      (fetch : Fetch) (s : Sink Float)
      → Fetches swap_of head_of fetch
      → (fetched takes swap_of head_of fetch s).0 ≡ none
  unfolding fetched
  fetched-none timeout s h = refl
  fetched-none fetch_error s h = absurd h
  fetched-none (batch msgs) s h = handle_all-none msgs s h

  then-none :
      (r : Option ServiceError × Sink Float) (next : Sink Float → Option ServiceError × Sink Float)
      → r.0 ≡ none
      → ((s : Sink Float) → (next s).0 ≡ none)
      → (and_then takes swap_of head_of r next).0 ≡ none
  then-none (none, s) next h rest = rest s
  then-none (some e, s) next h rest = h

  run_rounds-none :
      (rounds : List Round) (s : Sink Float)
      → GoOn swap_of head_of rounds
      → (run_rounds takes swap_of head_of rounds s).0 ≡ none
  unfolding run_rounds run_round
  run_rounds-none [] s h = refl
  run_rounds-none (context_done ∷ rounds) s h = absurd h
  run_rounds-none (ticked fetch ∷ rounds) s (h, more) =
      then-none _ (run_rounds takes swap_of head_of rounds)
        (then-none _ (fetched takes swap_of head_of fetch)
          (written-none (flush takes s.writer) s (flush-none takes takes_all s.writer))
          (λ s'. fetched-none fetch s' h))
        (λ s'. run_rounds-none rounds s' more)
  run_rounds-none (quiet fetch ∷ rounds) s (h, more) =
      then-none _ (run_rounds takes swap_of head_of rounds) (fetched-none fetch s h)
        (λ s'. run_rounds-none rounds s' more)

  last_flush-none :
      (r : Option ServiceError × Sink Float)
      → r.0 ≡ none
      → (last_flush takes swap_of head_of r).0 ≡ none
  last_flush-none (none, s) h = refl
  last_flush-none (some e, s) h = h

  -- While the context is not done, no fetch fails, every swap and block head can be unmarshalled, and
  -- the database takes every insert, `Run` goes on without error.
  pub run_goes_on :
      (rounds : List Round) (s : Sink Float)
      → GoOn swap_of head_of rounds
      → (run takes swap_of head_of rounds s).0 ≡ none
  unfolding run
  run_goes_on rounds s h =
      last_flush-none (run_rounds takes swap_of head_of rounds s) (run_rounds-none rounds s h)
