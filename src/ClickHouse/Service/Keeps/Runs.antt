-- ===== src/ClickHouse/Service/Keeps/Runs.antt =====
-- The sink holds the trade of every swap message that it acknowledges, in order.
use mathlib.Core.List.{append_assoc, append-nil}
use mathlib.Core.Path.{sym, ap, ◌∙◌, subst}
use lp_indexer.Prelude.{ℕ, ◌≡◌, refl, ◌⊎◌, inl, inr, Bool, Option, none, some, List, [], ◌∷◌, ◌++◌}
use lp_indexer.Prelude.Bytes.{Bytes}
use lp_indexer.Dex.{SwapEvent, BlockHead}
use lp_indexer.ClickHouse.Writer.{Trade, Writer, WriterError, flush}
use lp_indexer.ClickHouse.Batches.{held, flush-held}
use lp_indexer.ClickHouse.Service.{
  Msg, Sink, ServiceError, Round, Fetch, context_done, ticked, quiet, timeout, fetch_error, batch,
  handle_message, written, settle, handle_all, fetched, and_then, run_round, run_rounds, last_flush,
  run,
}
use lp_indexer.ClickHouse.Service.Keeps.{Handles, handle_message-Handles}
use lp_indexer.ClickHouse.Service.Rows.{
  times_in, times_after, trades_of, trades_of_message, times_past, times_past-last, trades_of-last,
}

-- the messages that a round fetches, and those that the rounds fetch
abbrev pub messages_of : Fetch → List Msg
messages_of timeout = []
messages_of fetch_error = []
messages_of (batch msgs) = msgs

abbrev pub messages : List Round → List Msg
messages [] = []
messages (context_done ∷ rounds) = messages rounds
messages (ticked fetch ∷ rounds) = messages_of fetch ++ messages rounds
messages (quiet fetch ∷ rounds) = messages_of fetch ++ messages rounds

module _ {Float : Type 0} (takes : ℕ → Bool) (swap_of : Bytes → Option SwapEvent)
    (head_of : Bytes → Option BlockHead) (start : Sink Float) where
  -- the trades of some messages, for a service that starts with the given sink
  abbrev pub trades : List Msg → List Trade
  trades msgs = trades_of swap_of head_of (times_in start.slot_times) msgs

  -- the messages are acknowledged, and their trades held
  pub record After (done : List Msg) (s : Sink Float) : Type 0 where
    pub acked : s.acked ≡ start.acked ++ done
    pub times : times_in s.slot_times ≡ times_past swap_of head_of (times_in start.slot_times) done
    pub holds : held s.writer ≡ held start.writer ++ trades done

  -- a first part of the messages is acknowledged and its trades held, with at most the trade of the
  -- message after them
  pub record Ended (all : List Msg) (s : Sink Float) : Type 0 where
    pub done : List Msg
    pub rest : List Msg
    pub split : all ≡ done ++ rest
    pub acked : s.acked ≡ start.acked ++ done
    pub holds :
        (held s.writer ≡ held start.writer ++ trades done)
        ⊎ ((msg : Msg) × (later : List Msg) × (rest ≡ msg ∷ later)
            × (held s.writer ≡ held start.writer ++ trades (done ++ msg ∷ [])))

  abbrev pub Keeps : List Msg → Option ServiceError × Sink Float → Type 0
  Keeps all (none, s) = After all s
  Keeps all (some e, s) = Ended all s

  with_trade :
      (done : List Msg) (msg : Msg) (s s' : Sink Float)
      → After done s
      → held s'.writer
        ≡ held s.writer ++ trades_of_message swap_of head_of (times_in s.slot_times) msg
      → held s'.writer ≡ held start.writer ++ trades (done ++ msg ∷ [])
  with_trade done msg s s' h more =
      more
      ∙ ap (λ t. held s.writer ++ trades_of_message swap_of head_of t msg) h.times
      ∙ ap
          (λ l.
            l
            ++ trades_of_message swap_of head_of
                (times_past swap_of head_of (times_in start.slot_times) done) msg)
          h.holds
      ∙ append_assoc (held start.writer) (trades done) (
          trades_of_message swap_of head_of
            (times_past swap_of head_of (times_in start.slot_times) done) msg)
      ∙ ap (λ l. held start.writer ++ l)
          (sym (trades_of-last swap_of head_of (times_in start.slot_times) done msg))

  settle-Keeps :
      (done : List Msg) (msg : Msg) (msgs : List Msg) (s : Sink Float)
      (r : Option ServiceError × Sink Float) (next : Sink Float → Option ServiceError × Sink Float)
      → After done s
      → Handles takes swap_of head_of msg s r
      → ((s' : Sink Float)
          → After (done ++ msg ∷ []) s'
          → Keeps ((done ++ msg ∷ []) ++ msgs) (next s'))
      → Keeps (done ++ msg ∷ msgs) (settle takes swap_of head_of msg r next)
  settle-Keeps done msg msgs s (none, s') next h first rest =
      subst (λ l. Keeps l (next (record s' { acked = s'.acked ++ msg ∷ [] })))
        (append_assoc done (msg ∷ []) msgs)
        (rest (record s' { acked = s'.acked ++ msg ∷ [] })
          (record {
            acked =
                ap (λ l. l ++ msg ∷ []) (first.acked ∙ h.acked)
                ∙ append_assoc start.acked done (msg ∷ []);
            times =
                first.times
                ∙ ap (λ t. times_after swap_of head_of t msg) h.times
                ∙ sym (times_past-last swap_of head_of (times_in start.slot_times) done msg);
            holds = with_trade done msg s s' h first.holds;
          }))
  settle-Keeps done msg msgs s (some e, s') next h first rest = record {
    done = done;
    rest = msg ∷ msgs;
    split = refl;
    acked = first.acked ∙ h.acked;
    holds = elim first.holds [
      | inl same ↦ inl (same ∙ h.holds)
      | inr more ↦ inr (msg, msgs, refl, with_trade done msg s s' h more)
    ];
  }

  handle_all-Keeps :
      (msgs done : List Msg) (s : Sink Float)
      → After done s
      → Keeps (done ++ msgs) (handle_all takes swap_of head_of msgs s)
  unfolding handle_all
  handle_all-Keeps [] done s h = subst (λ l. After l s) (sym (append-nil done)) h
  handle_all-Keeps (msg ∷ msgs) done s h =
      settle-Keeps done msg msgs s (handle_message takes swap_of head_of msg s)
        (handle_all takes swap_of head_of msgs) h
        (handle_message-Handles takes swap_of head_of msg s)
        (handle_all-Keeps msgs (done ++ msg ∷ []))

  stops :
      (all : List Msg) (done rest : List Msg) (s : Sink Float)
      → all ≡ done ++ rest
      → After done s
      → Ended all s
  stops all done rest s split h = record {
    done = done;
    rest = rest;
    split = split;
    acked = h.acked;
    holds = inl h.holds;
  }

  fetched-Keeps :
      (fetch : Fetch) (done : List Msg) (s : Sink Float)
      → After done s
      → Keeps (done ++ messages_of fetch) (fetched takes swap_of head_of fetch s)
  unfolding fetched
  fetched-Keeps timeout done s h = subst (λ l. After l s) (sym (append-nil done)) h
  fetched-Keeps fetch_error done s h = stops (done ++ []) done [] s refl h
  fetched-Keeps (batch msgs) done s h = handle_all-Keeps msgs done s h

  flush-After :
      (done : List Msg) (s : Sink Float)
      → After done s
      → After done (record s { writer = (flush takes s.writer).1 })
  flush-After done s h = record {
    acked = h.acked;
    times = h.times;
    holds = flush-held takes s.writer ∙ h.holds;
  }

  flush_then-Keeps :
      (done more : List Msg) (s : Sink Float) (r : Option WriterError × Writer Float)
      (next : Sink Float → Option ServiceError × Sink Float)
      → After done (record s { writer = r.1 })
      → ((s' : Sink Float) → After done s' → Keeps (done ++ more) (next s'))
      → Keeps
          (done ++ more)
          (and_then takes swap_of head_of (written takes swap_of head_of r s) next)
  flush_then-Keeps done more s (none, w) next h rest = rest _ h
  flush_then-Keeps done more s (some e, w) next h rest = stops (done ++ more) done more _ refl h

  and_then-Keeps :
      (first more : List Msg) (r : Option ServiceError × Sink Float)
      (next : Sink Float → Option ServiceError × Sink Float)
      → Keeps first r
      → ((s' : Sink Float) → After first s' → Keeps (first ++ more) (next s'))
      → Keeps (first ++ more) (and_then takes swap_of head_of r next)
  and_then-Keeps first more (none, s) next h rest = rest s h
  and_then-Keeps first more (some e, s) next h rest = record {
    done = h.done;
    rest = h.rest ++ more;
    split = ap (λ l. l ++ more) h.split ∙ append_assoc h.done h.rest more;
    acked = h.acked;
    holds = elim h.holds [
      | inl same ↦ inl same
      | inr (msg, later, e, more_held) ↦ inr (msg, later ++ more, ap (λ l. l ++ more) e, more_held)
    ];
  }

  round_then-Keeps :
      (fetch : Fetch) (more done : List Msg) (r : Option ServiceError × Sink Float)
      (next : Sink Float → Option ServiceError × Sink Float)
      → Keeps (done ++ messages_of fetch) r
      → ((done' : List Msg) (s' : Sink Float) → After done' s' → Keeps (done' ++ more) (next s'))
      → Keeps (done ++ (messages_of fetch ++ more)) (and_then takes swap_of head_of r next)
  round_then-Keeps fetch more done r next h rest =
      subst (λ l. Keeps l (and_then takes swap_of head_of r next))
        (append_assoc done (messages_of fetch) more)
        (and_then-Keeps (done ++ messages_of fetch) more r next h
          (rest (done ++ messages_of fetch)))

  run_rounds-Keeps :
      (rounds : List Round) (done : List Msg) (s : Sink Float)
      → After done s
      → Keeps (done ++ messages rounds) (run_rounds takes swap_of head_of rounds s)
  unfolding run_rounds run_round
  run_rounds-Keeps [] done s h = subst (λ l. After l s) (sym (append-nil done)) h
  run_rounds-Keeps (context_done ∷ rounds) done s h =
      stops (done ++ messages rounds) done (messages rounds) s refl h
  run_rounds-Keeps (ticked fetch ∷ rounds) done s h =
      round_then-Keeps fetch (messages rounds) done
        (run_round takes swap_of head_of (ticked fetch) s) (run_rounds takes swap_of head_of rounds)
        (flush_then-Keeps done (messages_of fetch) s (flush takes s.writer)
          (fetched takes swap_of head_of fetch) (flush-After done s h) (fetched-Keeps fetch done))
        (run_rounds-Keeps rounds)
  run_rounds-Keeps (quiet fetch ∷ rounds) done s h =
      round_then-Keeps fetch (messages rounds) done (fetched takes swap_of head_of fetch s)
        (run_rounds takes swap_of head_of rounds) (fetched-Keeps fetch done s h)
        (run_rounds-Keeps rounds)

  last_flush-Keeps :
      (all : List Msg) (r : Option ServiceError × Sink Float)
      → Keeps all r
      → Keeps all (last_flush takes swap_of head_of r)
  last_flush-Keeps all (none, s) h = h
  last_flush-Keeps all (some e, s) h = record {
    done = h.done;
    rest = h.rest;
    split = h.split;
    acked = h.acked;
    holds = elim h.holds [
      | inl same ↦ inl (flush-held takes s.writer ∙ same)
      | inr (msg, later, e, more) ↦ inr (msg, later, e, flush-held takes s.writer ∙ more)
    ];
  }

  start-After : After [] start
  start-After = record {
    acked = sym (append-nil start.acked);
    times = refl;
    holds = sym (append-nil (held start.writer));
  }

  -- Whatever the rounds of `Run` fetch and whichever inserts the database refuses: while the service
  -- runs, all the messages fetched are acknowledged, and the rows held, in the table or in the batch,
  -- have grown by exactly the trades of these messages in order, each with the fields of its swap,
  -- those of 16 and 8 bits wrapped, and the time of the last block head of its slot before it that
  -- had one: the zero time where that block was dead, and the time that the sink began with where
  -- there was none. When the service has ended, this is so of a first part of the messages, and the
  -- rows held have at most the trade of the next, refused message more.
  pub run-Keeps :
      (rounds : List Round) → Keeps (messages rounds) (run takes swap_of head_of rounds start)
  unfolding run
  run-Keeps rounds =
      last_flush-Keeps (messages rounds) (run_rounds takes swap_of head_of rounds start)
        (run_rounds-Keeps rounds [] start start-After)
