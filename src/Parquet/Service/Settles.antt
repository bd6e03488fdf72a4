-- ===== src/Parquet/Service/Settles.antt =====
-- What the Parquet service acknowledges, refuses and keeps of the messages it fetches.
use mathlib.Core.List.{append_assoc, append-nil}
use mathlib.Core.Path.{sym, ap, ◌∙◌, subst}
use lp_indexer.Prelude.{
  ℕ, ◌≤◌, ◌≡◌, refl, Bool, Option, none, some, List, [], ◌∷◌, ◌++◌, length, arith,
}
use lp_indexer.Prelude.Bytes.{Bytes}
use lp_indexer.ClickHouse.Service.{
  Msg, Fetch, timeout, fetch_error, batch, Round, context_done, ticked, quiet,
}
use lp_indexer.ClickHouse.Service.Keeps.Runs.{messages_of, messages}
use lp_indexer.Parquet.Writer.{Candle, CandleRow, Writer, WriterError}
use lp_indexer.Parquet.Buckets.{held, flush_locked-held}
use lp_indexer.Parquet.Service.Messages.{
  row_of_message, rows_of, rows_of-last, Handled, handle_message-Handled,
}
use lp_indexer.Parquet.Service.{
  ServiceError, Sink, written, handle_message, settle, handle_all, fetched, flush, and_then,
  run_round, run_rounds, close, run,
}

module _ (uploaded : ℕ → Bool) (visit : List (Bytes × List CandleRow) → List Bytes)
    (now later : Writer → ℕ) (candle_of : Bytes → Option Candle) (start : Sink) where
  -- the first messages are acknowledged and the others refused, and the rows of both are held
  pub record Stands (done bad : List Msg) (s : Sink) : Type 0 where
    pub acked : s.acked ≡ start.acked ++ done
    pub refused : s.refused ≡ start.refused ++ bad
    pub holds :
        (key : Bytes)
        → held key s.writer ≡ held key start.writer ++ rows_of candle_of key (done ++ bad)

  -- a part of the messages is acknowledged, and of the others at most the first is refused
  pub record Ended (all : List Msg) (s : Sink) : Type 0 where
    pub done : List Msg
    pub bad : List Msg
    pub rest : List Msg
    pub split : all ≡ done ++ (bad ++ rest)
    pub one : length bad ≤ 1
    pub stands : Stands done bad s

  abbrev pub Settles : List Msg → Option ServiceError × Sink → Type 0
  Settles all (none, s) = Stands all [] s
  Settles all (some e, s) = Ended all s

  more_rows :
      (key : Bytes) (done : List Msg) (msg : Msg) (s s' : Sink)
      → Stands done [] s
      → Handled uploaded visit now later candle_of msg s s'
      → held key s'.writer ≡ held key start.writer ++ rows_of candle_of key (done ++ msg ∷ [])
  more_rows key done msg s s' h one =
      one.holds key
      ∙ ap (λ l. l ++ row_of_message candle_of key msg)
          (h.holds key
            ∙ ap (λ l. held key start.writer ++ rows_of candle_of key l) (append-nil done))
      ∙ append_assoc (held key start.writer) (rows_of candle_of key done)
          (row_of_message candle_of key msg)
      ∙ ap (λ l. held key start.writer ++ l) (sym (rows_of-last candle_of key done msg))

  settle-Settles :
      (done : List Msg) (msg : Msg) (msgs : List Msg) (s : Sink) (r : Option ServiceError × Sink)
      (next : Sink → Option ServiceError × Sink)
      → Stands done [] s
      → Handled uploaded visit now later candle_of msg s r.1
      → ((s' : Sink)
          → Stands (done ++ msg ∷ []) [] s'
          → Settles ((done ++ msg ∷ []) ++ msgs) (next s'))
      → Settles (done ++ msg ∷ msgs) (settle uploaded visit now later candle_of msg r next)
  settle-Settles done msg msgs s (none, s') next h one rest =
      subst (λ l. Settles l (next (record s' { acked = s'.acked ++ msg ∷ [] })))
        (append_assoc done (msg ∷ []) msgs)
        (rest (record s' { acked = s'.acked ++ msg ∷ [] })
          (record {
            acked =
                ap (λ l. l ++ msg ∷ []) (one.acked ∙ h.acked)
                ∙ append_assoc start.acked done (msg ∷ []);
            refused = one.refused ∙ h.refused;
            holds = λ key.
                more_rows key done msg s s' h one
                ∙ ap (λ l. held key start.writer ++ rows_of candle_of key l)
                    (sym (append-nil (done ++ msg ∷ [])));
          }))
  settle-Settles done msg msgs s (some e, s') next h one rest = record {
    done = done;
    bad = msg ∷ [];
    rest = msgs;
    split = refl;
    one = omega arith;
    stands = record {
      acked = one.acked ∙ h.acked;
      refused = ap (λ l. l ++ msg ∷ []) (one.refused ∙ h.refused ∙ append-nil start.refused);
      holds = λ key. more_rows key done msg s s' h one;
    };
  }

  stops :
      (all done rest : List Msg) (s : Sink) → all ≡ done ++ rest → Stands done [] s → Ended all s
  stops all done rest s split h = record {
    done = done;
    bad = [];
    rest = rest;
    split = split;
    one = omega arith;
    stands = h;
  }

  handle_all-Settles :
      (msgs done : List Msg) (s : Sink)
      → Stands done [] s
      → Settles (done ++ msgs) (handle_all uploaded visit now later candle_of msgs s)
  unfolding handle_all
  handle_all-Settles [] done s h = subst (λ l. Stands l [] s) (sym (append-nil done)) h
  handle_all-Settles (msg ∷ msgs) done s h =
      settle-Settles done msg msgs s (handle_message uploaded visit now later candle_of msg s)
        (handle_all uploaded visit now later candle_of msgs) h
        (handle_message-Handled uploaded visit now later candle_of msg s)
        (handle_all-Settles msgs (done ++ msg ∷ []))

  fetched-Settles :
      (fetch : Fetch) (done : List Msg) (s : Sink)
      → Stands done [] s
      → Settles (done ++ messages_of fetch) (fetched uploaded visit now later candle_of fetch s)
  unfolding fetched
  fetched-Settles timeout done s h = subst (λ l. Stands l [] s) (sym (append-nil done)) h
  fetched-Settles fetch_error done s h = stops (done ++ []) done [] s refl h
  fetched-Settles (batch msgs) done s h = handle_all-Settles msgs done s h

  flush-Stands :
      (done bad : List Msg) (s : Sink)
      → Stands done bad s
      → Stands done bad
          (record s { writer = (flush uploaded visit now later candle_of s.writer).1 })
  flush-Stands done bad s h = record {
    acked = h.acked;
    refused = h.refused;
    holds = λ key. flush_locked-held uploaded visit (later s.writer) key s.writer ∙ h.holds key;
  }

  flush_then-Settles :
      (done more : List Msg) (s : Sink) (r : Option WriterError × Writer)
      (next : Sink → Option ServiceError × Sink)
      → Stands done [] (record s { writer = r.1 })
      → ((s' : Sink) → Stands done [] s' → Settles (done ++ more) (next s'))
      → Settles (done ++ more) (
          and_then uploaded visit now later candle_of
            (written uploaded visit now later candle_of r s)
            next)
  flush_then-Settles done more s (none, w) next h rest = rest _ h
  flush_then-Settles done more s (some e, w) next h rest = stops (done ++ more) done more _ refl h

  and_then-Settles :
      (first more : List Msg) (r : Option ServiceError × Sink)
      (next : Sink → Option ServiceError × Sink)
      → Settles first r
      → ((s' : Sink) → Stands first [] s' → Settles (first ++ more) (next s'))
      → Settles (first ++ more) (and_then uploaded visit now later candle_of r next)
  and_then-Settles first more (none, s) next h rest = rest s h
  and_then-Settles first more (some e, s) next h rest = record {
    done = h.done;
    bad = h.bad;
    rest = h.rest ++ more;
    split =
        ap (λ l. l ++ more) h.split
        ∙ append_assoc h.done (h.bad ++ h.rest) more
        ∙ ap (λ l. h.done ++ l) (append_assoc h.bad h.rest more);
    one = h.one;
    stands = h.stands;
  }

  round_then-Settles :
      (fetch : Fetch) (more done : List Msg) (r : Option ServiceError × Sink)
      (next : Sink → Option ServiceError × Sink)
      → Settles (done ++ messages_of fetch) r
      → ((done' : List Msg) (s' : Sink) → Stands done' [] s' → Settles (done' ++ more) (next s'))
      → Settles
          (done ++ (messages_of fetch ++ more))
          (and_then uploaded visit now later candle_of r next)
  round_then-Settles fetch more done r next h rest =
      subst (λ l. Settles l (and_then uploaded visit now later candle_of r next))
        (append_assoc done (messages_of fetch) more)
        (and_then-Settles (done ++ messages_of fetch) more r next h
          (rest (done ++ messages_of fetch)))

  run_rounds-Settles :
      (rounds : List Round) (done : List Msg) (s : Sink)
      → Stands done [] s
      → Settles (done ++ messages rounds) (run_rounds uploaded visit now later candle_of rounds s)
  unfolding run_rounds run_round
  run_rounds-Settles [] done s h = subst (λ l. Stands l [] s) (sym (append-nil done)) h
  run_rounds-Settles (context_done ∷ rounds) done s h =
      stops (done ++ messages rounds) done (messages rounds) s refl h
  run_rounds-Settles (ticked fetch ∷ rounds) done s h =
      round_then-Settles fetch (messages rounds) done
        (run_round uploaded visit now later candle_of (ticked fetch) s)
        (run_rounds uploaded visit now later candle_of rounds)
        (flush_then-Settles done (messages_of fetch) s
          (flush uploaded visit now later candle_of s.writer)
          (fetched uploaded visit now later candle_of fetch) (flush-Stands done [] s h)
          (fetched-Settles fetch done))
        (run_rounds-Settles rounds)
  run_rounds-Settles (quiet fetch ∷ rounds) done s h =
      round_then-Settles fetch (messages rounds) done
        (fetched uploaded visit now later candle_of fetch s)
        (run_rounds uploaded visit now later candle_of rounds) (fetched-Settles fetch done s h)
        (run_rounds-Settles rounds)

  close-Settles :
      (all : List Msg) (r : Option ServiceError × Sink)
      → Settles all r
      → Settles all (close uploaded visit now later candle_of r)
  close-Settles all (none, s) h = h
  close-Settles all (some e, s) h = record {
    done = h.done;
    bad = h.bad;
    rest = h.rest;
    split = h.split;
    one = h.one;
    stands = flush-Stands h.done h.bad s h.stands;
  }

  start-Stands : Stands [] [] start
  start-Stands = record {
    acked = sym (append-nil start.acked);
    refused = sym (append-nil start.refused);
    holds = λ key. sym (append-nil (held key start.writer));
  }

  -- Whatever the rounds of `Run` fetch, whichever uploads fail and in whatever order the buckets are
  -- visited: while the service runs, all the messages fetched are acknowledged, and the rows held of
  -- each bucket, uploaded or not, have grown by exactly the rows of their candles in order. When the
  -- service has ended, this is so of a first part of the messages, at most the next one is refused,
  -- and the row of a refused message that holds a candle is held too.
  pub run-Settles :
      (rounds : List Round)
      → Settles (messages rounds) (run uploaded visit now later candle_of rounds start)
  unfolding run
  run-Settles rounds =
      close-Settles (messages rounds) (run_rounds uploaded visit now later candle_of rounds start)
        (run_rounds-Settles rounds [] start start-Stands)
