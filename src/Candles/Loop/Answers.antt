-- ===== src/Candles/Loop/Answers.antt =====
-- The candle bridge answers every message that it fetches exactly once.
use mathlib.Core.Path.{subst, sym, ap, ◌∙◌, subst}
use lp_indexer.Prelude.{
  ℕ, ◌+◌, ◌≡◌, ◌≢◌, Bool, Option, none, some, List, [], ◌∷◌, ◌++◌, arith, All, All-append,
  if◌then◌else◌,
}
use lp_indexer.Prelude.Bytes.{Bytes}
use lp_indexer.ClickHouse.Service.{Msg, Fetch, timeout, fetch_error, batch}
use lp_indexer.ClickHouse.Service.Keeps.Runs.{messages_of}
use lp_indexer.Parquet.Writer.{Candle}
use lp_indexer.Candles.{Floats, Bridge, BridgeError, ParquetNet, process}
use lp_indexer.Candles.Batch.{Divides, nil, readable, unreadable, Settles, process-Settles}
use lp_indexer.Candles.Loop.{Round, context_done, fetched, close, on_fetch, main_loop}

-- the messages that a loop fetches before its context is done
abbrev pub messages : List Round → List Msg
messages [] = []
messages (context_done ∷ rounds) = []
messages (fetched fetch ∷ rounds) = messages_of fetch ++ messages rounds

-- how many of some messages pass a test
abbrev pub count : (Msg → Bool) → List Msg → ℕ
count test [] = 0
count test (msg ∷ msgs) = (if test msg then 1 else 0) + count test msgs

count-append :
    (test : Msg → Bool) (xs ys : List Msg) → count test (xs ++ ys) ≡ count test xs + count test ys
count-append test [] ys = omega arith
count-append test (x ∷ xs) ys = omega (arith, count-append test xs ys)

module _ (candle_of : Bytes → Option Candle) where
  -- the message holds a candle
  abbrev pub Reads : Msg → Type 0
  Reads msg = candle_of msg.payload ≢ none

  count-Divides :
      (test : Msg → Bool) {msgs read bad : List Msg} {candles : List Candle}
      → Divides candle_of msgs read candles bad
      → count test msgs ≡ count test read + count test bad
  count-Divides test nil = omega arith
  count-Divides test (readable reads rest) = omega (arith, count-Divides test rest)
  count-Divides test (unreadable fails rest) = omega (arith, count-Divides test rest)

  All-Divides :
      {msgs read bad : List Msg} {candles : List Candle}
      → Divides candle_of msgs read candles bad
      → All Reads read
  All-Divides nil = tt
  All-Divides (readable {msg = msg} {candle = candle} reads rest) = (
    λ h. let none_read : some candle ≡ none = sym reads ∙ h in ground (arith, none_read),
    All-Divides rest,
  )
  All-Divides (unreadable fails rest) = All-Divides rest

  module _ {Float : Type 0} where
    -- what becomes of some messages: each is acknowledged or refused once, and an acknowledged one holds a
    -- candle
    pub record Answers (msgs : List Msg) (s s' : Bridge Float) : Type 0 where
      pub counts :
          (test : Msg → Bool)
          → count test s'.acked + count test s'.refused
            ≡ count test s.acked + count test s.refused + count test msgs
      pub reads : All Reads s.acked → All Reads s'.acked

    no_messages : (s : Bridge Float) → Answers [] s s
    no_messages s = record { counts = λ test. omega arith; reads = λ all. all }

    Answers-append :
        {first more : List Msg} {s t u : Bridge Float}
        → Answers first s t
        → Answers more t u
        → Answers (first ++ more) s u
    Answers-append {first = first} {more = more} a b = record {
      counts = λ test. omega (arith, a.counts test, b.counts test, count-append test first more);
      reads = λ all. b.reads (a.reads all);
    }

    module _ (floats : Floats Float) (takes : ℕ → Bool) (net : ParquetNet) where
      Settles-Answers :
          {msgs read bad : List Msg} {candles : List Candle} (s : Bridge Float)
          (r : Option BridgeError × Bridge Float)
          → Divides candle_of msgs read candles bad
          → Settles floats read bad candles s r
          → Answers msgs s r.1
      Settles-Answers {read = read} {bad = bad} s (none, s') divides h = record {
        counts = λ test. omega (
          arith,
          ap (count test) h.acked,
          ap (count test) h.refused,
          count-append test s.acked read,
          count-append test s.refused bad,
          count-Divides test divides,
        );
        reads = λ all.
            subst (All Reads) (sym h.acked)
              (All-append Reads s.acked read all (All-Divides divides));
      }
      Settles-Answers {read = read} {bad = bad} s (some e, s') divides h = record {
        counts = λ test. omega (
          arith,
          ap (count test) h.acked,
          ap (count test) h.refused,
          count-append test (s.refused ++ bad) read,
          count-append test s.refused bad,
          count-Divides test divides,
        );
        reads = λ all. subst (All Reads) (sym h.acked) all;
      }

      on_fetch-Answers :
          (fetch : Fetch) (s : Bridge Float)
          → Answers (messages_of fetch) s (on_fetch floats takes net candle_of fetch s)
      unfolding on_fetch
      on_fetch-Answers timeout s = no_messages s
      on_fetch-Answers fetch_error s = no_messages s
      on_fetch-Answers (batch msgs) s =
          let (read, bad, candles, divides, settles) =
            process-Settles floats takes net candle_of msgs s in
          Settles-Answers s (process floats takes net candle_of msgs s) divides settles

      -- Whatever the rounds of `main`'s loop fetch, and whichever inserts and uploads fail: of the messages
      -- fetched before the context is done, each is answered exactly once, by an acknowledgement or a
      -- refusal, and every acknowledged one holds a candle.
      pub main_loop-Answers :
          (rounds : List Round) (s : Bridge Float)
          → Answers (messages rounds) s (main_loop floats takes net candle_of rounds s)
      unfolding main_loop close
      main_loop-Answers [] s = no_messages s
      main_loop-Answers (context_done ∷ rounds) s = record {
        counts = λ test. omega arith;
        reads = λ all. all;
      }
      main_loop-Answers (fetched fetch ∷ rounds) s =
          Answers-append (on_fetch-Answers fetch s)
            (main_loop-Answers rounds (on_fetch floats takes net candle_of fetch s))
