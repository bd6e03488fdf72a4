-- ===== src/Backfill/Workers.antt =====
-- backfill/orchestrator/orchestrator.go: `Run` as steps of the producer, of the workers and of the
-- context. The channel of work has no buffer, so the producer hands a range to a worker that waits. Which
-- error the group of goroutines keeps is a parameter. What the processor of ranges
-- answers, and when the caller's context ends, are choices of the steps.
pub mod Invariant
pub mod Results
pub mod Progress
use lp_indexer.Prelude.Int.{ℤ, pos, negsuc}
use lp_indexer.Prelude.{
  ℕ, zero, suc, ◌==◌, nat_eq, ◌≡◌, ◌≢◌, Bool, true, false, Option, none, some, List, [], ◌∷◌, ◌++◌,
  ◌&&◌, not, leb, if◌then◌else◌,
}
use lp_indexer.Backfill.{Config, Range, valid, batch_end, overflows, suc}

pub data RunError : Type 0 where
  context_canceled : RunError
  invalid_range : ℕ → ℕ → RunError
  range_failed : Range → RunError

-- the producer at the head of its loop, before the `select` that sends a range, the last one or not, and
-- after its return
pub data Producer : Type 0 where
  at_head : ℕ → Producer
  offering : Range → Bool → Producer
  ended : Producer

-- a worker that waits for a range, that processes one, or that has returned
pub data Worker : Type 0 where
  waiting exited : Worker
  busy : Range → Worker

-- the goroutines, the group's error and whether its context is done; then the ranges handed to workers,
-- those processed without error, and those that failed
pub record State : Type 0 where
  pub producer : Producer
  pub workers : List Worker
  pub error : Option RunError
  pub cancelled : Bool
  pub sent : List Range
  pub processed : List Range
  pub failed : List Range

-- what a round of the producer does once it has found the context alive
pub data Slice : Type 0 where
  finish : Slice
  fail : RunError → Slice
  offer : Range → Bool → Slice

unfoldable pub slice : Config → ℕ → Slice
slice c start =
    let rng : Range = record { start_slot = start; end_slot = batch_end c start } in
    if not (c.end_slot == 0) && leb c.end_slot start
    then finish
    else if not (valid rng)
    then (if overflows c start then finish else fail (invalid_range start (batch_end c start)))
    else offer rng (c.end_slot == 0 && overflows c start)

-- the error that the group keeps when a goroutine returns one: the errgroup package's choice
abbrev pub Join : Type 0
Join = Option RunError → RunError → Option RunError

-- as that package documents, `Wait` returns an error where a goroutine has returned one
abbrev pub KeepsError : Join → Type 0
KeepsError join = (old : Option RunError) (e : RunError) → join old e ≢ none

-- a goroutine of the group returns an error: the group keeps one and cancels its context
unfoldable pub return_error : Join → RunError → State → State
return_error join e s = record s { error = join s.error e; cancelled = true }

unfoldable pub on_slice : Join → Slice → State → State
on_slice join finish s = record s { producer = ended }
on_slice join (fail e) s = return_error join e (record s { producer = ended })
on_slice join (offer rng last) s = record s { producer = offering rng last }

-- the producer after it has sent a range
abbrev pub after_send : Range → Bool → Producer
after_send rng last = if last then ended else at_head rng.end_slot

module _ (join : Join) (c : Config) where
  pub data Step (s : State) : State → Type 0 where
    -- the producer finds the context done at the head of its loop, or in its `select`
    stop_at_head :
        (start : ℕ)
        → s.producer ≡ at_head start
        → s.cancelled ≡ true
        → Step s (return_error join context_canceled (record s { producer = ended }))
    stop_offer :
        (rng : Range) (last : Bool)
        → s.producer ≡ offering rng last
        → s.cancelled ≡ true
        → Step s (return_error join context_canceled (record s { producer = ended }))
    cut :
        (start : ℕ)
        → s.producer ≡ at_head start
        → s.cancelled ≡ false
        → Step s (on_slice join (slice c start) s)
    -- a worker that waits receives the range
    hand :
        (rng : Range) (last : Bool) (before after : List Worker)
        → s.producer ≡ offering rng last
        → s.workers ≡ before ++ waiting ∷ after
        → Step s (record s {
          producer = after_send rng last;
          workers = before ++ busy rng ∷ after;
          sent = s.sent ++ rng ∷ [];
        })
    -- the processor returns nil, or an error
    complete :
        (rng : Range) (before after : List Worker)
        → s.workers ≡ before ++ busy rng ∷ after
        → Step s
            (record s { workers = before ++ waiting ∷ after; processed = s.processed ++ rng ∷ [] })
    break :
        (rng : Range) (before after : List Worker)
        → s.workers ≡ before ++ busy rng ∷ after
        → Step s (
            return_error join
              (range_failed rng)
              (record s { workers = before ++ exited ∷ after; failed = s.failed ++ rng ∷ [] }))
    -- a worker finds the channel closed
    leave :
        (before after : List Worker)
        → s.producer ≡ ended
        → s.workers ≡ before ++ waiting ∷ after
        → Step s (record s { workers = before ++ exited ∷ after })
    -- the caller's context ends
    cancel : s.cancelled ≡ false → Step s (record s { cancelled = true })

abbrev pub waiting_workers : ℕ → List Worker
waiting_workers zero = []
waiting_workers (suc n) = waiting ∷ waiting_workers n

-- how often the loop that starts the workers runs
abbrev pub rounds : ℤ → ℕ
rounds (pos n) = n
rounds (negsuc n) = 0

-- `Run` when it has started its goroutines
abbrev pub start : Config → State
start c = record {
  producer = at_head c.start_slot;
  workers = waiting_workers (rounds c.concurrency);
  error = none;
  cancelled = false;
  sent = [];
  processed = [];
  failed = [];
}

-- the states of a run, by the number of its steps
pub data Reach (join : Join) (c : Config) : ℕ → State → Type 0 where
  here : Reach join c 0 (start c)
  next : {n : ℕ} {s t : State} → Reach join c n s → Step join c s t → Reach join c (suc n) t

-- `g.Wait` returns
abbrev pub AllExited : List Worker → Type 0
AllExited [] = Unit
AllExited (w ∷ ws) = (w ≡ exited) × AllExited ws

pub record Waited (s : State) : Type 0 where
  pub producer_ended : s.producer ≡ ended
  pub workers_exited : AllExited s.workers

-- the result of `Run`: errors that are or wrap a cancelled context become that of the context
unfoldable pub run_result : (RunError → Bool) → Option RunError → Option RunError
run_result is_canceled none = none
run_result is_canceled (some e) = if is_canceled e then some context_canceled else some e
