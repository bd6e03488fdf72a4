-- ===== src/Backfill/Workers/Progress.antt =====
-- A backfill always has a step until it has ended, and it ends after a bounded number of steps.
use mathlib.Core.Path.{subst, ap}
use lp_indexer.Prelude.{
  ℕ, zero, suc, ◌+◌, ◌-◌, ◌*◌, ◌<◌, ◌≤◌, ◌≡◌, ◌≢◌, refl, ◌⊎◌, inl, inr, nat_eq, Bool, true, none,
  List, [], ◌∷◌, ◌++◌, ok, arith, if◌then◌else◌, Bool-cases,
}
use lp_indexer.Prelude.Words.{u64_mod}
use lp_indexer.Backfill.{Config, Range, validate, valid}
use lp_indexer.Backfill.Tiling.{
  span_end, range_at, wraps, valid-lt, batch_end-le_span, validate-positive,
}
use lp_indexer.Backfill.Workers.{
  Join, KeepsError, here, next, Producer, at_head, offering, ended, Worker, waiting, exited, busy,
  State, range_failed, Slice, finish, fail, offer, slice, return_error, on_slice, after_send, Step,
  stop_at_head, stop_offer, cut, hand, complete, break, leave, cancel, waiting_workers, rounds,
  start, Reach, Waited, AllExited,
}
use lp_indexer.Backfill.Workers.Invariant.{Stands, Inv, Reach-Inv, slice-cases}

-- what the goroutines and the context may still do
abbrev of_producer : ℕ → Producer → ℕ
of_producer span (at_head x) = 3 * (span - x) + 2
of_producer span (offering r last) = 3 * (span - r.start_slot) + 1
of_producer span ended = 0

abbrev of_workers : List Worker → ℕ
of_workers [] = 0
of_workers (waiting ∷ rest) = suc (of_workers rest)
of_workers (exited ∷ rest) = of_workers rest
of_workers (busy r ∷ rest) = suc (suc (of_workers rest))

abbrev measure : Config → State → ℕ
measure c s =
    of_producer (span_end c) s.producer + of_workers s.workers + (if s.cancelled then 0 else 1)

of_workers-middle :
    (before after : List Worker) (w : Worker)
    → of_workers (before ++ w ∷ after) ≡ of_workers before + of_workers (w ∷ []) + of_workers after
of_workers-middle [] after waiting = omega arith
of_workers-middle [] after exited = omega arith
of_workers-middle [] after (busy r) = omega arith
of_workers-middle (waiting ∷ before) after w = omega (arith, of_workers-middle before after w)
of_workers-middle (exited ∷ before) after w = of_workers-middle before after w
of_workers-middle (busy r ∷ before) after w = omega (arith, of_workers-middle before after w)

module _ (join : Join) (keeps : KeepsError join) (c : Config) (positive : 0 < c.batch_size)
    (small : c.end_slot < u64_mod) where
  on_slice-less :
      (at : ℕ) (s : State)
      → s.producer ≡ at_head at
      → Inv c s
      → measure c (on_slice join (slice c at) s) < measure c s
  unfolding on_slice
  on_slice-less at s e inv =
      let (here_now, below) : (at ≡ inv.reached) × inv.reached ≤ span_end c =
        subst (λ p. Stands c inv.reached s.error p) e inv.stands in
      elim (slice-cases join keeps c positive small inv.reached below) [
        | inl (ends, last) ↦ rw (e, here_now, ends) (omega arith)
        | inr (offers, full) ↦ rw (e, here_now, offers) (omega arith)
      ]

  after_send-less :
      (reached : ℕ)
      → reached ≤ span_end c
      → valid (range_at c reached) ≡ true
      → of_producer (span_end c) (after_send (range_at c reached) (wraps c reached)) + 1
        < of_producer (span_end c) (offering (range_at c reached) (wraps c reached))
  after_send-less reached below full =
      let less = valid-lt c positive small reached below full in
      let within = batch_end-le_span c positive small reached below in
      elim (Bool-cases (wraps c reached)) [
        | inl last ↦ rw last (omega arith)
        | inr more ↦ rw more (omega arith)
      ]

  Step-less : {s t : State} → Step join c s t → Inv c s → measure c t < measure c s
  unfolding return_error
  Step-less {s} (stop_at_head at e h) inv = rw (e, h) (omega arith)
  Step-less {s} (stop_offer rng last e h) inv = rw (e, h) (omega arith)
  Step-less {s} (cut at e h) inv = on_slice-less at s e inv
  Step-less {s} (hand rng last before after e w) inv =
      let (its, ends, below, full) : (rng ≡ range_at c inv.reached)
          × (last ≡ wraps c inv.reached)
          × inv.reached ≤ span_end c
          × (valid (range_at c inv.reached) ≡ true) =
        subst (λ p. Stands c inv.reached s.error p) e inv.stands in
      rw (e, w, its, ends)
        (omega (
          arith,
          after_send-less inv.reached below full,
          of_workers-middle before after waiting,
          of_workers-middle before after (busy (range_at c inv.reached)),
        ))
  Step-less {s} (complete rng before after w) inv = rw w (
      omega
        (arith, of_workers-middle before after waiting, of_workers-middle before after (busy rng)))
  Step-less {s} (break rng before after w) inv = rw w (
      omega
        (arith, of_workers-middle before after exited, of_workers-middle before after (busy rng)))
  Step-less {s} (leave before after e w) inv =
      rw w (
        omega
          (arith, of_workers-middle before after waiting, of_workers-middle before after exited))
  Step-less {s} (cancel h) inv = rw h (omega arith)

  of_waiting : (n : ℕ) → of_workers (waiting_workers n) ≡ n
  of_waiting zero = refl
  of_waiting (suc n) = omega (arith, of_waiting n)

  Reach-measure :
      {n : ℕ} {s : State}
      → c.start_slot ≤ span_end c
      → Reach join c n s
      → n + measure c s ≤ 3 * (span_end c - c.start_slot) + rounds c.concurrency + 3
  Reach-measure below here = omega (arith, of_waiting (rounds c.concurrency))
  Reach-measure below (next r st) =
      omega
        (arith, Reach-measure below r, Step-less st (Reach-Inv join keeps c positive small below r))

-- a worker that has not returned, or none
abbrev Found : List Worker → Type 0
Found ws =
    (w : Worker) × (before : List Worker) × (after : List Worker) × (w ≢ exited)
    × (ws ≡ before ++ w ∷ after)

find : (ws : List Worker) → AllExited ws ⊎ Found ws
find [] = inl tt
find (exited ∷ ws) = elim (find ws) [
  | inl all ↦ inl (refl, all)
  | inr (w, before, after, h, e) ↦ inr (w, exited ∷ before, after, h, ap (λ l. exited ∷ l) e)
]
find (waiting ∷ ws) = inr (waiting, [], ws, ground arith, refl)
find (busy r ∷ ws) = inr (busy r, [], ws, ground arith, refl)

some_waiting : (n : ℕ) → 0 < n → Found (waiting_workers n)
some_waiting zero h = absurd (omega (arith, h))
some_waiting (suc n) h = (waiting, [], waiting_workers n, ground arith, refl)

validate-rounds : (c : Config) → validate c ≡ ok tt → 0 < rounds c.concurrency
unfolding validate
validate-rounds c h = ground arith

-- as long as no error is returned and the producer has not ended, some worker has not returned
abbrev Lives : State → Type 0
Lives s = (s.producer ≡ ended) ⊎ (s.error ≢ none) ⊎ Found s.workers

-- a step of a goroutine of the run or of the processor of a range, not the end of the caller's context
abbrev pub Moves : {join : Join} {c : Config} {s t : State} → Step join c s t → Type 0
Moves (cancel h) = ⊥
Moves _ = Unit

module _ (join : Join) (keeps : KeepsError join) (c : Config) where
  on_slice-Lives :
      (x : Slice) (at : ℕ) (s : State)
      → s.producer ≡ at_head at
      → Lives s
      → Lives (on_slice join x s)
  unfolding on_slice return_error
  on_slice-Lives finish at s e h = inl refl
  on_slice-Lives (fail x) at s e h = inl refl
  on_slice-Lives (offer rng last) at s e (inl closed) = absurd (ground (arith, e, closed))
  on_slice-Lives (offer rng last) at s e (inr h) = inr h

  Step-Lives : {s t : State} → Step join c s t → Lives s → Lives t
  unfolding return_error
  Step-Lives (stop_at_head at e h) lives = inl refl
  Step-Lives (stop_offer rng last e h) lives = inl refl
  Step-Lives {s} (cut at e h) lives = on_slice-Lives (slice c at) at s e lives
  Step-Lives (hand rng last before after e w) lives =
      inr (inr (busy rng, before, after, ground arith, refl))
  Step-Lives (complete rng before after w) lives =
      inr (inr (waiting, before, after, ground arith, refl))
  Step-Lives {s} (break rng before after w) lives = inr (inl (keeps s.error (range_failed rng)))
  Step-Lives (leave before after e w) lives = inl e
  Step-Lives (cancel h) lives = lives

  start-Lives : 0 < rounds c.concurrency → Lives (start c)
  start-Lives some_rounds = inr (inr (some_waiting (rounds c.concurrency) some_rounds))

  Reach-Lives : {n : ℕ} {s : State} → 0 < rounds c.concurrency → Reach join c n s → Lives s
  Reach-Lives some_rounds here = start-Lives some_rounds
  Reach-Lives some_rounds (next r st) = Step-Lives st (Reach-Lives some_rounds r)

  abbrev CanStep : State → Type 0
  CanStep s = (t : State) × (step : Step join c s t) × Moves step

  offering-CanStep :
      (s : State) (rng : Range) (last : Bool)
      → s.producer ≡ offering rng last
      → (s.error ≢ none → s.cancelled ≡ true)
      → Lives s
      → CanStep s
  offering-CanStep s rng last e stopped (inl closed) = absurd (ground (arith, e, closed))
  offering-CanStep s rng last e stopped (inr (inl fails)) =
      (_, stop_offer rng last e (stopped fails), tt)
  offering-CanStep s rng last e stopped (inr (inr (waiting, before, after, h, w))) =
      (_, hand rng last before after e w, tt)
  offering-CanStep s rng last e stopped (inr (inr (busy r, before, after, h, w))) =
      (_, complete r before after w, tt)
  offering-CanStep s rng last e stopped (inr (inr (exited, before, after, h, w))) = absurd (h refl)

  Found-CanStep :
      (s : State)
      → s.producer ≡ ended
      → AllExited s.workers ⊎ Found s.workers
      → Waited s ⊎ CanStep s
  Found-CanStep s e (inl all) = inl (record { producer_ended = e; workers_exited = all })
  Found-CanStep s e (inr (waiting, before, after, h, w)) = inr (_, leave before after e w, tt)
  Found-CanStep s e (inr (busy r, before, after, h, w)) = inr (_, complete r before after w, tt)
  Found-CanStep s e (inr (exited, before, after, h, w)) = absurd (h refl)

  can_step :
      (s : State) (p : Producer)
      → s.producer ≡ p
      → (s.error ≢ none → s.cancelled ≡ true)
      → Lives s
      → Waited s ⊎ CanStep s
  can_step s (at_head x) e stopped lives = elim (Bool-cases s.cancelled) [
    | inl done ↦ inr (_, stop_at_head x e done, tt)
    | inr alive ↦ inr (_, cut x e alive, tt)
  ]
  can_step s (offering rng last) e stopped lives = inr (offering-CanStep s rng last e stopped lives)
  can_step s ended e stopped lives = Found-CanStep s e (find s.workers)

-- With a configuration that `Validate` accepts, in whatever order the goroutines take their steps and
-- whatever the processor of ranges answers: a run has at most three steps for each slot of the span, one
-- for each worker and three more, and until the producer and all workers have returned, one of them or
-- the processor of a range can take a step, without the caller's context having to end.
pub run_ends :
    (c : Config) (join : Join) {n : ℕ} {s : State}
    → KeepsError join
    → c.start_slot < u64_mod
    → c.end_slot < u64_mod
    → validate c ≡ ok tt
    → Reach join c n s
    → n ≤ 3 * (span_end c - c.start_slot) + rounds c.concurrency + 3
      × (Waited s ⊎ ((t : State) × (step : Step join c s t) × Moves step))
run_ends c join {n} {s} keeps small_start small valid_config reach =
    let (positive, below) = validate-positive c small_start valid_config in
    let inv = Reach-Inv join keeps c positive small below reach in
    (
      omega (arith, Reach-measure join keeps c positive small below reach),
      can_step join keeps c s s.producer refl inv.stopped
          (Reach-Lives join keeps c (validate-rounds c valid_config) reach),
    )
