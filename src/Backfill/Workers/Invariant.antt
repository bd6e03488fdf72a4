-- ===== src/Backfill/Workers/Invariant.antt =====
-- What holds in every state that a run of the backfill reaches.
use mathlib.Core.Path.{subst}
use lp_indexer.Prelude.{
  zero, suc, ℕ, ◌+◌, ◌<◌, ◌≤◌, ◌≡◌, ◌≢◌, refl, ◌⊎◌, inl, inr, nat_eq, Bool, true, Option, none,
  List, [], ◌∷◌, ◌++◌, arith, if◌then◌else◌, Bool-cases,
}
use lp_indexer.Prelude.Words.{u64_mod}
use lp_indexer.Backfill.{Config, Range, valid, batch_end, suc}
use lp_indexer.Backfill.Tiling.{
  Tiles, span_end, range_at, at_limit, wraps, wraps-span, batch_end-le_span, batch_end-le_batch,
  at_limit-span, valid-lt, empty-span,
}
use lp_indexer.Backfill.Workers.{
  here, next, RunError, context_canceled, range_failed, Producer, at_head, offering, ended, Worker,
  waiting, exited, busy, State, finish, offer, slice, Join, KeepsError, return_error, on_slice,
  after_send, Step, stop_at_head, stop_offer, cut, hand, complete, break, leave, cancel,
  waiting_workers, start, Reach, rounds, next,
}

-- how often a test holds in a list
abbrev pub count : (Range → Bool) → List Range → ℕ
count p [] = 0
count p (r ∷ rest) = (if p r then 1 else 0) + count p rest

pub count-append : (p : Range → Bool) (a b : List Range) → count p (a ++ b) ≡ count p a + count p b
count-append p [] b = omega arith
count-append p (r ∷ a) b = omega (arith, count-append p a b)

-- the ranges that the workers hold
abbrev pub in_hand : List Worker → List Range
in_hand [] = []
in_hand (busy r ∷ rest) = r ∷ in_hand rest
in_hand (waiting ∷ rest) = in_hand rest
in_hand (exited ∷ rest) = in_hand rest

abbrev held_by : Worker → List Range
held_by w = in_hand (w ∷ [])

in_hand-middle :
    (p : Range → Bool) (before after : List Worker) (w : Worker)
    → count p (in_hand (before ++ w ∷ after))
      ≡ count p (in_hand before) + count p (held_by w) + count p (in_hand after)
in_hand-middle p [] after (busy r) = omega arith
in_hand-middle p [] after waiting = omega arith
in_hand-middle p [] after exited = omega arith
in_hand-middle p (busy r ∷ before) after w = omega (arith, in_hand-middle p before after w)
in_hand-middle p (waiting ∷ before) after w = in_hand-middle p before after w
in_hand-middle p (exited ∷ before) after w = in_hand-middle p before after w

-- one more range at the end of the tiling
Tiles-last :
    (batch lo mid : ℕ) (ranges : List Range) (r : Range)
    → Tiles batch lo mid ranges
    → r.start_slot ≡ mid
    → mid < r.end_slot
    → r.end_slot ≤ mid + batch
    → Tiles batch lo r.end_slot (ranges ++ r ∷ [])
Tiles-last batch lo mid [] r t starts less within = (omega arith, omega arith, omega arith, refl)
Tiles-last batch lo mid (first ∷ ranges) r (e, lt, le, t) starts less within =
    (e, lt, le, Tiles-last batch first.end_slot mid ranges r t starts less within)

-- where the producer stands, when the ranges sent so far end at a slot
abbrev pub Stands : Config → ℕ → Option RunError → Producer → Type 0
Stands c reached error (at_head x) = (x ≡ reached) × reached ≤ span_end c
Stands c reached error (offering r last) =
    (r ≡ range_at c reached)
    × (last ≡ wraps c reached)
    × reached ≤ span_end c
    × (valid (range_at c reached) ≡ true)
Stands c reached error ended = (reached ≡ span_end c) ⊎ (error ≢ none)

pub record Inv (c : Config) (s : State) : Type 0 where
  pub reached : ℕ
  pub tiles : Tiles c.batch_size c.start_slot reached s.sent
  pub stands : Stands c reached s.error s.producer
  pub kept :
      (p : Range → Bool)
      → count p s.sent ≡ count p s.processed + count p s.failed + count p (in_hand s.workers)
  pub failures : s.error ≡ none → s.failed ≡ []
  pub stopped : s.error ≢ none → s.cancelled ≡ true

-- a worker's state changes, and what it no longer holds is counted elsewhere
swap-kept :
    (p : Range → Bool) (s : State) (before after : List Worker) (w w' : Worker)
    → s.workers ≡ before ++ w ∷ after
    → count p (in_hand (before ++ w' ∷ after)) + count p (held_by w)
      ≡ count p (in_hand s.workers) + count p (held_by w')
swap-kept p s before after w w' e =
    rw e (omega (arith, in_hand-middle p before after w, in_hand-middle p before after w'))

module _ (join : Join) (keeps : KeepsError join) where
  -- an error leaves the producer where it stands
  Stands-error :
      (c : Config) (reached : ℕ) (old : Option RunError) (e : RunError) (p : Producer)
      → Stands c reached old p
      → Stands c reached (join old e) p
  Stands-error c reached old e (at_head x) h = h
  Stands-error c reached old e (offering r last) h = h
  Stands-error c reached old e ended h = inr (keeps old e)

  -- a state of which all but the failures is known, once an error is returned
  return_error-Inv :
      (c : Config) (e : RunError) (s : State) (reached : ℕ)
      → Tiles c.batch_size c.start_slot reached s.sent
      → Stands c reached (join s.error e) s.producer
      → ((p : Range → Bool)
          → count p s.sent ≡ count p s.processed + count p s.failed + count p (in_hand s.workers))
      → Inv c (return_error join e s)
  unfolding return_error
  return_error-Inv c e s reached tiles stands kept = record {
    reached = reached;
    tiles = tiles;
    stands = stands;
    kept = kept;
    failures = λ h. absurd (keeps s.error e h);
    stopped = λ h. refl;
  }

module _ (join : Join) (keeps : KeepsError join) (c : Config) (positive : 0 < c.batch_size)
    (small : c.end_slot < u64_mod) where
  -- a round either ends at the end of the span, or offers the range that starts there
  pub slice-cases :
      (at : ℕ)
      → at ≤ span_end c
      → (slice c at ≡ finish) × (at ≡ span_end c)
        ⊎ (slice c at ≡ offer (range_at c at) (wraps c at)) × (valid (range_at c at) ≡ true)
  unfolding slice
  slice-cases at below = elim (Bool-cases (at_limit c at)) [
    | inl limit ↦ inl (rw limit refl, at_limit-span c positive small at below limit)
    | inr inside ↦ elim (Bool-cases (valid (range_at c at))) [
      | inl full ↦ inr (rw (inside, full) refl, full)
      | inr empty ↦
          let (over, last) = empty-span c positive small at below inside empty in
          inl (rw (inside, empty, over) refl, last)
    ]
  ]

  on_slice-Inv :
      (at : ℕ) (s : State)
      → s.producer ≡ at_head at
      → Inv c s
      → Inv c (on_slice join (slice c at) s)
  unfolding on_slice
  on_slice-Inv at s e inv =
      let (here_now, below) : (at ≡ inv.reached) × inv.reached ≤ span_end c =
        subst (λ p. Stands c inv.reached s.error p) e inv.stands in
      elim (slice-cases inv.reached below) [
        | inl (ends, last) ↦
            rw (here_now, ends)
              (record {
                reached = inv.reached;
                tiles = inv.tiles;
                stands = inl last;
                kept = inv.kept;
                failures = inv.failures;
                stopped = inv.stopped;
              })
        | inr (offers, full) ↦
            rw (here_now, offers)
              (record {
                reached = inv.reached;
                tiles = inv.tiles;
                stands = (refl, refl, below, full);
                kept = inv.kept;
                failures = inv.failures;
                stopped = inv.stopped;
              })
      ]

  after_send-Stands :
      (reached : ℕ) (error : Option RunError)
      → reached ≤ span_end c
      → valid (range_at c reached) ≡ true
      → Stands c (batch_end c reached) error (after_send (range_at c reached) (wraps c reached))
  after_send-Stands reached error below full = elim (Bool-cases (wraps c reached)) [
    | inl last ↦ rw last (inl (wraps-span c positive small reached below last))
    | inr more ↦ rw more (refl, batch_end-le_span c positive small reached below)
  ]

  hand-Inv :
      (s : State) (rng : Range) (last : Bool) (before after : List Worker)
      → s.producer ≡ offering rng last
      → s.workers ≡ before ++ waiting ∷ after
      → Inv c s
      → Inv c (record s {
        producer = after_send rng last;
        workers = before ++ busy rng ∷ after;
        sent = s.sent ++ rng ∷ [];
      })
  hand-Inv s rng last before after e w inv =
      let (its, ends, below, full) : (rng ≡ range_at c inv.reached)
          × (last ≡ wraps c inv.reached)
          × inv.reached ≤ span_end c
          × (valid (range_at c inv.reached) ≡ true) =
        subst (λ p. Stands c inv.reached s.error p) e inv.stands in
      record {
        reached = batch_end c inv.reached;
        tiles = rw its (
            Tiles-last c.batch_size c.start_slot inv.reached s.sent (range_at c inv.reached)
              inv.tiles refl (valid-lt c positive small inv.reached below full)
              (batch_end-le_batch c positive small inv.reached below));
        stands = rw (its, ends) (after_send-Stands inv.reached s.error below full);
        kept = λ p. omega (
          arith,
          inv.kept p,
          swap-kept p s before after waiting (busy rng) w,
          count-append p s.sent (rng ∷ []),
        );
        failures = inv.failures;
        stopped = inv.stopped;
      }

  pub Step-Inv : {s t : State} → Step join c s t → Inv c s → Inv c t
  Step-Inv {s} (stop_at_head at e h) inv =
      return_error-Inv join keeps c context_canceled _ inv.reached inv.tiles
        (inr (keeps s.error context_canceled)) inv.kept
  Step-Inv {s} (stop_offer rng last e h) inv =
      return_error-Inv join keeps c context_canceled _ inv.reached inv.tiles
        (inr (keeps s.error context_canceled)) inv.kept
  Step-Inv {s} (cut at e h) inv = on_slice-Inv at s e inv
  Step-Inv {s} (hand rng last before after e w) inv = hand-Inv s rng last before after e w inv
  Step-Inv {s} (complete rng before after w) inv = record {
    reached = inv.reached;
    tiles = inv.tiles;
    stands = inv.stands;
    kept = λ p. omega (
      arith,
      inv.kept p,
      swap-kept p s before after (busy rng) waiting w,
      count-append p s.processed (rng ∷ []),
    );
    failures = inv.failures;
    stopped = inv.stopped;
  }
  Step-Inv {s} (break rng before after w) inv =
      return_error-Inv join keeps c (range_failed rng) _ inv.reached inv.tiles
        (Stands-error join keeps c inv.reached s.error (range_failed rng) s.producer inv.stands)
        (λ p. omega (
          arith,
          inv.kept p,
          swap-kept p s before after (busy rng) exited w,
          count-append p s.failed (rng ∷ []),
        ))
  Step-Inv {s} (leave before after e w) inv = record {
    reached = inv.reached;
    tiles = inv.tiles;
    stands = inv.stands;
    kept = λ p. omega (arith, inv.kept p, swap-kept p s before after waiting exited w);
    failures = inv.failures;
    stopped = inv.stopped;
  }
  Step-Inv (cancel h) inv = record {
    reached = inv.reached;
    tiles = inv.tiles;
    stands = inv.stands;
    kept = inv.kept;
    failures = inv.failures;
    stopped = λ h. refl;
  }

  waiting_in_hand : (n : ℕ) → in_hand (waiting_workers n) ≡ []
  waiting_in_hand zero = refl
  waiting_in_hand (suc n) = waiting_in_hand n

  pub start-Inv : c.start_slot ≤ span_end c → Inv c (start c)
  start-Inv below = record {
    reached = c.start_slot;
    tiles = refl;
    stands = (refl, below);
    kept = λ p. rw (waiting_in_hand (rounds c.concurrency)) (omega arith);
    failures = λ h. refl;
    stopped = λ h. absurd (h refl);
  }

  pub Reach-Inv : {n : ℕ} {s : State} → c.start_slot ≤ span_end c → Reach join c n s → Inv c s
  Reach-Inv below here = start-Inv below
  Reach-Inv below (next r st) = Step-Inv st (Reach-Inv below r)
