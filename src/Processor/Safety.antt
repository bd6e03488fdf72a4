-- ===== src/Processor/Safety.antt =====
-- No final and no undo swap is published without its provisional one, whatever the publisher refuses.
pub mod Updates
use mathlib.Core.Path.{subst, sym}
use lp_indexer.Prelude.{
  ℕ, ◌≡◌, refl, true, false, String, Option, none, some, List, [], ◌∷◌, ◌++◌, inl, inr, arith, All,
  nat_eq, ◌==◌, Bool-cases, if_intro,
}
use lp_indexer.Prelude.Maps.{lookup-erase}
use lp_indexer.Dex.{SwapEvent}
use lp_indexer.Meteora.Types.{PoolKind}
use lp_indexer.Processor.State.{
  Processor, ProcessorError, Publication, swap_published, Accepts, publish, record_swap,
  record_error, pending_at, no_events,
}
use lp_indexer.Processor.Slots.{final, undo, settle_loop, drop_pending}
use lp_indexer.Processor.Log.{
  Sent, Sent-append_left, provisional_of, Justified, Justify, Justify-append,
}

-- an event that waits for its slot's status
pub record Waiting (slot : ℕ) (log : List Publication) (e : SwapEvent) : Type 0 where
  pub at_slot : e.slot ≡ slot
  pub provisional : e.provisional ≡ true
  pub no_undo : e.is_undo ≡ false
  pub sent : Sent (swap_published e) log

pub record IsSafe (p : Processor) : Type 0 where
  pub justified : Justify [] p.log
  pub waiting : (slot : ℕ) → All (Waiting slot p.log) (pending_at slot p)

All-Waiting-grow :
    (slot : ℕ) (log more : List Publication) (events : List SwapEvent)
    → All (Waiting slot log) events
    → All (Waiting slot (log ++ more)) events
All-Waiting-grow slot log more [] all = tt
All-Waiting-grow slot log more (e ∷ events) all = (
  record {
    at_slot = all.0.at_slot;
    provisional = all.0.provisional;
    no_undo = all.0.no_undo;
    sent = Sent-append_left (swap_published e) log more all.0.sent;
  },
  All-Waiting-grow slot log more events all.1,
)

-- What a publication leaves: an accepted one is justified and logged, a refused one is not there.
module _ (accepts : Accepts) (m : Publication) {p : Processor} (safe : IsSafe p) where
  pub publish-IsSafe : Justified p.log m → IsSafe (publish accepts m p).1
  unfolding publish pending_at
  publish-IsSafe j = elim (Bool-cases (accepts p.tried m)) [
    | inl e ↦ rw e (record {
      justified = Justify-append [] p.log m safe.justified j;
      waiting =
          λ slot. All-Waiting-grow slot p.log (m ∷ []) (pending_at slot p) (safe.waiting slot);
    })
    | inr e ↦ rw e (record { justified = safe.justified; waiting = safe.waiting })
  ]

publish-Waiting :
    (accepts : Accepts) (m : Publication) (p : Processor) (slot : ℕ) (events : List SwapEvent)
    → All (Waiting slot p.log) events
    → All (Waiting slot (publish accepts m p).1.log) events
unfolding publish
publish-Waiting accepts m p slot events all = elim (Bool-cases (accepts p.tried m)) [
  | inl e ↦ rw e (All-Waiting-grow slot p.log (m ∷ []) events all)
  | inr e ↦ rw e all
]

-- what a clone must do: settle an event that waits
abbrev pub Settles : (SwapEvent → SwapEvent) → Type 0
Settles clone =
    (slot : ℕ) (log : List Publication) (e : SwapEvent)
    → Waiting slot log e
    → Justified log (swap_published (clone e))

provisional_of-final :
    {slot : ℕ} {log : List Publication} (e : SwapEvent)
    → Waiting slot log e
    → provisional_of (final e) ≡ e
provisional_of-final e w = ground arith

pub final-Settles : Settles final
final-Settles slot log e w =
    inr (refl, subst (λ x. Sent (swap_published x) log) (sym (provisional_of-final e w)) w.sent)

pub undo-Settles : Settles undo
undo-Settles slot log e w =
    inr (refl, subst (λ x. Sent (swap_published x) log) (sym (provisional_of-final e w)) w.sent)

pub record_error-IsSafe :
    (kinds : List (String × PoolKind)) (program : String) {p : Processor}
    → IsSafe p
    → IsSafe (record_error kinds program p)
unfolding record_error pending_at
record_error-IsSafe kinds program safe = record {
  justified = safe.justified;
  waiting = safe.waiting;
}

pub record_swap-IsSafe :
    (kinds : List (String × PoolKind)) (program : String) {p : Processor}
    → IsSafe p
    → IsSafe (record_swap kinds program p)
unfolding record_swap pending_at
record_swap-IsSafe kinds program safe = record {
  justified = safe.justified;
  waiting = safe.waiting;
}

abbrev pub IsSafeAfter : Option ProcessorError × Processor → Type 0
IsSafeAfter r = IsSafe r.1

module _ (kinds : List (String × PoolKind)) (accepts : Accepts) where
  pub settle_loop-IsSafe :
      (clone : SwapEvent → SwapEvent) (failure : ProcessorError) (slot : ℕ)
      (events : List SwapEvent) {p : Processor}
      → Settles clone
      → IsSafe p
      → All (Waiting slot p.log) events
      → IsSafe (settle_loop kinds accepts clone failure events p).1
  unfolding settle_loop
  settle_loop-IsSafe clone failure slot [] settles safe all = safe
  settle_loop-IsSafe clone failure slot (e ∷ events) {p} settles safe all =
      let m = swap_published (clone e) in
      let safe' = publish-IsSafe accepts m safe (settles slot p.log e all.0) in
      let rest = publish-Waiting accepts m p slot events all.1 in
      if_intro IsSafeAfter (publish accepts m p).0
        (settle_loop-IsSafe clone failure slot events settles safe' rest)
        (record_error-IsSafe kinds (clone e).program_id safe')

  pub drop_pending-IsSafe :
      (slot : ℕ) (r : Option ProcessorError × Processor)
      → IsSafe r.1
      → IsSafe (drop_pending kinds accepts slot r).1
  unfolding pending_at
  drop_pending-IsSafe slot (some e, p) safe = safe
  drop_pending-IsSafe slot (none, p) safe = record {
    justified = safe.justified;
    waiting = λ s.
        rw (lookup-erase slot s p.pending)
          (if_intro (λ o. All (Waiting s p.log) (no_events o)) (slot == s) tt (safe.waiting s));
  }
