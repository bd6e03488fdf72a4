-- ===== src/Processor/Settled.antt =====
-- What `finalizeSlot` and `undoSlot` publish and leave, with a publisher that may refuse.
use mathlib.Core.List.{append_assoc, append-nil}
use mathlib.Core.Path.{sym}
use lp_indexer.Prelude.{
  ℕ, suc, ◌<◌, ◌≡◌, refl, ◌∙◌, ap, String, Option, none, some, List, [], ◌∷◌, ◌++◌, ◌⊎◌, inl, inr,
  arith, nat_eq, Bool-cases, length, take, map,
}
use lp_indexer.Prelude.Maps.{erase}
use lp_indexer.Dex.{SwapEvent}
use lp_indexer.Meteora.Types.{PoolKind}
use lp_indexer.Processor.State.{
  Processor, ProcessorError, Publication, swap_published, publish_final_failed, publish_undo_failed,
  Accepts, publish, record_error, pending_at,
}
use lp_indexer.Processor.Slots.{final, undo, settle_loop, drop_pending, finalize_slot, undo_slot}

abbrev pub clones : (SwapEvent → SwapEvent) → List SwapEvent → List Publication
clones clone events = map (λ e. swap_published (clone e)) events

-- What a run over the pending events returns and leaves: no error and all the clones published in
-- order, or the error and a first part of them; the pending events are not touched.
pub record Settled (clone : SwapEvent → SwapEvent) (failure : ProcessorError)
    (events : List SwapEvent) (p : Processor) (r : Option ProcessorError × Processor) : Type 0 where
  pub pending : r.1.pending ≡ p.pending
  pub outcome :
      (r.0 ≡ none) × (r.1.log ≡ p.log ++ clones clone events)
      ⊎ ((n : ℕ) × n < length events
          × (r.0 ≡ some failure)
          × (r.1.log ≡ p.log ++ clones clone (take n events)))

module _ (kinds : List (String × PoolKind)) (accepts : Accepts) (clone : SwapEvent → SwapEvent)
    (failure : ProcessorError) where
  Settled-step :
      (e : SwapEvent) (events : List SwapEvent) (p p' : Processor)
      (r : Option ProcessorError × Processor)
      → p'.log ≡ p.log ++ swap_published (clone e) ∷ []
      → p'.pending ≡ p.pending
      → Settled clone failure events p' r
      → Settled clone failure (e ∷ events) p r
  Settled-step e events p p' r log pending s =
      let grow = λ (more : List Publication).
        ap (λ l. l ++ more) log ∙ append_assoc p.log (swap_published (clone e) ∷ []) more in
      record {
        pending = s.pending ∙ pending;
        outcome = elim s.outcome [
          | inl (done, all) ↦ inl (done, all ∙ grow (clones clone events))
          | inr (n, less, failed, part) ↦
              inr (suc n, omega arith, failed, part ∙ grow (clones clone (take n events)))
        ];
      }

  settle_loop-Settled :
      (events : List SwapEvent) (p : Processor)
      → Settled clone failure events p (settle_loop kinds accepts clone failure events p)
  unfolding settle_loop publish record_error
  settle_loop-Settled [] p = record { pending = refl; outcome = inl (refl, sym (append-nil p.log)) }
  settle_loop-Settled (e ∷ events) p =
      elim (Bool-cases (accepts p.tried (swap_published (clone e)))) [
        | inl yes_sent ↦
            let p' = record p {
              log = p.log ++ swap_published (clone e) ∷ [];
              tried = suc p.tried;
            } in
            rw yes_sent (Settled-step e events p p' _ refl refl (settle_loop-Settled events p'))
        | inr refused ↦ rw refused (record {
          pending = refl;
          outcome = inr (0, omega arith, refl, sym (append-nil p.log));
        })
      ]

-- What `finalizeSlot` and `undoSlot` return and leave: all the pending events of the slot settled in
-- order and the slot forgotten, or an error, a first part of them settled and everything pending kept.
abbrev pub SettlesSlot :
    (SwapEvent → SwapEvent)
    → ProcessorError
    → ℕ
    → Processor
    → Option ProcessorError × Processor
    → Type 0
SettlesSlot clone failure slot p r =
    (r.0 ≡ none)
      × (r.1.log ≡ p.log ++ clones clone (pending_at slot p))
      × (r.1.pending ≡ erase slot p.pending)
    ⊎ ((n : ℕ) × n < length (pending_at slot p)
        × (r.0 ≡ some failure)
        × (r.1.log ≡ p.log ++ clones clone (take n (pending_at slot p)))
        × (r.1.pending ≡ p.pending))

drop_pending-Settles :
    (kinds : List (String × PoolKind)) (accepts : Accepts) (clone : SwapEvent → SwapEvent)
    (failure : ProcessorError) (slot : ℕ) (p : Processor) (r : Option ProcessorError × Processor)
    → Settled clone failure (pending_at slot p) p r
    → SettlesSlot clone failure slot p (drop_pending kinds accepts slot r)
drop_pending-Settles kinds accepts clone failure slot p (none, q) s = elim s.outcome [
  | inl (done, all) ↦ inl (refl, all, ap (erase slot) s.pending)
  | inr (n, less, failed, part) ↦ absurd (ground arith)
]
drop_pending-Settles kinds accepts clone failure slot p (some x, q) s = elim s.outcome [
  | inl (done, all) ↦ absurd (ground arith)
  | inr (n, less, failed, part) ↦ inr (n, less, failed, part, s.pending)
]

module _ (kinds : List (String × PoolKind)) (accepts : Accepts) (slot : ℕ) (p : Processor) where
  -- Whatever the publisher refuses, `finalizeSlot` either returns no error, has published the final
  -- clones of all pending events of the slot in their order, and has deleted the slot's entry; or it
  -- returns the error, has published those of a proper first part of the events, and has kept every
  -- pending event.
  pub finalize_slot-Settles :
      SettlesSlot final publish_final_failed slot p (finalize_slot kinds accepts slot p)
  unfolding finalize_slot
  finalize_slot-Settles =
      drop_pending-Settles kinds accepts final publish_final_failed slot p _
        (settle_loop-Settled kinds accepts final publish_final_failed (pending_at slot p) p)

  -- Whatever the publisher refuses, `undoSlot` either returns no error, has published the undo clones
  -- of all pending events of the slot in their order, and has deleted the slot's entry; or it returns
  -- the error, has published those of a proper first part of the events, and has kept every pending
  -- event.
  pub undo_slot-Settles :
      SettlesSlot undo publish_undo_failed slot p (undo_slot kinds accepts slot p)
  unfolding undo_slot
  undo_slot-Settles =
      drop_pending-Settles kinds accepts undo publish_undo_failed slot p _
        (settle_loop-Settled kinds accepts undo publish_undo_failed (pending_at slot p) p)
