-- ===== src/SlotCache/Laws.antt =====
-- What the methods of the slot cache promise, over every history of calls.
use lp_indexer.Prelude.{
  ℕ, ◌+◌, ◌≡◌, refl, Option, none, some, List, [], ◌∷◌, Result, ok, err, ltb, arith, if◌then◌else◌,
  ◌==◌, ap, ◌∙◌, nat_eq,
}
use lp_indexer.Prelude.Maps.{
  lookup, Distinct, lookup-insert, insert-Distinct, remove_if-Distinct, lookup-remove_if,
  length-remove_if,
}
use lp_indexer.SlotCache.{
  SlotCache, slot_not_found, new, get, set, set_replay_marker, clear, size, prune_before_slot,
  get_replay_marker, CacheError,
}

-- The calls that change the state.
pub data Call (T : Type 0) : Type 0 where
  set_call : ℕ → T → Call T
  marker_call : ℕ → Call T
  clear_call : Call T
  prune_call : ℕ → Call T

module _ {T : Type 0} where
  abbrev pub apply : SlotCache T → Call T → SlotCache T
  apply c (set_call slot ts) = set slot ts c
  apply c (marker_call slot) = set_replay_marker slot c
  apply c clear_call = clear c
  apply c (prune_call slot) = (prune_before_slot slot c).0

  abbrev pub run : SlotCache T → List (Call T) → SlotCache T
  run c [] = c
  run c (call ∷ calls) = run (apply c call) calls

  -- What the cache should hold for a slot after one more call, told from the call alone.
  abbrev pub after_call : ℕ → Option T → Call T → Option T
  after_call slot held (set_call s ts) = if s == slot then some ts else held
  after_call slot held (marker_call s) = held
  after_call slot held clear_call = none
  after_call slot held (prune_call s) = if ltb slot s then none else held

  abbrev pub expected : ℕ → Option T → List (Call T) → Option T
  expected slot held [] = held
  expected slot held (call ∷ calls) = expected slot (after_call slot held call) calls

  abbrev pub IsValid : SlotCache T → Type 0
  IsValid c = Distinct c.slots

  apply-IsValid : (c : SlotCache T) (call : Call T) → IsValid c → IsValid (apply c call)
  unfolding set set_replay_marker clear prune_before_slot
  apply-IsValid c (set_call slot ts) v = insert-Distinct slot ts c.slots v
  apply-IsValid c (marker_call slot) v = v
  apply-IsValid c clear_call v = tt
  apply-IsValid c (prune_call slot) v = remove_if-Distinct _ c.slots v

  -- `Get` finds the timestamp that the history of calls says, from any first state.
  lookup-apply :
      (c : SlotCache T) (call : Call T) (slot : ℕ)
      → lookup slot (apply c call).slots ≡ after_call slot (lookup slot c.slots) call
  unfolding set set_replay_marker clear prune_before_slot lookup
  lookup-apply c (set_call s ts) slot = lookup-insert s slot ts c.slots
  lookup-apply c (marker_call s) slot = refl
  lookup-apply c clear_call slot = refl
  lookup-apply c (prune_call s) slot = lookup-remove_if _ slot c.slots

  lookup-run :
      (calls : List (Call T)) (c : SlotCache T) (slot : ℕ)
      → lookup slot (run c calls).slots ≡ expected slot (lookup slot c.slots) calls
  lookup-run [] c slot = refl
  lookup-run (call ∷ calls) c slot =
      lookup-run calls (apply c call) slot
      ∙ ap (λ o. expected slot o calls) (lookup-apply c call slot)

  run-IsValid : (calls : List (Call T)) (c : SlotCache T) → IsValid c → IsValid (run c calls)
  run-IsValid [] c v = v
  run-IsValid (call ∷ calls) c v = run-IsValid calls (apply c call) (apply-IsValid c call v)

  abbrev pub found : ℕ → Option T → Result CacheError T
  found slot none = err (slot_not_found slot)
  found slot (some ts) = ok ts

  get-eq-found : (slot : ℕ) (c : SlotCache T) → get slot c ≡ found slot (lookup slot c.slots)
  unfolding get
  get-eq-found slot c = ground arith

  lookup-run-new :
      (calls : List (Call T)) (slot : ℕ)
      → lookup slot (run new calls).slots ≡ expected slot none calls
  lookup-run-new calls slot =
      lookup-run calls new slot ∙ ap (λ o. expected slot o calls) (unfold new lookup in refl)

  -- After any calls of `Set`, `SetReplayMarker`, `Clear` and `PruneBeforeSlot` on a new cache, `Get`
  -- of any slot returns the timestamp that the history says is the latest not cleared or pruned
  -- since, and the error that names the slot where there is none.
  pub get-run :
      (calls : List (Call T)) (slot : ℕ)
      → get slot (run new calls) ≡ found slot (expected slot none calls)
  get-run calls slot =
      get-eq-found slot (run new calls) ∙ ap (found slot) (lookup-run-new calls slot)

  -- After any calls on a new cache, `PruneBeforeSlot` keeps exactly the slots from the boundary on,
  -- each with its timestamp, returns the number of entries by which `Size` falls, and leaves the
  -- replay marker alone.
  pub prune_before_slot-run :
      (calls : List (Call T)) (boundary : ℕ)
      → ((slot : ℕ)
          → lookup slot (prune_before_slot boundary (run new calls)).0.slots
            ≡ (if ltb slot boundary then none else expected slot none calls))
        × (size (prune_before_slot boundary (run new calls)).0
              + (prune_before_slot boundary (run new calls)).1
            ≡ size (run new calls))
        × (get_replay_marker (prune_before_slot boundary (run new calls)).0
            ≡ get_replay_marker (run new calls))
  unfolding prune_before_slot size get_replay_marker
  prune_before_slot-run calls boundary =
      let c = run new calls in
      (
        λ slot.
            lookup-remove_if _ slot c.slots
            ∙ ap (λ o. if ltb slot boundary then none else o) (lookup-run-new calls slot),
        length-remove_if _ c.slots,
        refl,
      )
