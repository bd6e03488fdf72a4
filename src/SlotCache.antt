-- ===== src/SlotCache.antt =====
-- ingestor/common/slot_cache.go: the slot-to-timestamp cache with its replay marker.
-- A Go map of slots is an association list without repeated keys. The mutex makes each method one
-- atomic step, so a method is a function from the state to the state and its result.
pub mod Laws
pub mod Ranges
use lp_indexer.Prelude.{
  ℕ, suc, zero, ◌%◌, ◌+◌, ◌-◌, Bool, Option, none, some, List, [], ◌∷◌, Result, ok, err, leb, ltb,
  ◌&&◌, length, if◌then◌else◌, nat_eq,
}
use lp_indexer.Prelude.Words.{u64_mod}
use lp_indexer.Prelude.Maps.{lookup, insert, remove_if, count_if}

-- `fmt.Errorf("slot %d not found in cache", slot)`
pub data CacheError : Type 0 where
  slot_not_found : ℕ → CacheError

-- `MemorySlotTimeCache`, over a type of timestamps (`time.Time`)
pub record SlotCache (T : Type 0) : Type 0 where
  pub slots : List (ℕ × T)
  pub replay_marker : ℕ

module _ {T : Type 0} where
  -- `NewMemorySlotTimeCache`
  unfoldable pub new : SlotCache T
  new = record { slots = []; replay_marker = 0 }

  -- `Get`
  unfoldable pub get : ℕ → SlotCache T → Result CacheError T
  get slot c = elim (lookup slot c.slots) [ none ↦ err (slot_not_found slot) | some ts ↦ ok ts ]

  -- `Set`
  unfoldable pub set : ℕ → T → SlotCache T → SlotCache T
  set slot ts c = record c { slots = insert slot ts c.slots }

  -- The loop of `GetRange`, `for slot := start; slot <= end; slot++` on `uint64`, with fuel; `none`
  -- means that the fuel ran out. The body adds the slot to the result where the cache holds it.
  unfoldable pub add_found : ℕ → List (ℕ × T) → List (ℕ × T) → List (ℕ × T)
  add_found slot slots result = elim (lookup slot slots) [
    | none ↦ result
    | some ts ↦ insert slot ts result
  ]

  unfoldable pub range_loop : ℕ → ℕ → ℕ → List (ℕ × T) → List (ℕ × T) → Option (List (ℕ × T))
  range_loop zero slot end_slot slots result = none
  range_loop (suc fuel) slot end_slot slots result =
      let rest =
        range_loop fuel ((slot + 1) % u64_mod) end_slot slots (add_found slot slots result) in
      if leb slot end_slot then rest else some result

  -- `GetRange`
  unfoldable pub get_range : ℕ → ℕ → ℕ → SlotCache T → Option (List (ℕ × T))
  get_range fuel start_slot end_slot c = range_loop fuel start_slot end_slot c.slots []

  -- `SetReplayMarker` and `GetReplayMarker`
  unfoldable pub set_replay_marker : ℕ → SlotCache T → SlotCache T
  set_replay_marker slot c = record c { replay_marker = slot }

  unfoldable pub get_replay_marker : SlotCache T → ℕ
  get_replay_marker c = c.replay_marker

  -- `IsReplaySlot`
  unfoldable pub is_replay_slot : ℕ → SlotCache T → Bool
  is_replay_slot slot c = ltb 0 c.replay_marker && leb c.replay_marker slot

  -- `Clear`
  unfoldable pub clear : SlotCache T → SlotCache T
  clear c = record { slots = []; replay_marker = 0 }

  -- `Size`
  unfoldable pub size : SlotCache T → ℕ
  size c = length c.slots

  -- `PruneBeforeSlot`: the cache left, and the number of entries removed
  unfoldable pub prune_before_slot : ℕ → SlotCache T → SlotCache T × ℕ
  prune_before_slot slot c =
      let old = λ (s : ℕ). ltb s slot in
      (record c { slots = remove_if old c.slots }, count_if old c.slots)
