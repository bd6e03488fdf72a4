-- ===== src/Stream/Geyser.antt =====
-- ingestor/geyser/client.go: what the Geyser client's loop is made of.
use lp_indexer.Stream.{Request, Round, Loop, subscribe}
use lp_indexer.Prelude.{ℕ, Option, none, some, String, List, [], ◌∷◌, map}
use lp_indexer.Yellowstone.{
  SubscribeUpdate, transaction_update, block_meta_update, account_update, slot_update, block_update,
  other_update, TransactionUpdate, BlockMetaUpdate, AccountUpdate, SlotUpdate, BlockUpdate,
}

-- `ReplaySlotWindow`
abbrev pub replay_slot_window : ℕ
replay_slot_window = 64

-- a field of a pointer, which panics where it is nil
abbrev pub field : {A : Type 0} → (A → ℕ) → Option A → Option ℕ
field get none = none
field get (some a) = some (get a)

-- `extractSlotFromUpdate`
unfoldable pub extract_slot_from_update : SubscribeUpdate → Option ℕ
extract_slot_from_update (slot_update u) = field SlotUpdate.slot u
extract_slot_from_update (account_update u) = field AccountUpdate.slot u
extract_slot_from_update (transaction_update u) = field TransactionUpdate.slot u
extract_slot_from_update (block_update u) = field BlockUpdate.slot u
extract_slot_from_update (block_meta_update u) = field BlockMetaUpdate.slot u
extract_slot_from_update other_update = some 0

-- `buildSubscribeRequest`, with the configured programs as the entries of their map
unfoldable pub build_subscribe_request : List (String × String) → ℕ → Request
build_subscribe_request programs start = record {
  slots = "client" ∷ [];
  accounts = map (λ p. (p.0, p.1 ∷ [])) programs;
  transactions = [];
  blocks_meta = "client" ∷ [];
  from_slot = start;
}

-- `Subscribe` and `subscribeLoop` of the Geyser client
unfoldable pub subscribe_loop : List (String × String) → List Round → ℕ → Loop
subscribe_loop programs =
    subscribe replay_slot_window extract_slot_from_update (build_subscribe_request programs)
