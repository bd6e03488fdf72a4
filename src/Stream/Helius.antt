-- ===== src/Stream/Helius.antt =====
-- ingestor/helius/stream_client.go: what the Helius client's loop is made of. The order in which Go visits
-- the map of programs is that of the list.
use lp_indexer.Prelude.{ℕ, Option, none, some, String, List, [], ◌∷◌, map}
use lp_indexer.Yellowstone.{
  SubscribeUpdate, transaction_update, block_meta_update, account_update, slot_update, block_update,
  other_update, TransactionUpdate, BlockMetaUpdate, AccountUpdate, SlotUpdate, BlockUpdate,
}
use lp_indexer.Stream
use lp_indexer.Stream.{Request, StreamEnd, Round, Loop, subscribe}

-- a getter of a protobuf message, which is 0 for nil
abbrev pub getter : {A : Type 0} → (A → ℕ) → Option A → ℕ
getter get none = 0
getter get (some a) = get a

-- `extractSlot`
unfoldable pub extract_slot : SubscribeUpdate → ℕ
extract_slot (slot_update u) = getter SlotUpdate.slot u
extract_slot (account_update u) = getter AccountUpdate.slot u
extract_slot (transaction_update u) = getter TransactionUpdate.slot u
extract_slot (block_update u) = getter BlockUpdate.slot u
extract_slot (block_meta_update u) = getter BlockMetaUpdate.slot u
extract_slot other_update = 0

-- `buildSubscribeRequest`
unfoldable pub build_subscribe_request : List (String × String) → ℕ → Request
build_subscribe_request programs start = record {
  slots = "client" ∷ [];
  accounts = map (λ p. (p.0, p.1 ∷ [])) programs;
  transactions = ("programs", map (λ p. p.1) programs) ∷ [];
  blocks_meta = "client" ∷ [];
  from_slot = start;
}

-- `Subscribe` and `subscribeLoop` of the Helius client, with the configured number of slots to replay
unfoldable pub subscribe_loop : ℕ → List (String × String) → List Round → ℕ → Loop
subscribe_loop replay_slots programs =
    subscribe replay_slots (λ u. some (extract_slot u)) (build_subscribe_request programs)

-- `processStream` of the Helius client
unfoldable pub process_stream : List SubscribeUpdate → StreamEnd → Loop → Loop
process_stream = Stream.process_stream (λ u. some (extract_slot u))
