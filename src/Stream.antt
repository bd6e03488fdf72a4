-- ===== src/Stream.antt =====
-- ingestor/geyser/client.go and ingestor/helius/stream_client.go: the loops that subscribe to a stream of
-- updates and resume it. The two clients have one loop and differ in the request, in the window that is
-- replayed and in how they read the slot of an update. What the server answers, and when the client's
-- context ends, are the rounds of the loop; the delays between them are left out. `log` is what the loop
-- does in order: a request, an update or an error that it sends to its channel.
pub mod Geyser
pub mod Helius
pub mod Log
pub mod Resumes
use lp_indexer.Prelude.{ℕ, ◌-◌, String, Option, none, some, List, [], ◌∷◌, ◌++◌, ltb, if◌then◌else◌}
use lp_indexer.Yellowstone.{SubscribeUpdate}

-- the parts of a `SubscribeRequest` that are not empty: the names of the filters on slots and on blocks'
-- metadata, the owners of the accounts and the programs of the transactions by the names of their filters,
-- and the slot to start from. The commitment is always confirmed.
pub record Request : Type 0 where
  pub slots : List String
  pub accounts : List (String × List String)
  pub transactions : List (String × List String)
  pub blocks_meta : List String
  pub from_slot : ℕ

pub data StreamError : Type 0 where
  subscribe_failed send_failed recv_failed : StreamError

pub data Entry : Type 0 where
  requested : Request → Entry
  forwarded : SubscribeUpdate → Entry
  failed : StreamError → Entry

-- how a stream ends after the updates that `processStream` has received and sent on: it is closed or
-- fails, the context is done at the head of the loop, or it is done when an update is to be sent, or the
-- stream has not ended yet
pub data StreamEnd : Type 0 where
  closed recv_error done_at_head open_still : StreamEnd
  done_in_send : SubscribeUpdate → StreamEnd

-- one round of `subscribeLoop`: the context is done at its head or in the wait before, the subscription
-- or the request fails, or a stream is processed
pub data Round : Type 0 where
  context_done no_stream no_request : Round
  stream : List SubscribeUpdate → StreamEnd → Round

-- how a loop stands: it goes on, the stream has ended, the context is done, or an update had a nil
-- pointer
pub data Ending : Type 0 where
  runs ended cancelled crashed : Ending

-- the variables of the loops, and what they have done
pub record Loop : Type 0 where
  pub slot : ℕ
  pub log : List Entry
  pub ending : Ending

abbrev pub note : Entry → Loop → Loop
note entry s = record s { log = s.log ++ entry ∷ [] }

abbrev pub stop : Ending → Loop → Loop
stop ending s = record s { ending = ending }

-- the later of two slots, the second where they are equal
abbrev pub later_slot : ℕ → ℕ → ℕ
later_slot slot last = if ltb last slot then slot else last

-- the slot from which the loop asks
unfoldable pub replay_slot : ℕ → ℕ → ℕ
replay_slot window current = if ltb window current then current - window else current

module _ (slot_of : SubscribeUpdate → Option ℕ) where
  -- the slot of an update that is received; a nil pointer in it panics
  abbrev pub on_slot : Option ℕ → (ℕ → Loop) → Loop → Loop
  on_slot none next s = stop crashed s
  on_slot (some slot) next s = next slot

  unfoldable pub end_stream : StreamEnd → Loop → Loop
  end_stream closed s = stop ended s
  end_stream recv_error s = stop ended (note (failed recv_failed) s)
  end_stream done_at_head s = stop cancelled s
  end_stream (done_in_send u) s = on_slot (slot_of u) (λ slot. stop cancelled s) s
  end_stream open_still s = s

  -- `processStream`: `slot` of the state is `lastSlot`
  unfoldable pub process_stream : List SubscribeUpdate → StreamEnd → Loop → Loop
  process_stream [] end s = end_stream end s
  process_stream (u ∷ updates) end s =
      on_slot (slot_of u)
        (λ slot.
          process_stream updates end
            (note (forwarded u) (record s { slot = later_slot slot s.slot })))
        s

-- the rest of a round of `subscribeLoop` once its stream has returned
abbrev pub after_stream : Ending → ℕ → Loop → (Loop → Loop) → Loop
after_stream runs current s next = s
after_stream cancelled current s next = s
after_stream crashed current s next = s
after_stream ended current s next =
    next (record s { slot = later_slot s.slot current; ending = runs })

module _ (window : ℕ) (slot_of : SubscribeUpdate → Option ℕ) (build : ℕ → Request) where
  -- `subscribeLoop`: `slot` of the state is `currentSlot`
  unfoldable pub subscribe_loop : List Round → Loop → Loop
  subscribe_loop [] s = s
  subscribe_loop (context_done ∷ rounds) s = stop cancelled s
  subscribe_loop (no_stream ∷ rounds) s = subscribe_loop rounds (note (failed subscribe_failed) s)
  subscribe_loop (no_request ∷ rounds) s = subscribe_loop rounds (note (failed send_failed) s)
  subscribe_loop (stream updates end ∷ rounds) s =
      let streamed =
        process_stream slot_of updates end
          (record (note (requested (build (replay_slot window s.slot))) s) { slot = 0 }) in
      after_stream streamed.ending s.slot streamed (subscribe_loop rounds)

  -- `Subscribe`, which starts the loop
  unfoldable pub subscribe : List Round → ℕ → Loop
  subscribe rounds start = subscribe_loop rounds (record { slot = start; log = []; ending = runs })
