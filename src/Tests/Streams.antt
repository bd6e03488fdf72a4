-- ===== src/Tests/Streams.antt =====
-- ingestor/geyser and ingestor/helius: two streams, the second of which resumes the first.
use lp_indexer.Prelude.{ℕ, ◌≡◌, refl, none, some, List, [], ◌∷◌, String}
use lp_indexer.Yellowstone.{SubscribeUpdate, slot_update, block_meta_update, slot_other}
use lp_indexer.Stream.{
  Request, requested, forwarded, failed, closed, recv_error, recv_failed, open_still, Round,
  no_stream, subscribe_failed, stream, runs, crashed, replay_slot, end_stream, process_stream,
  subscribe_loop, subscribe,
}
use lp_indexer.Stream.Geyser as Geyser
use lp_indexer.Stream.Geyser.{replay_slot_window, extract_slot_from_update}
use lp_indexer.Stream.Helius as Helius
use lp_indexer.Stream.Helius.{extract_slot}
use lp_indexer.Stream.Log.{updates_of}
use lp_indexer.Stream.Resumes.{Keeps, subscribe-Keeps}

abbrev at_slot : ℕ → SubscribeUpdate
at_slot slot = slot_update (some (record { slot = slot; status = slot_other }))

abbrev programs : List (String × String)
programs = ("raydium", "675k") ∷ ("orca", "whirL") ∷ []

abbrev geyser_request : ℕ → Request
geyser_request = Geyser.build_subscribe_request programs

abbrev helius_request : ℕ → Request
helius_request = Helius.build_subscribe_request programs

abbrev rounds : List Round
rounds =
    stream (at_slot 200 ∷ at_slot 199 ∷ []) closed
    ∷ no_stream
    ∷ stream (at_slot 150 ∷ []) recv_error
    ∷ stream (at_slot 201 ∷ []) open_still
    ∷ []

program : Unit {0}
unfolding replay_slot end_stream process_stream subscribe_loop subscribe extract_slot_from_update
    extract_slot Geyser.build_subscribe_request Helius.build_subscribe_request
program = tt

-- the later streams start 64 slots before slot 200
resumed :
    (subscribe replay_slot_window extract_slot_from_update geyser_request rounds 100).log
    ≡ requested (geyser_request 36)
      ∷ forwarded (at_slot 200)
      ∷ forwarded (at_slot 199)
      ∷ failed subscribe_failed
      ∷ requested (geyser_request 136)
      ∷ forwarded (at_slot 150)
      ∷ failed recv_failed
      ∷ requested (geyser_request 136)
      ∷ forwarded (at_slot 201)
      ∷ []
unfolding program
resumed = refl

nil_crashes :
    (subscribe replay_slot_window extract_slot_from_update geyser_request
      (stream (block_meta_update none ∷ []) open_still ∷ [])
      5).ending
    ≡ crashed
unfolding program
nil_crashes = refl

nil_is_zero :
    (subscribe 64
      (λ u. some (extract_slot u))
      helius_request
      (stream (block_meta_update none ∷ []) open_still ∷ [])
      5).ending
    ≡ runs
unfolding program
nil_is_zero = refl

builds : (n : ℕ) → (geyser_request n).from_slot ≡ n
unfolding program
builds n = refl

subscribe-Keeps_example :
    Keeps replay_slot_window extract_slot_from_update geyser_request builds 100
      (updates_of rounds)
      (subscribe replay_slot_window extract_slot_from_update geyser_request rounds 100)
subscribe-Keeps_example =
    subscribe-Keeps replay_slot_window extract_slot_from_update geyser_request builds 100 rounds
