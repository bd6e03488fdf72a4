-- ===== src/Stream/Resumes.antt =====
-- A client resumes its stream before the latest slot that it has sent on, and sends on what it receives.
use mathlib.Core.List.{append-nil, append_assoc}
use mathlib.Core.Path.{ap, ◌∙◌, subst}
use lp_indexer.Prelude.{ℕ, ◌≡◌, refl, ◌⊎◌, inl, inr, Option, List, [], ◌∷◌, ◌++◌, sym, Option-cases}
use lp_indexer.Yellowstone.{SubscribeUpdate}
use lp_indexer.Stream.Log.{
  sent_on, updates_of, Resumes, Inv, failure-Inv, request-Inv, forward-Inv, later-zero,
}
use lp_indexer.Stream.{
  Request, requested, forwarded, failed, closed, recv_error, done_at_head, done_in_send, open_still,
  Round, context_done, no_stream, no_request, stream, Loop, note, later_slot, replay_slot,
  StreamEnd, Ending, end_stream, process_stream, crashed, ended, stop, runs, cancelled, recv_failed,
  after_stream, subscribe_loop, subscribe, subscribe_failed, send_failed,
}

module _ (window : ℕ) (slot_of : SubscribeUpdate → Option ℕ) (build : ℕ → Request)
    (builds : (n : ℕ) → (build n).from_slot ≡ n) (start : ℕ) where
  -- how the loop of a stream stands once the stream has ended
  abbrev ending_of : StreamEnd → Ending
  ending_of closed = ended
  ending_of recv_error = ended
  ending_of done_at_head = cancelled
  ending_of (done_in_send u) = cancelled
  ending_of open_still = runs

  -- what a stream leaves: it crashed, or its updates are sent on
  abbrev Streams : List SubscribeUpdate → StreamEnd → ℕ → Loop → Type 0
  Streams before end current t =
      Resumes window slot_of start t.log
      × ((t.ending ≡ crashed)
          ⊎ (t.ending ≡ ending_of end)
            × Inv window slot_of build builds start before (later_slot t.slot current) t)

  with_ending :
      (before : List SubscribeUpdate) (reached : ℕ) (ending : Ending) (s : Loop)
      → Inv window slot_of build builds start before reached s
      → Inv window slot_of build builds start before reached (stop ending s)
  with_ending before reached ending s inv = record {
    resumes = inv.resumes;
    at = inv.at;
    sent = inv.sent;
  }

  end_stream-Streams :
      (before : List SubscribeUpdate) (end : StreamEnd) (current : ℕ) (s : Loop)
      → s.ending ≡ runs
      → Inv window slot_of build builds start before (later_slot s.slot current) s
      → Streams before end current (end_stream slot_of end s)
  unfolding end_stream
  end_stream-Streams before closed current s on inv =
      (inv.resumes, inr (refl, with_ending before (later_slot s.slot current) ended s inv))
  end_stream-Streams before recv_error current s on inv =
      let failing =
        failure-Inv window slot_of build builds start before recv_failed (later_slot s.slot current)
          s inv in
      (
        failing.resumes,
        inr (
          refl,
          with_ending before (later_slot s.slot current) ended (note (failed recv_failed) s)
              failing,
        ),
      )
  end_stream-Streams before done_at_head current s on inv =
      (inv.resumes, inr (refl, with_ending before (later_slot s.slot current) cancelled s inv))
  end_stream-Streams before open_still current s on inv = (inv.resumes, inr (on, inv))
  end_stream-Streams before (done_in_send u) current s on inv = elim (Option-cases (slot_of u)) [
    | inl nil ↦ rw nil (inv.resumes, inl refl)
    | inr (slot, reads) ↦
        rw reads
          (inv.resumes, inr (refl, with_ending before (later_slot s.slot current) cancelled s inv))
  ]

  process_stream-Streams :
      (updates before : List SubscribeUpdate) (end : StreamEnd) (current : ℕ) (s : Loop)
      → s.ending ≡ runs
      → Inv window slot_of build builds start before (later_slot s.slot current) s
      → Streams (before ++ updates) end current (process_stream slot_of updates end s)
  unfolding process_stream
  process_stream-Streams [] before end current s on inv =
      subst (λ l. Streams l end current (end_stream slot_of end s)) (sym (append-nil before))
        (end_stream-Streams before end current s on inv)
  process_stream-Streams (u ∷ updates) before end current s on inv =
      elim (Option-cases (slot_of u)) [
        | inl nil ↦ rw nil (inv.resumes, inl refl)
        | inr (slot, reads) ↦
            let s' = note (forwarded u) (record s { slot = later_slot slot s.slot }) in
            rw reads (
              subst (λ l. Streams l end current (process_stream slot_of updates end s'))
                (append_assoc before (u ∷ []) updates)
                (process_stream-Streams updates (before ++ u ∷ []) end current s' on (
                  forward-Inv window slot_of build builds start before current slot u s reads inv)))
      ]

  -- what the loop leaves
  abbrev pub Keeps : List SubscribeUpdate → Loop → Type 0
  Keeps updates t =
      Resumes window slot_of start t.log × ((t.ending ≡ crashed) ⊎ (sent_on t.log ≡ updates))

  Inv-Keeps :
      (updates : List SubscribeUpdate) (reached : ℕ) (s : Loop)
      → Inv window slot_of build builds start updates reached s
      → Keeps updates s
  Inv-Keeps updates reached s inv = (inv.resumes, inr inv.sent)

  -- the rounds after a stream that has ended
  abbrev rest_of : StreamEnd → List Round → List SubscribeUpdate
  rest_of closed rounds = updates_of rounds
  rest_of recv_error rounds = updates_of rounds
  rest_of done_at_head rounds = []
  rest_of (done_in_send u) rounds = []
  rest_of open_still rounds = []

  updates_of-stream :
      (updates : List SubscribeUpdate) (end : StreamEnd) (rounds : List Round)
      → updates_of (stream updates end ∷ rounds) ≡ updates ++ rest_of end rounds
  updates_of-stream updates closed rounds = refl
  updates_of-stream updates recv_error rounds = refl
  updates_of-stream updates done_at_head rounds = sym (append-nil updates)
  updates_of-stream updates (done_in_send u) rounds = sym (append-nil updates)
  updates_of-stream updates open_still rounds = sym (append-nil updates)

  module _ (before : List SubscribeUpdate) (rounds : List Round) (current : ℕ) (next : Loop → Loop)
      (rest : (s : Loop)
        → s.ending ≡ runs
        → Inv window slot_of build builds start before s.slot s
        → Keeps (before ++ updates_of rounds) (next s)) where
    resumed-Keeps :
        (t : Loop)
        → Inv window slot_of build builds start before (later_slot t.slot current) t
        → Keeps (before ++ updates_of rounds) (after_stream ended current t next)
    resumed-Keeps t inv =
        rest (record t { slot = later_slot t.slot current; ending = runs }) refl
          (record { resumes = inv.resumes; at = inv.at; sent = inv.sent })

    stopped-Keeps :
        (t : Loop)
        → Inv window slot_of build builds start before (later_slot t.slot current) t
        → Keeps (before ++ []) t
    stopped-Keeps t inv = (inv.resumes, inr (inv.sent ∙ sym (append-nil before)))

    ending_of-Keeps :
        (end : StreamEnd) (t : Loop)
        → Inv window slot_of build builds start before (later_slot t.slot current) t
        → Keeps (before ++ rest_of end rounds) (after_stream (ending_of end) current t next)
    ending_of-Keeps closed t inv = resumed-Keeps t inv
    ending_of-Keeps recv_error t inv = resumed-Keeps t inv
    ending_of-Keeps done_at_head t inv = stopped-Keeps t inv
    ending_of-Keeps (done_in_send u) t inv = stopped-Keeps t inv
    ending_of-Keeps open_still t inv = stopped-Keeps t inv

    after_stream-Keeps :
        (end : StreamEnd) (t : Loop)
        → Streams before end current t
        → Keeps (before ++ rest_of end rounds) (after_stream t.ending current t next)
    after_stream-Keeps end t (resumes, inl crash) =
        subst (λ e. Keeps (before ++ rest_of end rounds) (after_stream e current t next))
          (sym crash) (resumes, inl crash)
    after_stream-Keeps end t (resumes, inr (is, inv)) =
        subst (λ e. Keeps (before ++ rest_of end rounds) (after_stream e current t next)) (sym is)
          (ending_of-Keeps end t inv)

  subscribe_loop-Keeps :
      (rounds : List Round) (before : List SubscribeUpdate) (s : Loop)
      → s.ending ≡ runs
      → Inv window slot_of build builds start before s.slot s
      → Keeps (before ++ updates_of rounds) (subscribe_loop window slot_of build rounds s)
  unfolding subscribe_loop
  subscribe_loop-Keeps [] before s on inv = (inv.resumes, inr (inv.sent ∙ sym (append-nil before)))
  subscribe_loop-Keeps (context_done ∷ rounds) before s on inv =
      (inv.resumes, inr (inv.sent ∙ sym (append-nil before)))
  subscribe_loop-Keeps (no_stream ∷ rounds) before s on inv =
      subscribe_loop-Keeps rounds before (note (failed subscribe_failed) s) on
        (failure-Inv window slot_of build builds start before subscribe_failed s.slot s inv)
  subscribe_loop-Keeps (no_request ∷ rounds) before s on inv =
      subscribe_loop-Keeps rounds before (note (failed send_failed) s) on
        (failure-Inv window slot_of build builds start before send_failed s.slot s inv)
  subscribe_loop-Keeps (stream updates end ∷ rounds) before s on inv =
      let s' = record (note (requested (build (replay_slot window s.slot))) s) { slot = 0 } in
      let t = process_stream slot_of updates end s' in
      subst
        (λ l. Keeps l (after_stream t.ending s.slot t (subscribe_loop window slot_of build rounds)))
        (append_assoc before updates (rest_of end rounds)
          ∙ ap (λ l. before ++ l) (sym (updates_of-stream updates end rounds)))
        (after_stream-Keeps (before ++ updates) rounds s.slot
          (subscribe_loop window slot_of build rounds)
          (subscribe_loop-Keeps rounds (before ++ updates)) end t
          (process_stream-Streams updates before end s.slot s' on (
            subst (λ n. Inv window slot_of build builds start before n s')
              (later-zero window slot_of build builds start s.slot)
              (request-Inv window slot_of build builds start before s inv))))

  -- For a request that starts from the slot that it is built for: whatever the server answers, every
  -- request of the loop asks from exactly the window before the latest of the start slot and the slots
  -- sent on so far, or from that latest slot itself where it is no later than the window; and unless an
  -- update with a nil pointer has stopped the loop, the updates sent on are exactly those received, in
  -- order, of all streams.
  pub subscribe-Keeps :
      (rounds : List Round)
      → Keeps (updates_of rounds) (subscribe window slot_of build rounds start)
  unfolding subscribe
  subscribe-Keeps rounds =
      subscribe_loop-Keeps rounds [] (record { slot = start; log = []; ending = runs }) refl
        (record { resumes = tt; at = refl; sent = refl })
