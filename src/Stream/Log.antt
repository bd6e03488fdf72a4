-- ===== src/Stream/Log.antt =====
-- What the log of a client's loop shows: from where it asks again, and what it sends on.
use mathlib.Core.List.{append-nil}
use mathlib.Core.Path.{ap, ◌∙◌, subst}
use lp_indexer.Prelude.{
  ℕ, ◌+◌, ◌-◌, ◌≤◌, ◌≡◌, refl, ◌⊎◌, inl, inr, Option, none, some, List, [], ◌∷◌, ◌++◌, arith, ltb,
  Bool-cases, if◌then◌else◌,
}
use lp_indexer.Yellowstone.{SubscribeUpdate}
use lp_indexer.Stream.{
  Request, Entry, requested, forwarded, failed, StreamError, closed, recv_error, done_at_head,
  done_in_send, open_still, Round, context_done, no_stream, no_request, stream, Loop, note,
  later_slot, replay_slot,
}

-- the updates sent on
abbrev pub sent_on : List Entry → List SubscribeUpdate
sent_on [] = []
sent_on (requested r ∷ log) = sent_on log
sent_on (failed e ∷ log) = sent_on log
sent_on (forwarded u ∷ log) = u ∷ sent_on log

-- the updates of some rounds: nothing comes after a stream that is still open, nor once the context is
-- done
abbrev pub updates_of : List Round → List SubscribeUpdate
updates_of [] = []
updates_of (context_done ∷ rounds) = []
updates_of (no_stream ∷ rounds) = updates_of rounds
updates_of (no_request ∷ rounds) = updates_of rounds
updates_of (stream updates closed ∷ rounds) = updates ++ updates_of rounds
updates_of (stream updates recv_error ∷ rounds) = updates ++ updates_of rounds
updates_of (stream updates done_at_head ∷ rounds) = updates
updates_of (stream updates open_still ∷ rounds) = updates
updates_of (stream updates (done_in_send u) ∷ rounds) = updates

module _ (window : ℕ) (slot_of : SubscribeUpdate → Option ℕ) where
  abbrev pub slot_or : ℕ → Option ℕ → ℕ
  slot_or reached none = reached
  slot_or reached (some slot) = if ltb reached slot then slot else reached

  -- the latest of a slot and those of the updates sent on
  abbrev pub latest : ℕ → List Entry → ℕ
  latest reached [] = reached
  latest reached (requested r ∷ log) = latest reached log
  latest reached (failed e ∷ log) = latest reached log
  latest reached (forwarded u ∷ log) = latest (slot_or reached (slot_of u)) log

  -- Every request asks from exactly the window before the latest slot sent on before it, or from that
  -- slot itself where it is no later than the window.
  abbrev pub AsksFrom : ℕ → Request → Type 0
  AsksFrom reached r = (r.from_slot + window ≡ reached) ⊎ reached ≤ window × (r.from_slot ≡ reached)

  abbrev pub Resumes : ℕ → List Entry → Type 0
  Resumes reached [] = Unit
  Resumes reached (requested r ∷ log) = AsksFrom reached r × Resumes reached log
  Resumes reached (failed e ∷ log) = Resumes reached log
  Resumes reached (forwarded u ∷ log) = Resumes (slot_or reached (slot_of u)) log

  latest-last :
      (reached : ℕ) (log : List Entry) (e : Entry)
      → latest reached (log ++ e ∷ []) ≡ latest (latest reached log) (e ∷ [])
  latest-last reached [] e = refl
  latest-last reached (requested r ∷ log) e = latest-last reached log e
  latest-last reached (failed f ∷ log) e = latest-last reached log e
  latest-last reached (forwarded u ∷ log) e = latest-last (slot_or reached (slot_of u)) log e

  Resumes-last :
      (reached : ℕ) (log : List Entry) (e : Entry)
      → Resumes reached log
      → Resumes (latest reached log) (e ∷ [])
      → Resumes reached (log ++ e ∷ [])
  Resumes-last reached [] e h k = k
  Resumes-last reached (requested r ∷ log) e (a, h) k = (a, Resumes-last reached log e h k)
  Resumes-last reached (failed f ∷ log) e h k = Resumes-last reached log e h k
  Resumes-last reached (forwarded u ∷ log) e h k =
      Resumes-last (slot_or reached (slot_of u)) log e h k

sent_on-append : (a b : List Entry) → sent_on (a ++ b) ≡ sent_on a ++ sent_on b
sent_on-append [] b = refl
sent_on-append (requested r ∷ a) b = sent_on-append a b
sent_on-append (failed e ∷ a) b = sent_on-append a b
sent_on-append (forwarded u ∷ a) b = ap (λ l. u ∷ l) (sent_on-append a b)

module _ (window : ℕ) (slot_of : SubscribeUpdate → Option ℕ) (build : ℕ → Request)
    (builds : (n : ℕ) → (build n).from_slot ≡ n) (start : ℕ) where
  -- the loop's log resumes, and some updates are sent on, for a slot that the loop has reached
  pub record Inv (updates : List SubscribeUpdate) (reached : ℕ) (s : Loop) : Type 0 where
    pub resumes : Resumes window slot_of start s.log
    pub at : latest window slot_of start s.log ≡ reached
    pub sent : sent_on s.log ≡ updates

  -- one more entry in the log
  add-Inv :
      (e : Entry) (before more : List SubscribeUpdate) (reached reached' : ℕ) (s t : Loop)
      → t.log ≡ s.log ++ e ∷ []
      → Resumes window slot_of reached (e ∷ [])
      → latest window slot_of reached (e ∷ []) ≡ reached'
      → sent_on (e ∷ []) ≡ more
      → Inv before reached s
      → Inv (before ++ more) reached' t
  add-Inv e before more reached reached' s t grown asks at sent inv = rw grown (record {
    resumes = Resumes-last window slot_of start s.log e inv.resumes (rw inv.at asks);
    at = latest-last window slot_of start s.log e ∙ rw inv.at at;
    sent = sent_on-append s.log (e ∷ []) ∙ rw (inv.sent, sent) refl;
  })

  asks-from : (reached : ℕ) → AsksFrom window slot_of reached (build (replay_slot window reached))
  unfolding replay_slot
  asks-from reached = elim (Bool-cases (ltb window reached)) [
    | inl late ↦ inl (rw (late, builds (reached - window)) (ground arith))
    | inr early ↦ inr (ground arith, rw (early, builds reached) refl)
  ]

  pub request-Inv :
      (before : List SubscribeUpdate) (s : Loop)
      → Inv before s.slot s
      → Inv before s.slot
          (record (note (requested (build (replay_slot window s.slot))) s) { slot = 0 })
  request-Inv before s inv =
      let t = record (note (requested (build (replay_slot window s.slot))) s) { slot = 0 } in
      subst (λ l. Inv l s.slot t) (append-nil before)
        (add-Inv (requested (build (replay_slot window s.slot))) before [] s.slot s.slot s t refl
          (asks-from s.slot, tt) refl refl inv)

  pub failure-Inv :
      (before : List SubscribeUpdate) (e : StreamError) (reached : ℕ) (s : Loop)
      → Inv before reached s
      → Inv before reached (note (failed e) s)
  failure-Inv before e reached s inv =
      subst (λ l. Inv l reached (note (failed e) s)) (append-nil before)
        (add-Inv (failed e) before [] reached reached s (note (failed e) s) refl tt refl refl inv)

  later-later :
      (current last slot : ℕ)
      → later_slot slot (later_slot last current) ≡ later_slot (later_slot slot last) current
  later-later current last slot = ground arith

  pub later-zero : (current : ℕ) → current ≡ later_slot 0 current
  later-zero current = ground arith

  pub forward-Inv :
      (before : List SubscribeUpdate) (current slot : ℕ) (u : SubscribeUpdate) (s : Loop)
      → slot_of u ≡ some slot
      → Inv before (later_slot s.slot current) s
      → Inv
          (before ++ u ∷ [])
          (later_slot (later_slot slot s.slot) current)
          (note (forwarded u) (record s { slot = later_slot slot s.slot }))
  forward-Inv before current slot u s reads inv =
      add-Inv (forwarded u) before (u ∷ []) (later_slot s.slot current)
        (later_slot (later_slot slot s.slot) current) s
        (note (forwarded u) (record s { slot = later_slot slot s.slot })) refl tt
        (rw reads (later-later current s.slot slot)) refl inv
