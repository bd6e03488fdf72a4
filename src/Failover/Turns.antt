-- ===== src/Failover/Turns.antt =====
-- What `Run` does over the sessions of its clients: which of them runs, whose failures are counted, and
-- with which session it stops.
use mathlib.Core.List.{append_assoc, append-nil}
use mathlib.Core.Path.{sym, ap, subst}
use lp_indexer.Prelude.{
  ℕ, zero, suc, ◌+◌, ◌%◌, ◌≡◌, refl, ◌∙◌, inl, inr, true, false, String, Option, none, some, List,
  [], ◌∷◌, ◌++◌, arith, length, ◌⊎◌, Bool-cases, if◌then◌else◌,
}
use lp_indexer.SwapDecoder.Decode.{Env}
use lp_indexer.Processor.State.{Processor, Accepts}
use lp_indexer.Failover.{
  RunError, canceled, deadline_exceeded, context_error, connect_client, connect_geyser,
  stream_failed, stream_closed, update_failed, Progress, running, returned, Session, Failover,
  Setup, clients, is_cancel, run_client, next_turn, after_client, run, gauge,
}

module _ (setup : Setup) where
  -- the client after another: the primary and the fallback replace each other, and without a fallback the
  -- primary has all turns
  abbrev pub turn_next : ℕ → ℕ
  turn_next n = if setup.has_fallback then (n + 1) % 2 else 0

  next_turn-turn_next : (n : ℕ) → (n + 1) % clients setup ≡ turn_next n
  next_turn-turn_next n = elim (Bool-cases setup.has_fallback) [
    | inl both ↦ rw both refl
    | inr one ↦ rw one (omega arith)
  ]

  -- the names of a number of turns, from the client that has the first
  abbrev pub turns : ℕ → ℕ → List String
  turns zero first = []
  turns (suc n) first = setup.name first ∷ turns n (turn_next first)

  -- the client that has the turn after a number of turns
  abbrev pub turn_after : ℕ → ℕ → ℕ
  turn_after zero first = first
  turn_after (suc n) first = turn_after n (turn_next first)

  -- an error that is or wraps that of a cancelled context
  abbrev pub Cancels : RunError → Type 0
  Cancels e = (e ≡ context_error canceled) ⊎ (setup.is_canceled e ≡ true)

  is_cancel-Cancels : (e : RunError) → is_cancel setup e ≡ true → Cancels e
  is_cancel-Cancels (context_error canceled) h = inl refl
  is_cancel-Cancels (context_error deadline_exceeded) h = inr h
  is_cancel-Cancels (connect_client name text) h = inr h
  is_cancel-Cancels (connect_geyser text) h = inr h
  is_cancel-Cancels (stream_failed text) h = inr h
  is_cancel-Cancels stream_closed h = inr h
  is_cancel-Cancels (update_failed why) h = inr h

  is_cancel-not_Cancels : (e : RunError) → is_cancel setup e ≡ false → ¬ Cancels e
  is_cancel-not_Cancels (context_error canceled) h = absurd (ground arith)
  is_cancel-not_Cancels (context_error deadline_exceeded) h = λ c. ground (arith, h, c)
  is_cancel-not_Cancels (connect_client name text) h = λ c. ground (arith, h, c)
  is_cancel-not_Cancels (connect_geyser text) h = λ c. ground (arith, h, c)
  is_cancel-not_Cancels (stream_failed text) h = λ c. ground (arith, h, c)
  is_cancel-not_Cancels stream_closed h = λ c. ground (arith, h, c)
  is_cancel-not_Cancels (update_failed why) h = λ c. ground (arith, h, c)

suc_add : (n m : ℕ) → suc (n + m) ≡ suc n + m
suc_add n m = omega arith

-- the gauge after clients have run one after the other
abbrev pub shown : ℕ → List String → ℕ
shown active [] = active
shown active (name ∷ names) = shown (gauge name) names

module _ (env : Env) (accepts : Accepts) (setup : Setup) where
  -- Each of the sessions, which the clients run in turn, fails with an error that is no cancellation. The
  -- first starts with the processor `p`, each other one with what the one before it left, and the last
  -- leaves `q`.
  pub data Fail : List Session → ℕ → Processor → Processor → Type 0 where
    no_more : {turn : ℕ} {p : Processor} → Fail [] turn p p
    fails :
        {session : Session} {sessions : List Session} {turn : ℕ} {p q : Processor} (e : RunError)
        (left : Processor)
        → run_client env accepts (setup.name turn) session p ≡ (some e, left)
        → ¬ Cancels setup e
        → Fail sessions (turn_next setup turn) left q
        → Fail (session ∷ sessions) turn p q

  -- The sessions that have not failed, with the client that has the turn, the processor before them, and
  -- what `Run` has come to: all sessions have failed so far, the stream of the first of these goes on, or
  -- its error is a cancellation, and `Run` has returned `ctx.Err()`. The number is of the sessions that
  -- have run besides the failed ones.
  pub data Stops : List Session → ℕ → Processor → ℕ → Progress → Processor → Type 0 where
    all_failed : {turn : ℕ} {p : Processor} → Stops [] turn p 0 running p
    goes_on :
        {session : Session} {sessions : List Session} {turn : ℕ} {p : Processor} (q : Processor)
        → run_client env accepts (setup.name turn) session p ≡ (none, q)
        → Stops (session ∷ sessions) turn p 1 running q
    cancelled :
        {session : Session} {sessions : List Session} {turn : ℕ} {p : Processor} (e : RunError)
        (q : Processor)
        → run_client env accepts (setup.name turn) session p ≡ (some e, q)
        → Cancels setup e
        → Stops (session ∷ sessions) turn p 1 (returned session.context) q

  -- a first part of the sessions fails, and `Run` stops with the rest, from the client that has the turn
  pub record TakesTurns (turn : ℕ) (sessions : List Session) (s : Failover)
      (r : Progress × Failover) : Type 0 where
    pub failed : List Session
    pub rest : List Session
    pub between : Processor
    pub more : ℕ
    pub split : sessions ≡ failed ++ rest
    pub fail : Fail failed turn s.processor between
    pub stops : Stops rest (turn_after setup (length failed) turn) between more r.0 r.1.processor
    pub current : r.1.current ≡ turn_after setup (length failed) turn
    pub failures : r.1.failures ≡ s.failures ++ turns setup (length failed) turn
    pub active : r.1.active ≡ shown s.active (turns setup (length failed + more) turn)

  -- `Run` stops with the sessions before any of them fails
  halts-TakesTurns :
      (sessions : List Session) (s : Failover) (more : ℕ) (r : Progress × Failover)
      → Stops sessions s.current s.processor more r.0 r.1.processor
      → r.1.current ≡ s.current
      → r.1.failures ≡ s.failures
      → r.1.active ≡ shown s.active (turns setup (0 + more) s.current)
      → TakesTurns s.current sessions s r
  halts-TakesTurns sessions s more r stops current failures active = record {
    failed = [];
    rest = sessions;
    between = s.processor;
    more = more;
    split = refl;
    fail = no_more;
    stops = stops;
    current = current;
    failures = failures ∙ sym (append-nil s.failures);
    active = active;
  }

  -- one more session fails before those of the rest of `Run`
  fails-TakesTurns :
      (session : Session) (sessions : List Session) (s : Failover) (e : RunError) (p : Processor)
      (r : Progress × Failover)
      → run_client env accepts (setup.name s.current) session s.processor ≡ (some e, p)
      → ¬ Cancels setup e
      → TakesTurns
          (turn_next setup s.current)
          sessions
          (next_turn env accepts setup p (record s { active = gauge (setup.name s.current) }))
          r
      → TakesTurns s.current (session ∷ sessions) s r
  unfolding next_turn
  fails-TakesTurns session sessions s e p r is real later = record {
    failed = session ∷ later.failed;
    rest = later.rest;
    between = later.between;
    more = later.more;
    split = ap (λ l. session ∷ l) later.split;
    fail = fails e p is real later.fail;
    stops = later.stops;
    current = later.current;
    failures =
        later.failures
        ∙ append_assoc s.failures (setup.name s.current ∷ [])
            (turns setup (length later.failed) (turn_next setup s.current));
    active =
        later.active
        ∙ ap (λ n. shown s.active (turns setup n s.current))
            (suc_add (length later.failed) later.more);
  }

  after_client-TakesTurns :
      (session : Session) (sessions : List Session) (s : Failover) (r : Option RunError × Processor)
      (next : Failover → Progress × Failover)
      → run_client env accepts (setup.name s.current) session s.processor ≡ r
      → ((s' : Failover) → TakesTurns s'.current sessions s' (next s'))
      → TakesTurns s.current (session ∷ sessions) s (
          after_client env accepts setup session.context r
            (record s { active = gauge (setup.name s.current) })
            next)
  unfolding next_turn
  after_client-TakesTurns session sessions s (none, p) next is rest =
      halts-TakesTurns (session ∷ sessions) s 1 _ (goes_on p is) refl refl refl
  after_client-TakesTurns session sessions s (some e, p) next is rest =
      elim (Bool-cases (is_cancel setup e)) [
        | inl stop ↦
            let stops = cancelled e p is (is_cancel-Cancels setup e stop) in
            rw stop (halts-TakesTurns (session ∷ sessions) s 1 _ stops refl refl refl)
        | inr passes ↦
            let s' =
              next_turn env accepts setup p (record s { active = gauge (setup.name s.current) }) in
            rw passes (
              fails-TakesTurns session sessions s e p (next s') is
                (is_cancel-not_Cancels setup e passes)
                (subst (λ turn. TakesTurns turn sessions s' (next s'))
                  (next_turn-turn_next setup s.current) (rest s')))
      ]

  -- Over any sessions, `Run` gives them to the primary and the fallback in turn, or all to the
  -- primary where there is no fallback, and the processor goes from each session to the next. It
  -- passes over exactly the sessions that fail with an error that neither is nor wraps
  -- `context.Canceled`, and counts each under the name of its client. It stops with the first session
  -- whose stream goes on, or whose error is or wraps `context.Canceled`; the latter is not counted,
  -- its client keeps the turn, and `Run` returns what `ctx.Err()` answers. The gauge shows the client
  -- that ran last.
  pub run-TakesTurns :
      (sessions : List Session) (s : Failover)
      → TakesTurns s.current sessions s (run env accepts setup sessions s)
  unfolding run
  run-TakesTurns [] s = halts-TakesTurns [] s 0 (running, s) all_failed refl refl refl
  run-TakesTurns (session ∷ sessions) s =
      after_client-TakesTurns session sessions s
        (run_client env accepts (setup.name s.current) session s.processor)
        (run env accepts setup sessions) refl (run-TakesTurns sessions)
