-- ===== src/Failover.antt =====
-- ingestor/geyser/failover_service.go: the primary and the fallback client take turns in feeding one
-- processor. What a client's channels deliver is a list of the events that the `select` takes; the errors
-- of a client are their texts, and whether an error wraps that of a cancelled context is a parameter. The
-- delays and the metrics' server are left out.
pub mod Turns
use lp_indexer.Prelude.{
  ℕ, ◌+◌, ◌%◌, ◌==◌, nat_eq, string_eq, Bool, true, false, String, Option, none, some, List, [],
  ◌∷◌, ◌++◌, if◌then◌else◌,
}
use lp_indexer.Yellowstone.{SubscribeUpdate}
use lp_indexer.SwapDecoder.Decode.{Env}
use lp_indexer.Processor.State.{Processor, ProcessorError, Accepts}
use lp_indexer.Processor.Updates.{handle_update}

-- `context.Canceled` and `context.DeadlineExceeded`
pub data ContextError : Type 0 where
  canceled deadline_exceeded : ContextError

-- the errors of `Run` and `runClient`, and those of the service with one client: of a context, of a client
-- with a name or of geyser that does not connect, of a stream or its end, and of an update
pub data RunError : Type 0 where
  context_error : ContextError → RunError
  connect_client : String → String → RunError
  connect_geyser stream_failed : String → RunError
  stream_closed : RunError
  update_failed : ProcessorError → RunError

-- what the `select` takes: the context's end, an error or nil from the channel of errors, an update,
-- or the end of the channel of updates
pub data Event : Type 0 where
  context_done no_error closed : Event
  stream_error : String → Event
  update : SubscribeUpdate → Event

-- one call of `runClient`: the error of `Connect`, the events, and what `ctx.Err()` answers at its end
pub record Session : Type 0 where
  pub connect_error : Option String
  pub events : List Event
  pub context : Option ContextError

-- `FailoverService`, the variable `current` of `Run`, and the gauge and the counter of the metrics, the
-- counter by the labels that it was incremented with
pub record Failover : Type 0 where
  pub processor : Processor
  pub current : ℕ
  pub active : ℕ
  pub failures : List String

-- `Run` goes on, or has returned `ctx.Err()`
pub data Progress : Type 0 where
  running : Progress
  returned : Option ContextError → Progress

-- the names of the clients, whether there is a fallback, and which errors wrap `context.Canceled`
pub record Setup : Type 0 where
  pub name : ℕ → String
  pub has_fallback : Bool
  pub is_canceled : RunError → Bool

abbrev pub clients : Setup → ℕ
clients setup = if setup.has_fallback then 2 else 1

-- `setActive`
unfoldable pub gauge : String → ℕ
gauge source = if source == "" then 0 else if source == "geyser" then 1 else 2

-- `errors.Is(err, context.Canceled)`
abbrev pub is_cancel : Setup → RunError → Bool
is_cancel setup (context_error canceled) = true
is_cancel setup e = setup.is_canceled e

module _ (env : Env) (accepts : Accepts) where
  -- the result of `HandleUpdate`, and the rest of the loop
  abbrev pub after_update :
      Option ProcessorError × Processor
      → (Processor → Option RunError × Processor)
      → Option RunError × Processor
  after_update (none, p) next = next p
  after_update (some e, p) next = (some (update_failed e), p)

  -- the loop of `runClient`; no error means that the stream goes on
  unfoldable pub event_loop : List Event → Processor → Option RunError × Processor
  event_loop [] p = (none, p)
  event_loop (context_done ∷ events) p = (some (context_error canceled), p)
  event_loop (stream_error text ∷ events) p = (some (stream_failed text), p)
  event_loop (no_error ∷ events) p = event_loop events p
  event_loop (closed ∷ events) p = (some stream_closed, p)
  event_loop (update u ∷ events) p =
      after_update (handle_update env accepts u p) (event_loop events)

  -- `runClient` of the client with a name
  unfoldable pub run_client : String → Session → Processor → Option RunError × Processor
  run_client name session p = elim session.connect_error [
    | some text ↦ (some (connect_client name text), p)
    | none ↦ event_loop session.events p
  ]

  module _ (setup : Setup) where
    -- a round of `Run` that ends with an error: the failure is counted and the clients change turns
    unfoldable pub next_turn : Processor → Failover → Failover
    next_turn p s = record s {
      processor = p;
      current = (s.current + 1) % clients setup;
      failures = s.failures ++ setup.name s.current ∷ [];
    }

    abbrev pub with_processor : Processor → Failover → Failover
    with_processor p s = record s { processor = p }

    -- the result of `runClient`, and the rest of `Run`
    abbrev pub after_client :
        Option ContextError
        → Option RunError × Processor
        → Failover
        → (Failover → Progress × Failover)
        → Progress × Failover
    after_client context (none, p) s next = (running, with_processor p s)
    after_client context (some e, p) s next =
        let later = next (next_turn p s) in
        if is_cancel setup e then (returned context, with_processor p s) else later

    -- `Run` over the sessions that its clients give
    unfoldable pub run : List Session → Failover → Progress × Failover
    run [] s = (running, s)
    run (session ∷ sessions) s =
        let name = setup.name s.current in
        after_client session.context (run_client name session s.processor)
          (record s { active = gauge name }) (run sessions)
