-- ===== src/GeyserService/Agrees.antt =====
-- The service with one client and the failover service's `runClient` do the same to the processor.
use lp_indexer.Prelude.{
  ◌≡◌, refl, Option, none, some, List, [], ◌∷◌, inl, inr, Option-cases, String,
}
use lp_indexer.Failover as Failover
use lp_indexer.Failover.{
  RunError, ContextError, canceled, context_error, connect_client, connect_geyser, stream_failed,
  stream_closed, update_failed, Event, context_done, stream_error, no_error, closed, update,
  Session, run_client,
}
use lp_indexer.SwapDecoder.Decode.{Env}
use lp_indexer.Processor.State.{Processor, ProcessorError, Accepts}
use lp_indexer.Processor.Updates.{handle_update}
use lp_indexer.GeyserService.{
  Metrics, Service, Outcome, running, returned, listen, shutdown_metrics, context_result,
  after_update, event_loop, run,
}

-- What `runClient` returns over a session, what `Run` does over it when `ctx.Err()` answers `context`,
-- and the metrics' server before and after `Run`.
pub data Ends (context : Option ContextError) (before : Metrics)
    : Option RunError → Outcome → Metrics → Type 0 where
  goes_on : Ends context before none running (listen before)
  context_ends :
      Ends context before
        (some (context_error canceled))
        (returned (context_result context))
        (shutdown_metrics (listen before))
  no_connection :
      (name text : String)
      → Ends context before
          (some (connect_client name text))
          (returned (some (connect_geyser text)))
          before
  stream_fails :
      (text : String)
      → Ends context before
          (some (stream_failed text))
          (returned (some (stream_failed text)))
          (shutdown_metrics (listen before))
  stream_ends :
      Ends context before (some stream_closed) (returned none) (shutdown_metrics (listen before))
  update_fails :
      (e : ProcessorError)
      → Ends context before
          (some (update_failed e))
          (returned (some (update_failed e)))
          (listen before)

pub record Agrees (context : Option ContextError) (before : Metrics)
    (r : Option RunError × Processor) (s : Outcome × Service) : Type 0 where
  pub processor : s.1.processor ≡ r.1
  pub ends : Ends context before r.0 s.0 s.1.metrics

module _ (env : Env) (accepts : Accepts) (context : Option ContextError) (before : Metrics) where
  after_update-Agrees :
      (r : Option ProcessorError × Processor) (next : Processor → Option RunError × Processor)
      (next' : Service → Outcome × Service)
      → ((p : Processor)
          → Agrees context before
              (next p)
              (next' (record { processor = p; metrics = listen before })))
      → Agrees context before
          (Failover.after_update env accepts r next)
          (after_update env accepts r (listen before) next')
  after_update-Agrees (none, p) next next' h = h p
  after_update-Agrees (some e, p) next next' h = record { processor = refl; ends = update_fails e }

  event_loop-Agrees :
      (events : List Event) (p : Processor)
      → Agrees context before (Failover.event_loop env accepts events p) (
          event_loop env accepts context events (record { processor = p; metrics = listen before }))
  unfolding event_loop Failover.event_loop
  event_loop-Agrees [] p = record { processor = refl; ends = goes_on }
  event_loop-Agrees (context_done ∷ events) p = record { processor = refl; ends = context_ends }
  event_loop-Agrees (stream_error text ∷ events) p = record {
    processor = refl;
    ends = stream_fails text;
  }
  event_loop-Agrees (no_error ∷ events) p = event_loop-Agrees events p
  event_loop-Agrees (closed ∷ events) p = record { processor = refl; ends = stream_ends }
  event_loop-Agrees (update u ∷ events) p =
      after_update-Agrees (handle_update env accepts u p) (Failover.event_loop env accepts events)
        (event_loop env accepts context events) (event_loop-Agrees events)

module _ (env : Env) (accepts : Accepts) where
  -- Over one session of a client, `Run` of the service with one client and `runClient` of the
  -- failover service leave the processor in the same state, and one ends where the other does. The
  -- error of a stream or of an update is the same; where the context ends, `runClient` returns
  -- `context.Canceled` and `Run` what `ctx.Err()` answers, a deadline's error included; where the
  -- client does not connect, each returns its text behind its own words; and where the stream closes,
  -- which is an error of `runClient`, `Run` returns nil. `Run` shuts its server of metrics down where
  -- the context, an error of the stream or its end stops it, leaves it listening where an update
  -- fails, and does not start it where the client does not connect.
  pub run-Agrees :
      (name : String) (session : Session) (s : Service)
      → Agrees session.context s.metrics
          (run_client env accepts name session s.processor)
          (run env accepts session s)
  unfolding run run_client
  run-Agrees name session s = elim (Option-cases session.connect_error) [
    | inl connects ↦
        rw connects
          (event_loop-Agrees env accepts session.context s.metrics session.events s.processor)
    | inr (text, fails) ↦ rw fails (record { processor = refl; ends = no_connection name text })
  ]
