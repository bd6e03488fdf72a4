-- ===== src/GeyserService.antt =====
-- ingestor/geyser/service.go: `Run` of the service with one client, and its metrics' server. What the
-- client's channels deliver is a list of the events that the `select` takes, as for the failover service.
pub mod Agrees
pub mod Settings
use lp_indexer.Prelude.{Option, none, some, List, [], ◌∷◌, if◌then◌else◌, Bool}
use lp_indexer.SwapDecoder.Decode.{Env}
use lp_indexer.Processor.State.{Processor, ProcessorError, Accepts}
use lp_indexer.Processor.Updates.{handle_update}
use lp_indexer.Failover.{
  RunError, context_error, connect_geyser, stream_failed, update_failed, Event, context_done,
  stream_error, no_error, closed, update, Session, ContextError,
}

-- `metricsServer`: nil, not started yet, listening, or shut down
pub data Metrics : Type 0 where
  no_server idle listening shut_down : Metrics

pub record Service : Type 0 where
  pub processor : Processor
  pub metrics : Metrics

-- `Run` goes on, or has returned an error or nil
pub data Outcome : Type 0 where
  running : Outcome
  returned : Option RunError → Outcome

-- `buildMetricsServer`, of whether the address is empty
abbrev pub build_metrics_server : Bool → Metrics
build_metrics_server empty = if empty then no_server else idle

-- the goroutine that `Run` starts
unfoldable pub listen : Metrics → Metrics
listen idle = listening
listen m = m

-- `shutdownMetrics`
unfoldable pub shutdown_metrics : Metrics → Metrics
shutdown_metrics no_server = no_server
shutdown_metrics m = shut_down

-- what `ctx.Err()` answers, as the result of `Run`
abbrev pub context_result : Option ContextError → Option RunError
context_result none = none
context_result (some why) = some (context_error why)

module _ (env : Env) (accepts : Accepts) where
  -- the result of `HandleUpdate`, and the rest of the loop
  abbrev pub after_update :
      Option ProcessorError × Processor
      → Metrics
      → (Service → Outcome × Service)
      → Outcome × Service
  after_update (none, p) m next = next (record { processor = p; metrics = m })
  after_update (some e, p) m next =
      (returned (some (update_failed e)), record { processor = p; metrics = m })

  -- the loop of `Run`, of what `ctx.Err()` answers at its end
  unfoldable pub event_loop : Option ContextError → List Event → Service → Outcome × Service
  event_loop context [] s = (running, s)
  event_loop context (context_done ∷ events) s =
      (returned (context_result context), record s { metrics = shutdown_metrics s.metrics })
  event_loop context (stream_error text ∷ events) s =
      (returned (some (stream_failed text)), record s { metrics = shutdown_metrics s.metrics })
  event_loop context (no_error ∷ events) s = event_loop context events s
  event_loop context (closed ∷ events) s =
      (returned none, record s { metrics = shutdown_metrics s.metrics })
  event_loop context (update u ∷ events) s =
      after_update (handle_update env accepts u s.processor) s.metrics (event_loop context events)

  -- `Run`
  unfoldable pub run : Session → Service → Outcome × Service
  run session s = elim session.connect_error [
    | some text ↦ (returned (some (connect_geyser text)), s)
    | none ↦ event_loop session.context session.events (record s { metrics = listen s.metrics })
  ]
