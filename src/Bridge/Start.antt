-- ===== src/Bridge/Start.antt =====
-- bridge/service.go: `Run`, from the connections to the loops that it starts. What the two servers answer
-- is a parameter; the server of the metrics is left out.
use lp_indexer.Prelude.{
  Bool, true, false, Option, none, some, List, [], ◌∷◌, Result, ok, err, ◌>>=◌, if◌then◌else◌,
}
use lp_indexer.Prelude.Bytes.{Bytes}
use lp_indexer.Bridge.{durable_name}
use lp_indexer.Bridge.Service.{ServiceError, canceled}
use lp_indexer.Bridge.Settings.{Config}

pub data StartError : Type 0 where
  source_unreachable target_unreachable no_source_jetstream no_target_jetstream : StartError
  no_source_stream no_subjects : Bytes → StartError
  subscribe_failed : Bytes → StartError

-- the answers of the servers: `StreamInfo` gives the subjects of a stream, and a subscription is made to a
-- subject under the name of a consumer
pub record Servers : Type 0 where
  pub connects : Bytes → Bool
  pub has_jetstream : Bytes → Bool
  pub stream_info : Bytes → Option (List Bytes)
  pub subscribes : Bytes → Bytes → Bool

abbrev pub require : Bool → StartError → Result StartError (Unit {0})
require true e = ok tt
require false e = err e

-- `collectSubjects`, and the check that there are some
abbrev pub collect_subjects : Bytes → Option (List Bytes) → Result StartError (List Bytes)
collect_subjects stream none = err (no_source_stream stream)
collect_subjects stream (some []) = err (no_subjects stream)
collect_subjects stream (some (subject ∷ subjects)) = ok (subject ∷ subjects)

module _ (servers : Servers) where
  -- the loop over the subjects: each with the name of its consumer
  unfoldable pub subscribe_all : List Bytes → Result StartError (List (Bytes × Bytes))
  unfolding durable_name
  subscribe_all [] = ok []
  subscribe_all (subject ∷ subjects) =
      let rest = subscribe_all subjects >>= λ loops. ok ((subject, durable_name subject) ∷ loops) in
      if servers.subscribes subject (durable_name subject)
      then rest
      else err (subscribe_failed subject)

  -- the subjects, with the names of their consumers, of which `Run` starts a loop each
  unfoldable pub start : Config → Result StartError (List (Bytes × Bytes))
  unfolding subscribe_all
  start c =
      require (servers.connects c.source_url) source_unreachable
      >>= (λ source. require (servers.connects c.target_url) target_unreachable)
      >>= (λ target. require (servers.has_jetstream c.source_url) no_source_jetstream)
      >>= (λ source. require (servers.has_jetstream c.target_url) no_target_jetstream)
      >>= (λ target. collect_subjects c.source_stream (servers.stream_info c.source_stream))
      >>= subscribe_all

-- the result of `Run` by that of the group of loops, of which some wrap the error of a cancelled context
unfoldable pub run_result : (ServiceError → Bool) → Option ServiceError → Option ServiceError
run_result is_canceled none = none
run_result is_canceled (some e) = if is_canceled e then some canceled else some e
