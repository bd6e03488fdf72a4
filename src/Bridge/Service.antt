-- ===== src/Bridge/Service.antt =====
-- bridge/service.go: `forward` and `consumeLoop`. The connections are parameters: what the target
-- answers to the n-th publication, and whether the n-th acknowledgement succeeds. The lag metric, the
-- context of a publication and the endpoint of the metrics are left out.
use lp_indexer.Prelude.{
  ℕ, suc, Bool, true, false, Option, none, some, List, [], ◌∷◌, ◌++◌, nat_eq, ◌&&◌, not,
  if◌then◌else◌,
}
use lp_indexer.Prelude.Bytes.{Bytes, bytes_beq}

-- what `forward` reads of a `nats.Msg`
pub record Msg : Type 0 where
  pub subject : Bytes
  pub headers : List (Bytes × List Bytes)
  pub payload : Bytes

-- the results of `PublishMsg`: an error (after which the target does not count as holding the message), which may be that of a cancelled context, or the stream of the
-- acknowledgement, where there is one
pub data PublishResult : Type 0 where
  failed : Bool → PublishResult
  accepted : Option Bytes → PublishResult

-- the errors of `forward` and `consumeLoop`, where `canceled` is what `ctx.Err()` answers
pub data ServiceError : Type 0 where
  canceled : ServiceError
  publish_failed : Bytes → ServiceError
  unexpected_stream : Bytes → Bytes → ServiceError
  ack_failed drop_ack_failed : ServiceError
  fetch_failed : ServiceError

-- the target's stream, the messages acknowledged at the source, the labels of the three counters, and
-- the numbers of publications and acknowledgements tried
pub record Service : Type 0 where
  pub log : List Msg
  pub acked : List Msg
  pub forwarded : List Bytes
  pub dropped : List Bytes
  pub publish_errors : List Bytes
  pub published : ℕ
  pub acks : ℕ

pub record Net : Type 0 where
  pub mapper : Bytes → Option Bytes
  pub target_stream : Bytes
  pub publish : ℕ → Msg → PublishResult
  pub ack : ℕ → Msg → Bool

-- one round of `consumeLoop`: the context is done, or what `Fetch` returns
pub data Round : Type 0 where
  context_done timeout : Round
  -- an error of `Fetch`, and whether the context has ended by then
  fetch_error : Bool → Round
  batch : List Msg → Round

-- `ack.Stream != "" && ack.Stream != s.cfg.TargetStream`
abbrev pub is_other : Bytes → Option Bytes → Bool
is_other target none = false
is_other target (some stream) = not (bytes_beq stream []) && not (bytes_beq stream target)

abbrev pub stream_of : Option Bytes → Bytes
stream_of none = []
stream_of (some stream) = stream

module _ (net : Net) where
  -- `msg.Ack()`, and the error that its caller returns
  unfoldable pub ack_message : Msg → Service → Bool × Service
  ack_message msg s =
      if net.ack s.acks msg
      then (true, record s { acked = s.acked ++ msg ∷ []; acks = suc s.acks })
      else (false, record s { acks = suc s.acks })

  -- a message that the mapper drops
  unfoldable pub drop_message : Msg → Service → Option ServiceError × Service
  drop_message msg s =
      let counted = record s { dropped = s.dropped ++ msg.subject ∷ [] } in
      let (done, s') = ack_message msg counted in
      if done then (none, s') else (some drop_ack_failed, s')

  -- the acknowledgement of a message that has been published
  unfoldable pub confirm : Msg → Bytes → Service → Option ServiceError × Service
  confirm msg mapped s =
      let (done, s') = ack_message msg s in
      if done
      then (none, record s' { forwarded = s'.forwarded ++ mapped ∷ [] })
      else (some ack_failed, s')

  -- the branches on the result of `PublishMsg`
  unfoldable pub on_published :
      Msg → Bytes → PublishResult → Service → Option ServiceError × Service
  on_published msg mapped (failed is_canceled) s = (
    some (if is_canceled then canceled else publish_failed mapped),
    record s { publish_errors = s.publish_errors ++ mapped ∷ []; published = suc s.published },
  )
  on_published msg mapped (accepted stream) s =
      let stored = record s {
        log = s.log ++ record msg { subject = mapped } ∷ [];
        published = suc s.published;
      } in
      let confirmed = confirm msg mapped stored in
      if is_other net.target_stream stream
      then (some (unexpected_stream mapped (stream_of stream)), stored)
      else confirmed

  unfoldable pub forward_to : Msg → Option Bytes → Service → Option ServiceError × Service
  forward_to msg none s = drop_message msg s
  forward_to msg (some mapped) s =
      on_published msg mapped (net.publish s.published (record msg { subject = mapped })) s

  -- `forward`
  unfoldable pub forward : Msg → Service → Option ServiceError × Service
  forward msg s = forward_to msg (net.mapper msg.subject) s

  -- the rest of a run after a result without error
  abbrev pub and_then :
      Option ServiceError × Service
      → (Service → Option ServiceError × Service)
      → Option ServiceError × Service
  and_then (none, s) next = next s
  and_then (some e, s) next = (some e, s)

  -- the loop over the messages of a fetch
  unfoldable pub forward_all : List Msg → Service → Option ServiceError × Service
  forward_all [] s = (none, s)
  forward_all (msg ∷ msgs) s = and_then (forward msg s) (forward_all msgs)

  -- `consumeLoop` over the rounds that it has made so far; no error means that it still runs
  unfoldable pub consume_loop : List Round → Service → Option ServiceError × Service
  consume_loop [] s = (none, s)
  consume_loop (context_done ∷ rounds) s = (some canceled, s)
  consume_loop (timeout ∷ rounds) s = consume_loop rounds s
  consume_loop (fetch_error is_done ∷ rounds) s =
      (some (if is_done then canceled else fetch_failed), s)
  consume_loop (batch msgs ∷ rounds) s = and_then (forward_all msgs s) (consume_loop rounds)
