-- ===== src/Publisher/Outputs.antt =====
-- sinks/nats/publisher.go: the publications of pool snapshots and candles, and `publish`. Marshalling is a
-- parameter, and what the server answers is the result of a function of the message that it is sent.
pub mod CandleIds
use lp_indexer.Prelude.{
  ℕ, Bool, true, false, ◌&&◌, not, Option, none, some, List, [], ◌∷◌, ◌++◌, if◌then◌else◌,
}
use lp_indexer.Prelude.Bytes.{Bytes, codes, bytes_beq}
use lp_indexer.Prelude.Decimal.{to_decimal}
use lp_indexer.Environment.{is_empty}
use lp_indexer.Parquet.Writer.{Candle}

-- `PoolSnapshot` of gen/go/dex/sol/v1, as far as it is read
pub record PoolSnapshot : Type 0 where
  pub slot : ℕ
  pub pool_id : Bytes

-- the `nats.Msg` that `publish` makes; the empty id is no header
pub record Outgoing : Type 0 where
  pub subject : Bytes
  pub payload : Bytes
  pub id : Bytes
  pub content_type : Bytes

-- what `PublishMsg` answers: an error, or an acknowledgement, which may name its stream
pub data Answer : Type 0 where
  refused : Answer
  acked : Option Bytes → Answer

pub data PublishError : Type 0 where
  is_nil marshal_failed : PublishError
  publish_failed : Bytes → PublishError
  unexpected_stream : Bytes → PublishError

-- the check of the acknowledgement
abbrev pub on_answer : Bytes → Bytes → Answer → Option PublishError
on_answer stream subject refused = some (publish_failed subject)
on_answer stream subject (acked none) = none
on_answer stream subject (acked (some other)) =
    if not (is_empty other) && not (bytes_beq other stream)
    then some (unexpected_stream other)
    else none

-- `publish`, with the messages that it sends
unfoldable pub publish :
    Bytes → (Outgoing → Answer) → Bytes → Option Bytes → Bytes → Option PublishError × List Outgoing
unfolding bytes_beq
publish stream answer subject none id = (some marshal_failed, [])
publish stream answer subject (some payload) id =
    let msg : Outgoing = record {
      subject = subject;
      payload = payload;
      id = id;
      content_type = codes "application/protobuf";
    } in
    (on_answer stream subject (answer msg), msg ∷ [])

-- the subject and the message id of `PublishPoolSnapshot`
unfoldable pub snapshot_subject : Bytes → Bytes
snapshot_subject root = root ++ codes ".pool.snapshot"

unfoldable pub snapshot_id : PoolSnapshot → Bytes
snapshot_id snap = codes "501" ++ b':' ∷ (to_decimal snap.slot ++ b':' ∷ snap.pool_id)

-- those of `PublishCandle`
abbrev pub scope : Candle → Bytes
scope candle = if is_empty candle.pool_id then codes "pair" else codes "pool"

unfoldable pub candle_subject : Bytes → Candle → Bytes
candle_subject root candle = root ++ (codes ".candle." ++ (scope candle ++ b'.' ∷ candle.timeframe))

-- `%t`
abbrev pub truth : Bool → Bytes
truth true = codes "true"
truth false = codes "false"

unfoldable pub candle_id : Candle → Bytes
candle_id candle =
    codes "501"
    ++ b':'
      ∷ (candle.pair_id
          ++ b':'
            ∷ (candle.pool_id
                ++ b':' ∷ (to_decimal candle.window_start ++ b':' ∷ truth candle.provisional)))

module _ (stream root : Bytes) (answer : Outgoing → Answer) where
  -- `PublishPoolSnapshot` and `PublishCandle`
  unfoldable pub publish_pool_snapshot :
      (PoolSnapshot → Option Bytes) → Option PoolSnapshot → Option PublishError × List Outgoing
  unfolding publish snapshot_subject snapshot_id
  publish_pool_snapshot marshal none = (some is_nil, [])
  publish_pool_snapshot marshal (some snap) =
      publish stream answer (snapshot_subject root) (marshal snap) (snapshot_id snap)

  unfoldable pub publish_candle :
      (Candle → Option Bytes) → Option Candle → Option PublishError × List Outgoing
  unfolding publish candle_subject candle_id
  publish_candle marshal none = (some is_nil, [])
  publish_candle marshal (some candle) =
      publish stream answer (candle_subject root candle) (marshal candle) (candle_id candle)
