-- ===== src/Parquet/Settings.antt =====
-- sinks/parquet/config.go, and the configuration of sinks/parquet/service.go.
use lp_indexer.Parquet.Writer.{Writer}
use lp_indexer.Prelude.{
  [], ◌||◌, Bool, ℕ, Option, none, some, Result, ok, err, ◌>>=◌, if◌then◌else◌, ◌*◌,
}
use lp_indexer.Prelude.Int.{ℤ, pos, pos_part, ltb_ℤ}
use lp_indexer.Prelude.Bytes.{Bytes, codes}
use lp_indexer.Environment.{
  Env, EnvError, if_set, parsed, validated, atoi, int_at_least, duration, not_positive, is_empty,
  value_or_default, millisecond, second, invalid, refused,
}

-- `Config`
pub record Config : Type 0 where
  pub endpoint : Bytes
  pub bucket : Bytes
  pub access_key : Bytes
  pub secret_key : Bytes
  pub prefix : Bytes
  pub flush_interval : ℕ
  pub batch_rows : ℤ
  pub region : Bytes

pub data ConfigError : Type 0 where
  no_endpoint no_bucket no_access_key no_secret_key bad_flush_interval no_prefix bad_batch_rows :
      ConfigError
  no_region : ConfigError

-- `DefaultConfig`
abbrev pub default_config : Config
default_config = record {
  endpoint = codes "";
  bucket = codes "";
  access_key = codes "";
  secret_key = codes "";
  prefix = codes "dex/";
  flush_interval = 900 * second;
  batch_rows = pos 5000;
  region = codes "us-east-1";
}

-- `Validate`
unfoldable pub validate : Config → Option ConfigError
validate c =
    if is_empty c.endpoint
    then some no_endpoint
    else if is_empty c.bucket
    then some no_bucket
    else if is_empty c.access_key
    then some no_access_key
    else if is_empty c.secret_key
    then some no_secret_key
    else if not_positive c.flush_interval
    then some bad_flush_interval
    else if is_empty c.prefix
    then some no_prefix
    else if ltb_ℤ c.batch_rows (pos 1)
    then some bad_batch_rows
    else if is_empty c.region
    then some no_region
    else none

abbrev pub given :
    Bytes
    → (Bytes → Config → Result (EnvError ConfigError) Config)
    → Config
    → Result (EnvError ConfigError) Config
unfolding if_set
given = if_set

-- `FromEnv`
unfoldable pub from_env : Env → Result (EnvError ConfigError) Config
unfolding if_set validate
from_env env =
    given (env (codes "S3_ENDPOINT")) (λ v c. ok (record c { endpoint = v })) default_config
    >>= given (env (codes "S3_BUCKET")) (λ v c. ok (record c { bucket = v }))
    >>= given (env (codes "S3_ACCESS_KEY")) (λ v c. ok (record c { access_key = v }))
    >>= given (env (codes "S3_SECRET_KEY")) (λ v c. ok (record c { secret_key = v }))
    >>= given (env (codes "PARQUET_PREFIX")) (λ v c. ok (record c { prefix = v }))
    >>= given (env (codes "PARQUET_FLUSH_INTERVAL_S")) (λ v c.
      parsed (codes "PARQUET_FLUSH_INTERVAL_S") (atoi v)
        (λ n. record c { flush_interval = duration second n }))
    >>= given (env (codes "PARQUET_BATCH_ROWS"))
        (λ v c. parsed (codes "PARQUET_BATCH_ROWS") (atoi v) (λ n. record c { batch_rows = n }))
    >>= given (env (codes "PARQUET_REGION")) (λ v c. ok (record c { region = v }))
    >>= validated validate

-- `ServiceConfig`
pub record ServiceConfig : Type 0 where
  pub nats_url : Bytes
  pub stream : Bytes
  pub subject_root : Bytes
  pub consumer : Bytes
  pub pull_batch : ℤ
  pub pull_timeout : ℕ
  pub writer : Config

pub data ServiceConfigError : Type 0 where
  no_nats_url no_stream no_subject_root no_consumer bad_pull_batch bad_pull_timeout :
      ServiceConfigError
  bad_writer : ConfigError → ServiceConfigError

abbrev pub writer_error : Option ConfigError → Option ServiceConfigError
writer_error none = none
writer_error (some e) = some (bad_writer e)

-- `Validate` of `ServiceConfig`
unfoldable pub validate_service : ServiceConfig → Option ServiceConfigError
validate_service c =
    if is_empty c.nats_url
    then some no_nats_url
    else if is_empty c.stream
    then some no_stream
    else if is_empty c.subject_root
    then some no_subject_root
    else if is_empty c.consumer
    then some no_consumer
    else if ltb_ℤ c.pull_batch (pos 1)
    then some bad_pull_batch
    else if not_positive c.pull_timeout
    then some bad_pull_timeout
    else writer_error (validate c.writer)

-- the literal that `ServiceConfigFromEnv` starts with
abbrev pub initial_config : Env → ServiceConfig
initial_config env = record {
  nats_url = env (codes "PARQUET_NATS_URL");
  stream = env (codes "PARQUET_NATS_STREAM");
  subject_root = value_or_default (env (codes "PARQUET_SUBJECT_ROOT")) (codes "dex.sol");
  consumer = value_or_default (env (codes "PARQUET_CONSUMER")) (codes "parquet-sink");
  pull_batch = pos 256;
  pull_timeout = 500 * millisecond;
  writer = default_config;
}

abbrev pub wrap_writer :
    ServiceConfig
    → Result (EnvError ConfigError) Config
    → Result (EnvError ServiceConfigError) ServiceConfig
wrap_writer c (err (invalid name)) = err (invalid name)
wrap_writer c (err (refused e)) = err (refused (bad_writer e))
wrap_writer c (ok writer) = ok (record c { writer = writer })

abbrev pub given_service :
    Bytes
    → (Bytes → ServiceConfig → Result (EnvError ServiceConfigError) ServiceConfig)
    → ServiceConfig
    → Result (EnvError ServiceConfigError) ServiceConfig
unfolding if_set
given_service = if_set

-- `ServiceConfigFromEnv`
unfoldable pub service_config_from_env : Env → Result (EnvError ServiceConfigError) ServiceConfig
unfolding if_set validate_service from_env
service_config_from_env env =
    given_service (env (codes "PARQUET_PULL_BATCH"))
      (λ v c.
        parsed (codes "PARQUET_PULL_BATCH") (int_at_least (pos 1) v)
          (λ n. record c { pull_batch = n }))
      (initial_config env)
    >>= given_service (env (codes "PARQUET_PULL_TIMEOUT_MS")) (λ v c.
      parsed (codes "PARQUET_PULL_TIMEOUT_MS") (int_at_least (pos 1) v)
        (λ n. record c { pull_timeout = duration millisecond n }))
    >>= (λ c. wrap_writer c (from_env env))
    >>= validated validate_service

-- the errors of `NewWriter`, of which the first is `ErrWriterDisabled`
pub data NewError : Type 0 where
  writer_disabled no_session : NewError
  bad_config : ConfigError → NewError

abbrev pub is_disabled : Config → Bool
is_disabled c =
    is_empty c.endpoint || is_empty c.bucket || is_empty c.access_key || is_empty c.secret_key

-- `NewWriter` at the time `now`, where an AWS session can be made or not
abbrev pub fresh_writer : ℕ → Config → Writer
fresh_writer now c = record {
  batch_rows = pos_part c.batch_rows;
  flush_interval = c.flush_interval;
  buckets = [];
  last_flush = now;
  objects = [];
  uploads = 0;
}

abbrev pub checked_writer : Option ConfigError → Bool → ℕ → Config → Result NewError Writer
checked_writer (some e) session now c = err (bad_config e)
checked_writer none session now c = if session then ok (fresh_writer now c) else err no_session

unfoldable pub new_writer : Bool → ℕ → Config → Result NewError Writer
unfolding validate
new_writer session now c =
    if is_disabled c then err writer_disabled else checked_writer (validate c) session now c
