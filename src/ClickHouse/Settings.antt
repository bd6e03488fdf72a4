-- ===== src/ClickHouse/Settings.antt =====
-- sinks/clickhouse/config.go: the configuration of the sink's service, from the environment.
use lp_indexer.Prelude.{ℕ, Option, none, some, Result, ok, ◌>>=◌, if◌then◌else◌, ◌*◌}
use lp_indexer.Prelude.Int.{ℤ, pos, ltb_ℤ}
use lp_indexer.Prelude.Bytes.{Bytes, codes}
use lp_indexer.Environment.{
  Env, EnvError, if_set, parsed, validated, int_at_least, duration, not_positive, is_empty,
  value_or_default, millisecond,
}
use lp_indexer.ClickHouse.Connect.{Config, ConfigError, validate_config}

-- `ServiceConfig`
pub record ServiceConfig : Type 0 where
  pub nats_url : Bytes
  pub stream : Bytes
  pub subject_root : Bytes
  pub consumer : Bytes
  pub pull_batch : ℤ
  pub pull_timeout : ℕ
  pub writer : Config

pub data ServiceConfigError : Type 0 where
  no_nats_url no_stream no_subject_root no_consumer bad_pull_batch bad_pull_timeout :
      ServiceConfigError
  bad_writer : ConfigError → ServiceConfigError

abbrev pub writer_error : Option ConfigError → Option ServiceConfigError
writer_error none = none
writer_error (some e) = some (bad_writer e)

-- `Validate`
unfoldable pub validate : ServiceConfig → Option ServiceConfigError
validate c =
    if is_empty c.nats_url
    then some no_nats_url
    else if is_empty c.stream
    then some no_stream
    else if is_empty c.subject_root
    then some no_subject_root
    else if is_empty c.consumer
    then some no_consumer
    else if ltb_ℤ c.pull_batch (pos 1)
    then some bad_pull_batch
    else if not_positive c.pull_timeout
    then some bad_pull_timeout
    else writer_error (validate_config c.writer)

-- the literal that `ServiceConfigFromEnv` starts with
abbrev pub initial_config : Env → ServiceConfig
initial_config env = record {
  nats_url = env (codes "CH_SINK_NATS_URL");
  stream = env (codes "CH_SINK_NATS_STREAM");
  subject_root = value_or_default (env (codes "CH_SINK_SUBJECT_ROOT")) (codes "dex.sol");
  consumer = value_or_default (env (codes "CH_SINK_CONSUMER")) (codes "clickhouse-sink");
  pull_batch = pos 256;
  pull_timeout = 500 * millisecond;
  writer = record {
    dsn = codes "";
    database = codes "";
    trades_table = codes "";
    candles_table = codes "";
    batch_size = pos 512;
    flush_interval = 1000 * millisecond;
    max_retries = pos 3;
    retry_backoff_base = 200 * millisecond;
    retry_backoff_max = 5000 * millisecond;
  };
}

abbrev pub given :
    Bytes
    → (Bytes → ServiceConfig → Result (EnvError ServiceConfigError) ServiceConfig)
    → ServiceConfig
    → Result (EnvError ServiceConfigError) ServiceConfig
unfolding if_set
given = if_set

-- the text of a variable for a field of the writer's configuration
abbrev pub given_text :
    Env
    → Bytes
    → (Bytes → Config → Config)
    → ServiceConfig
    → Result (EnvError ServiceConfigError) ServiceConfig
given_text env name f = given (env name) (λ v c. ok (record c { writer = f v c.writer }))

-- the number of a variable, which is not below a bound, for a field of the service's or the writer's
-- configuration
abbrev pub given_int :
    Env
    → Bytes
    → ℤ
    → (ℤ → ServiceConfig → ServiceConfig)
    → ServiceConfig
    → Result (EnvError ServiceConfigError) ServiceConfig
given_int env name bound f =
    given (env name) (λ v c. parsed name (int_at_least bound v) (λ n. f n c))

abbrev pub given_writer :
    Env
    → Bytes
    → ℤ
    → (ℤ → Config → Config)
    → ServiceConfig
    → Result (EnvError ServiceConfigError) ServiceConfig
given_writer env name bound f = given_int env name bound (λ n c. record c { writer = f n c.writer })

-- `ServiceConfigFromEnv`
unfoldable pub service_config_from_env : Env → Result (EnvError ServiceConfigError) ServiceConfig
unfolding validate
service_config_from_env env =
    given_int env (codes "CH_SINK_PULL_BATCH") (pos 1) (λ n c. record c { pull_batch = n })
      (initial_config env)
    >>= given_int env (codes "CH_SINK_PULL_TIMEOUT_MS") (pos 1)
        (λ n c. record c { pull_timeout = duration millisecond n })
    >>= given_writer env (codes "CH_SINK_FLUSH_INTERVAL_MS") (pos 1)
        (λ n w. record w { flush_interval = duration millisecond n })
    >>= given_text env (codes "CH_SINK_DSN") (λ v w. record w { dsn = v })
    >>= given_text env (codes "CH_SINK_DATABASE") (λ v w. record w { database = v })
    >>= given_text env (codes "CH_SINK_TRADES_TABLE") (λ v w. record w { trades_table = v })
    >>= given_text env (codes "CH_SINK_CANDLES_TABLE") (λ v w. record w { candles_table = v })
    >>= given_writer env (codes "CH_SINK_BATCH_SIZE") (pos 1) (λ n w. record w { batch_size = n })
    >>= given_writer env (codes "CH_SINK_MAX_RETRIES") (pos 0) (λ n w. record w { max_retries = n })
    >>= given_writer env (codes "CH_SINK_RETRY_BACKOFF_MS") (pos 0)
        (λ n w. record w { retry_backoff_base = duration millisecond n })
    >>= given_writer env (codes "CH_SINK_RETRY_BACKOFF_MAX_MS") (pos 0)
        (λ n w. record w { retry_backoff_max = duration millisecond n })
    >>= validated validate
