-- ===== src/Publisher/Settings.antt =====
-- sinks/nats/config.go: the configuration of the publisher, from the environment.
use lp_indexer.Prelude.{ℕ, Option, none, some, Result, ok, ◌>>=◌, if◌then◌else◌, ◌*◌}
use lp_indexer.Prelude.Bytes.{Bytes, codes}
use lp_indexer.Environment.{
  Env, EnvError, if_set, parsed, validated, atoi, duration, not_positive, is_empty, millisecond,
}

-- `Config`
pub record Config : Type 0 where
  pub url : Bytes
  pub stream : Bytes
  pub subject_root : Bytes
  pub publish_timeout : ℕ

pub data ConfigError : Type 0 where
  no_url no_stream no_subject_root bad_publish_timeout : ConfigError

-- `DefaultConfig`
abbrev pub default_config : Config
default_config = record {
  url = codes "";
  stream = codes "";
  subject_root = codes "dex.sol";
  publish_timeout = 5000 * millisecond;
}

-- `Validate`
unfoldable pub validate : Config → Option ConfigError
validate c =
    if is_empty c.url
    then some no_url
    else if is_empty c.stream
    then some no_stream
    else if is_empty c.subject_root
    then some no_subject_root
    else if not_positive c.publish_timeout
    then some bad_publish_timeout
    else none

unfoldable pub set_timeout : Bytes → Config → Result (EnvError ConfigError) Config
set_timeout v c =
    parsed (codes "NATS_PUBLISH_TIMEOUT_MS") (atoi v)
      (λ n. record c { publish_timeout = duration millisecond n })

-- `FromEnv`
unfoldable pub from_env : Env → Result (EnvError ConfigError) Config
unfolding if_set validate set_timeout
from_env env =
    if_set (env (codes "NATS_URL")) (λ v c. ok (record c { url = v })) default_config
    >>= if_set (env (codes "NATS_STREAM")) (λ v c. ok (record c { stream = v }))
    >>= if_set (env (codes "NATS_SUBJECT_ROOT")) (λ v c. ok (record c { subject_root = v }))
    >>= if_set (env (codes "NATS_PUBLISH_TIMEOUT_MS")) set_timeout
    >>= validated validate
