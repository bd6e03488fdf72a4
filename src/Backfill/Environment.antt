-- ===== src/Backfill/Environment.antt =====
-- backfill/orchestrator/config.go: `FromEnv`. An error of `Atoi` or `ParseUint` is told by the name of its
-- variable.
pub mod RoundTrip
use lp_indexer.Prelude.{ℕ, Option, none, some, Result, ok, err, ◌>>=◌, wrap_err}
use lp_indexer.Prelude.Int.{ℤ, pos}
use lp_indexer.Prelude.Bytes.{Bytes, codes, parse_uint}
use lp_indexer.Environment.{EnvError, invalid, refused, parsed, Env, if_set, atoi}
use lp_indexer.Backfill.{Config, ConfigError, validate}

-- `DefaultConfig`
abbrev pub default_config : Config
default_config = record { start_slot = 0; end_slot = 0; batch_size = 10000; concurrency = pos 4 }

abbrev pub start_name : Bytes
start_name = codes "BACKFILL_START_SLOT"

abbrev pub end_name : Bytes
end_name = codes "BACKFILL_END_SLOT"

abbrev pub size_name : Bytes
size_name = codes "BACKFILL_BATCH_SIZE"

abbrev pub concurrency_name : Bytes
concurrency_name = codes "BACKFILL_CONCURRENCY"

unfoldable pub set_start : Bytes → Config → Result (EnvError ConfigError) Config
set_start v c = parsed start_name (parse_uint v) (λ n. record c { start_slot = n })

unfoldable pub set_end : Bytes → Config → Result (EnvError ConfigError) Config
set_end v c = parsed end_name (parse_uint v) (λ n. record c { end_slot = n })

unfoldable pub set_size : Bytes → Config → Result (EnvError ConfigError) Config
set_size v c = parsed size_name (parse_uint v) (λ n. record c { batch_size = n })

unfoldable pub set_concurrency : Bytes → Config → Result (EnvError ConfigError) Config
set_concurrency v c = parsed concurrency_name (atoi v) (λ n. record c { concurrency = n })

abbrev pub checked : Config → Result (EnvError ConfigError) Config
checked c = wrap_err refused (validate c) >>= λ done. ok c

-- `FromEnv`
unfoldable pub from_env : Env → Result (EnvError ConfigError) Config
from_env env =
    if_set (env start_name) set_start default_config
    >>= if_set (env end_name) set_end
    >>= if_set (env size_name) set_size
    >>= if_set (env concurrency_name) set_concurrency
    >>= checked
