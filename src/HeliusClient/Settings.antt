-- ===== src/HeliusClient/Settings.antt =====
-- ingestor/helius/config.go: the configuration of the Helius client, from the environment.
use lp_indexer.Prelude.{
  ℕ, ◌==◌, nat_eq, Option, none, some, List, [], ◌∷◌, ◌++◌, Result, ok, err, ◌>>=◌, if◌then◌else◌,
  ◌*◌,
}
use lp_indexer.Prelude.Int.{ℤ, pos, pos_part, ltb_ℤ}
use lp_indexer.Prelude.Bytes.{Bytes, codes}
use lp_indexer.Environment.{
  Env, EnvError, invalid, if_set, validated, atoi, duration, not_positive, is_empty, millisecond,
  second,
}

-- `Config`; no field of the environment sets the filters
pub record Config : Type 0 where
  pub grpc_endpoint : Bytes
  pub ws_endpoint : Bytes
  pub api_key : Bytes
  pub request_timeout : ℕ
  pub reconnect_backoff : ℕ
  pub replay_slots : ℕ
  pub program_filters : List (Bytes × Bytes)

pub data Field : Type 0 where
  grpc_endpoint ws_endpoint api_key : Field

pub data ConfigError : Type 0 where
  config_nil bad_request_timeout bad_reconnect_backoff bad_replay_slots : ConfigError
  missing_fields : List Field → ConfigError

-- `DefaultConfig`
abbrev pub default_config : Config
default_config = record {
  grpc_endpoint = codes "";
  ws_endpoint = codes "";
  api_key = codes "";
  request_timeout = 10 * second;
  reconnect_backoff = 5 * second;
  replay_slots = 64;
  program_filters = [];
}

abbrev pub missing_if : Bytes → Field → List Field
missing_if s field = if is_empty s then field ∷ [] else []

-- the fields that are required and empty
abbrev pub missing : Config → List Field
missing c =
    missing_if c.grpc_endpoint grpc_endpoint
    ++ (missing_if c.ws_endpoint ws_endpoint ++ missing_if c.api_key api_key)

abbrev pub validate_numbers : Config → Option ConfigError
validate_numbers c =
    if not_positive c.request_timeout
    then some bad_request_timeout
    else if not_positive c.reconnect_backoff
    then some bad_reconnect_backoff
    else if c.replay_slots == 0
    then some bad_replay_slots
    else none

abbrev pub validate_fields : List Field → Config → Option ConfigError
validate_fields [] c = validate_numbers c
validate_fields (f ∷ fields) c = some (missing_fields (f ∷ fields))

-- `Validate`
unfoldable pub validate : Option Config → Option ConfigError
validate none = some config_nil
validate (some c) = validate_fields (missing c) c

-- a number that is not positive leaves the default
abbrev pub if_positive :
    Bytes → (ℕ → Config → Config) → Option ℤ → Config → Result (EnvError ConfigError) Config
if_positive name f none c = err (invalid name)
if_positive name f (some n) c = ok (if ltb_ℤ (pos 0) n then f (pos_part n) c else c)

abbrev pub given :
    Env → Bytes → (ℕ → Config → Config) → Config → Result (EnvError ConfigError) Config
unfolding if_set
given env name f = if_set (env name) (λ v c. if_positive name f (atoi v) c)

-- `FromEnv`
unfoldable pub from_env : Env → Result (EnvError ConfigError) Config
unfolding validate
from_env env =
    given env (codes "HELIUS_TIMEOUT_MS")
      (λ n c. record c { request_timeout = duration millisecond (pos n) })
      (record default_config {
        grpc_endpoint = env (codes "HELIUS_GRPC");
        ws_endpoint = env (codes "HELIUS_WS");
        api_key = env (codes "HELIUS_API_KEY");
      })
    >>= given env (codes "HELIUS_BACKOFF_MS")
        (λ n c. record c { reconnect_backoff = duration millisecond (pos n) })
    >>= given env (codes "HELIUS_REPLAY_SLOTS") (λ n c. record c { replay_slots = n })
    >>= validated (λ c. validate (some c))
