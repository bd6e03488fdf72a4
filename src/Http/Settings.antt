-- ===== src/Http/Settings.antt =====
-- api/http/cache/cache.go: the configuration of the cache, from the environment, and `New`.
-- `time.ParseDuration` is a parameter.
use lp_indexer.Prelude.{ℕ, ◌*◌, Bool, true, false, Option, [], Result, ok, ◌>>=◌, if◌then◌else◌}
use lp_indexer.Prelude.Int.{ℤ, pos}
use lp_indexer.Prelude.Bytes.{Bytes, codes}
use lp_indexer.Environment.{Env, EnvError, if_set, parsed, atoi, is_empty, second}
use lp_indexer.Http.{Cache}

-- `Config`
pub record Config : Type 0 where
  pub enabled : Bool
  pub addr : Bytes
  pub password : Bytes
  pub db : ℤ
  pub ttl : ℕ

-- without an address the cache is disabled
abbrev pub disabled_config : Config
disabled_config = record {
  enabled = false;
  addr = [];
  password = [];
  db = pos 0;
  ttl = 300 * second;
}

abbrev pub set_db : Bytes → Config → Result (EnvError (Unit {0})) Config
set_db v c = parsed (codes "API_REDIS_DB") (atoi v) (λ n. record c { db = n })

abbrev pub set_ttl : (Bytes → Option ℕ) → Bytes → Config → Result (EnvError (Unit {0})) Config
set_ttl parse_duration v c =
    parsed (codes "API_REDIS_TTL") (parse_duration v) (λ d. record c { ttl = d })

-- `LoadConfigFromEnv`
unfoldable pub load_config_from_env : (Bytes → Option ℕ) → Env → Result (EnvError (Unit {0})) Config
unfolding if_set
load_config_from_env parse_duration env =
    let addr = env (codes "API_REDIS_ADDR") in
    let loaded =
      if_set (env (codes "API_REDIS_DB")) set_db (record disabled_config {
        enabled = true;
        addr = addr;
        password = env (codes "API_REDIS_PASSWORD");
      })
      >>= if_set (env (codes "API_REDIS_TTL")) (set_ttl parse_duration) in
    if is_empty addr then ok disabled_config else loaded

-- `New`
unfoldable pub new : Config → Cache
new c = record { enabled = c.enabled }
