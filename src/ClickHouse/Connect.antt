-- ===== src/ClickHouse/Connect.antt =====
-- sinks/clickhouse/writer.go: the writer's configuration, `parseDSN` and `connectWithRetry`. A duration is
-- the bit pattern of its `int64`, in nanoseconds. What `url.Parse` makes of a DSN, whether the n-th dial
-- succeeds, and whether the context ends before the wait after it is over, are parameters.
pub mod Tries
use lp_indexer.Prelude.{
  ℕ, zero, suc, ◌+◌, ◌*◌, ◌%◌, ◌^◌, Bool, Option, none, some, List, [], ◌∷◌, ◌++◌, Result, ok, err,
  if◌then◌else◌, ltb, leb, drop, length, ◌||◌,
}
use lp_indexer.Prelude.Int.{ℤ, pos, negsuc, ltb_ℤ}
use lp_indexer.Environment.{is_empty}
use lp_indexer.Prelude.Bytes.{Bytes, codes, bytes_beq, to_lower}

-- `Config`
pub record Config : Type 0 where
  pub dsn : Bytes
  pub database : Bytes
  pub trades_table : Bytes
  pub candles_table : Bytes
  pub batch_size : ℤ
  pub flush_interval : ℕ
  pub max_retries : ℤ
  pub retry_backoff_base : ℕ
  pub retry_backoff_max : ℕ

pub data ConfigError : Type 0 where
  no_dsn no_database no_trades_table no_candles_table bad_batch_size bad_max_retries : ConfigError

-- `validateConfig`
unfoldable pub validate_config : Config → Option ConfigError
validate_config c =
    if is_empty c.dsn
    then some no_dsn
    else if is_empty c.database
    then some no_database
    else if is_empty c.trades_table
    then some no_trades_table
    else if is_empty c.candles_table
    then some no_candles_table
    else if ltb_ℤ c.batch_size (pos 1)
    then some bad_batch_size
    else if ltb_ℤ c.max_retries (pos 0)
    then some bad_max_retries
    else none

-- what the source reads of a `url.URL`: the user's name and password, and the first value of the query's
-- parameter `compression`
pub record Url : Type 0 where
  pub scheme : Bytes
  pub host : Bytes
  pub user : Option (Bytes × Option Bytes)
  pub path : Bytes
  pub compression : Bytes

pub data Compression : Type 0 where
  unset lz4 off : Compression

-- `ch.Options`
pub record Options : Type 0 where
  pub address : Bytes
  pub user : Bytes
  pub password : Bytes
  pub database : Bytes
  pub compression : Compression

pub data DsnError : Type 0 where
  bad_format no_scheme : DsnError
  bad_scheme : Bytes → DsnError

abbrev pub user_of : Option (Bytes × Option Bytes) → Bytes
user_of none = []
user_of (some (name, password)) = name

abbrev pub password_of : Option (Bytes × Option Bytes) → Bytes
password_of (some (name, some password)) = password
password_of _ = []

abbrev pub compression_of : Bytes → Compression
compression_of s =
    if bytes_beq s (codes "lz4") then lz4 else if bytes_beq s (codes "none") then off else unset

abbrev pub options_of : Url → Options
options_of u = record {
  address = u.host;
  user = user_of u.user;
  password = password_of u.user;
  database = if ltb 1 (length u.path) then drop 1 u.path else [];
  compression = compression_of u.compression;
}

abbrev pub check_scheme : Url → Result DsnError Options
check_scheme u =
    if bytes_beq (to_lower u.scheme) (codes "clickhouse")
      || bytes_beq (to_lower u.scheme) (codes "tcp")
    then ok (options_of u)
    else if is_empty (to_lower u.scheme)
    then err no_scheme
    else err (bad_scheme u.scheme)

-- `parseDSN`, of what `url.Parse` answers
unfoldable pub parse_dsn : Option Url → Result DsnError Options
unfolding bytes_beq to_lower
parse_dsn none = err bad_format
parse_dsn (some u) = check_scheme u

-- `a > b` on `int64`
abbrev pub above : ℕ → ℕ → Bool
above a b = ltb ((b + 2 ^ 63) % 2 ^ 64) ((a + 2 ^ 63) % 2 ^ 64)

-- `backoff *= 2`, and the cut at the maximum
unfoldable pub next_backoff : ℕ → ℕ → ℕ
next_backoff top backoff = if above (backoff * 2 % 2 ^ 64) top then top else backoff * 2 % 2 ^ 64

-- how `connectWithRetry` ends: with the client of the n-th dial, or an error
pub data Connection : Type 0 where
  connected : ℕ → Connection
  cancelled failed : Connection
  bad_dsn : DsnError → Connection

-- how often the loop may run
abbrev pub rounds : ℤ → ℕ
rounds (pos n) = suc n
rounds (negsuc n) = 0

abbrev pub or_default : ℕ → ℕ → ℕ
or_default default zero = default
or_default default (suc n) = suc n

module _ (dials ends : Options → ℕ → Bool) where
  -- the loop of `connectWithRetry`, with the rounds that are left and the waits that it has made
  unfoldable pub connect_loop : Options → ℕ → ℕ → ℕ → ℕ → List ℕ → Connection × List ℕ
  connect_loop opts top zero n backoff waits = (failed, waits)
  connect_loop opts top (suc zero) n backoff waits =
      if dials opts n then (connected n, waits) else (failed, waits)
  connect_loop opts top (suc (suc left)) n backoff waits =
      let rest =
        connect_loop opts top (suc left) (suc n) (next_backoff top backoff)
          (waits ++ backoff ∷ []) in
      if dials opts n
      then (connected n, waits)
      else if ends opts n
      then (cancelled, waits)
      else rest

  -- `connectWithRetry`
  abbrev pub connect_to : Config → Result DsnError Options → Connection × List ℕ
  connect_to c (err e) = (bad_dsn e, [])
  connect_to c (ok opts) =
      connect_loop (record opts { database = c.database })
        (or_default 10000000000 c.retry_backoff_max) (rounds c.max_retries) 0
        (or_default 100000000 c.retry_backoff_base) []

  unfoldable pub connect_with_retry : (Bytes → Option Url) → Config → Connection × List ℕ
  connect_with_retry parse c = connect_to c (parse_dsn (parse c.dsn))

  -- `NewWithConfig`, as far as the connection
  unfoldable pub new_with_config :
      (Bytes → Option Url) → Config → Result ConfigError (Connection × List ℕ)
  new_with_config parse c = elim (validate_config c) [
    | some e ↦ err e
    | none ↦ ok (connect_with_retry parse c)
  ]
