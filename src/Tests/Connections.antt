-- ===== src/Tests/Connections.antt =====
-- sinks/clickhouse/writer.go: two dials fail and the third succeeds.
use lp_indexer.Prelude.{ℕ, ◌≡◌, refl, Bool, Option, some, [], ◌∷◌, ok, err, ltb, arith}
use lp_indexer.Prelude.Int.{pos, negsuc}
use lp_indexer.Prelude.Bytes.{Bytes, codes, bytes_beq, to_lower}
use lp_indexer.ClickHouse.Connect.{
  Config, Url, Options, connected, cancelled, failed, lz4, validate_config, bad_max_retries,
  bad_scheme, parse_dsn, next_backoff, connect_loop, connect_with_retry, new_with_config,
}
use lp_indexer.ClickHouse.Connect.Tries.{Tries, connect_with_retry-Tries}

abbrev config : Config
config = record {
  dsn = codes "clickhouse://me:pw@db:9000/dex";
  database = codes "dex";
  trades_table = codes "trades";
  candles_table = codes "candles";
  batch_size = pos 512;
  flush_interval = 1000000000;
  max_retries = pos 3;
  retry_backoff_base = 3000;
  retry_backoff_max = 5000;
}

abbrev url : Url
url = record {
  scheme = codes "clickhouse";
  host = codes "db:9000";
  user = some (codes "me", some (codes "pw"));
  path = codes "/dex";
  compression = codes "lz4";
}

abbrev parse : Bytes → Option Url
parse s = some url

abbrev third : Options → ℕ → Bool
third opts n = ltb 1 n

abbrev first_wait_only : Options → ℕ → Bool
first_wait_only opts n = ltb 0 n

program : Unit {0}
unfolding bytes_beq to_lower validate_config parse_dsn next_backoff connect_loop connect_with_retry
    new_with_config
program = tt

connects :
    (new_with_config third (λ opts n. ltb 9 n) parse config ≡ ok (connected 2, 3000 ∷ 5000 ∷ []))
    × (connect_with_retry third first_wait_only parse config ≡ (cancelled, 3000 ∷ []))
    × (connect_with_retry (λ opts n. ltb 9 n) (λ opts n. ltb 9 n) parse config
        ≡ (failed, 3000 ∷ 5000 ∷ 5000 ∷ []))
    × (parse_dsn (some (record url { scheme = codes "http" })) ≡ err (bad_scheme (codes "http")))
    × (validate_config (record config { max_retries = negsuc 0 }) ≡ some bad_max_retries)
unfolding program
connects = (refl, refl, refl, refl, refl)

abbrev options : Options
options = record {
  address = codes "db:9000";
  user = codes "me";
  password = codes "pw";
  database = codes "dex";
  compression = lz4;
}

parsed : parse_dsn (parse config.dsn) ≡ ok options
unfolding program
parsed = refl

connect_with_retry-Tries_example :
    Tries third first_wait_only
      (record options { database = config.database })
      3000
      5000
      3
      (connect_with_retry third first_wait_only parse config)
connect_with_retry-Tries_example =
    connect_with_retry-Tries third first_wait_only parse config options 3 parsed refl (omega arith)
      (omega arith)
