-- ===== src/Tests/Environments.antt =====
-- The configurations: each from an environment that sets some variables.
use lp_indexer.Prelude.{◌≡◌, refl, true, Option, none, some, List, [], ◌∷◌, ok, err, arith, nat_eq}
use lp_indexer.Prelude.Int.{pos, negsuc}
use lp_indexer.Prelude.Bytes.{Bytes, codes, bytes_beq, digits_from, parse_uint}
use lp_indexer.Prelude.Decimal.{to_decimal, decimal_loop}
use lp_indexer.Prelude.Maps.{lookup}
use lp_indexer.Parquet.Keys.{bytes_eq}
use lp_indexer.Environment.{
  Env, invalid, refused, if_set, digits, atoi, int_at_least, duration, not_positive,
  value_or_default,
}
use lp_indexer.Backfill.{validate}
use lp_indexer.Backfill.Environment.{set_start, set_end, set_size, set_concurrency, from_env}
use lp_indexer.Backfill.Environment.RoundTrip.{from_env-Sets}
use lp_indexer.Publisher.Settings as Nats
use lp_indexer.Parquet.Settings as Parquet
use lp_indexer.ClickHouse.Connect
use lp_indexer.ClickHouse.Settings as ClickHouse
use lp_indexer.HeliusClient.Settings as Helius
use lp_indexer.GeyserService.Settings as Geyser

-- the environment that sets some variables
abbrev or_unset : Option Bytes → Bytes
or_unset none = []
or_unset (some v) = v

abbrev sets : List (Bytes × Bytes) → Env
sets vars name = or_unset (lookup name vars)

program : Unit {0}
unfolding bytes_beq digits_from parse_uint to_decimal decimal_loop lookup if_set digits atoi
    int_at_least duration value_or_default validate set_start set_end set_size set_concurrency
    from_env Nats.validate Nats.set_timeout Nats.from_env Parquet.validate Parquet.from_env
    Parquet.validate_service Parquet.service_config_from_env Connect.validate_config
    ClickHouse.validate ClickHouse.service_config_from_env Helius.validate Helius.from_env
    Geyser.validate Geyser.masked_key Geyser.load_config Geyser.load_program_filters
program = tt

atoi_test :
    (atoi (codes "-12") ≡ some (negsuc 11))
    × (atoi (codes "+7") ≡ some (pos 7))
    × (atoi (codes "-") ≡ none)
    × (atoi (codes "9223372036854775808") ≡ none)
unfolding program
atoi_test = (refl, refl, refl, refl)

backfill : Env
backfill = sets (
    (codes "BACKFILL_START_SLOT", codes "7")
    ∷ (codes "BACKFILL_END_SLOT", codes "90")
    ∷ (codes "BACKFILL_BATCH_SIZE", codes "20")
    ∷ (codes "BACKFILL_CONCURRENCY", codes "2")
    ∷ [])

from_env-Sets_example :
    from_env backfill
    ≡ ok (record { start_slot = 7; end_slot = 90; batch_size = 20; concurrency = pos 2 })
unfolding program backfill
from_env-Sets_example =
    from_env-Sets backfill
      (record { start_slot = 7; end_slot = 90; batch_size = 20; concurrency = pos 2 }) 2
      (record { start = refl; end = refl; size = refl; concurrency = refl }) (omega arith)
      (omega arith) (omega arith) (omega arith) refl refl

nats_test :
    (Nats.from_env (sets ((codes "NATS_URL", codes "n") ∷ (codes "NATS_STREAM", codes "s") ∷ []))
      ≡ ok (record Nats.default_config { url = codes "n"; stream = codes "s" }))
    × (Nats.from_env (sets ((codes "NATS_PUBLISH_TIMEOUT_MS", codes "x") ∷ []))
        ≡ err (invalid (codes "NATS_PUBLISH_TIMEOUT_MS")))
unfolding program
nats_test = (refl, refl)

abbrev s3 : List (Bytes × Bytes)
s3 =
    (codes "S3_ENDPOINT", codes "e")
    ∷ (codes "S3_BUCKET", codes "b")
    ∷ (codes "S3_ACCESS_KEY", codes "a")
    ∷ (codes "S3_SECRET_KEY", codes "k")
    ∷ []

parquet_test :
    (Parquet.from_env (sets ((codes "PARQUET_FLUSH_INTERVAL_S", codes "0") ∷ s3))
      ≡ err (refused Parquet.bad_flush_interval))
    × (Parquet.service_config_from_env (sets s3) ≡ err (refused Parquet.no_nats_url))
unfolding program
parquet_test = (refl, refl)

clickhouse_test :
    (ClickHouse.service_config_from_env (sets ((codes "CH_SINK_MAX_RETRIES", codes "-1") ∷ []))
      ≡ err (invalid (codes "CH_SINK_MAX_RETRIES")))
    × (ClickHouse.service_config_from_env (sets []) ≡ err (refused ClickHouse.no_nats_url))
unfolding program
clickhouse_test = (refl, refl)

-- a number of milliseconds that passes for positive, and a duration that is negative
wrapped :
    (int_at_least (pos 1) (codes "9223372036855") ≡ some (pos 9223372036855))
    × (duration 1000000 (pos 9223372036855) ≡ 9223372036855000000)
    × (not_positive (duration 1000000 (pos 9223372036855)) ≡ true)
unfolding program
wrapped = (refl, refl, refl)

helius_test :
    (Helius.from_env (sets ((codes "HELIUS_GRPC", codes "g") ∷ []))
      ≡ err (refused (Helius.missing_fields (Helius.ws_endpoint ∷ Helius.api_key ∷ []))))
unfolding program
helius_test = refl

geyser_test :
    (Geyser.masked_key (codes "0123456789") ≡ codes "0123****6789")
    × (Geyser.validate
          (λ l. l)
          (record {
            endpoint = codes "e";
            api_key = [];
            program_filters = (codes "raydium", []) ∷ [];
          })
        ≡ Geyser.no_api_key
          ∷ Geyser.empty_program (codes "raydium")
          ∷ Geyser.bad_length (codes "raydium") []
          ∷ [])
unfolding program
geyser_test = (refl, refl)
