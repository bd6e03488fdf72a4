-- ===== src/Backfill/Environment/RoundTrip.antt =====
-- Each configuration of a backfill that is valid can be given by the environment.
use lp_indexer.Prelude.{ℕ, ◌<◌, ◌^◌, ◌≡◌, refl, ok, sym}
use lp_indexer.Prelude.Int.{pos}
use lp_indexer.Prelude.Decimal.{to_decimal}
use lp_indexer.Environment.{Env, atoi-to_decimal, parse_uint-to_decimal, if_set-to_decimal}
use lp_indexer.Backfill.{Config, validate}
use lp_indexer.Backfill.Environment.{
  start_name, end_name, size_name, concurrency_name, set_start, set_end, set_size, set_concurrency,
  from_env,
}

-- an environment in which the four variables hold the numbers of a configuration
pub record Sets (env : Env) (c : Config) (workers : ℕ) : Type 0 where
  pub start : env start_name ≡ to_decimal c.start_slot
  pub end : env end_name ≡ to_decimal c.end_slot
  pub size : env size_name ≡ to_decimal c.batch_size
  pub concurrency : env concurrency_name ≡ to_decimal workers

-- Where the four variables hold the decimal digits of a configuration's numbers, each of which fits its
-- type, and the configuration is valid, `FromEnv` returns exactly this configuration.
pub from_env-Sets :
    (env : Env) (c : Config) (workers : ℕ)
    → Sets env c workers
    → c.start_slot < 2 ^ 64
    → c.end_slot < 2 ^ 64
    → c.batch_size < 2 ^ 64
    → workers < 2 ^ 63
    → c.concurrency ≡ pos workers
    → validate c ≡ ok tt
    → from_env env ≡ ok c
unfolding from_env set_start set_end set_size set_concurrency
from_env-Sets env c workers sets start end size fits concurrency valid =
    rw
      (
        sets.start,
        sets.end,
        sets.size,
        sets.concurrency,
        if_set-to_decimal c.start_slot set_start,
        parse_uint-to_decimal c.start_slot start,
        if_set-to_decimal c.end_slot set_end,
        parse_uint-to_decimal c.end_slot end,
        if_set-to_decimal c.batch_size set_size,
        parse_uint-to_decimal c.batch_size size,
        if_set-to_decimal workers set_concurrency,
        atoi-to_decimal workers fits,
        sym concurrency,
        valid,
      )
      refl
