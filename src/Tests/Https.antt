-- ===== src/Tests/Https.antt =====
-- api/http: a request that is answered with the stub, and a second one.
use lp_indexer.Prelude.{
  ℕ, ◌≡◌, refl, true, false, Option, none, some, List, [], ◌∷◌, ok, nat_eq, if◌then◌else◌,
}
use lp_indexer.Prelude.Bytes.{Bytes, codes, bytes_beq, digits_from}
use lp_indexer.Prelude.Maps.{lookup, insert}
use lp_indexer.Parquet.Keys.{bytes_eq}
use lp_indexer.Environment.{if_set, digits, atoi}
use lp_indexer.Http.{
  Candle, Setup, Store, bad_request, invalid_timeframe, candles_response, internal_error,
  validate_timeframe, duration_for_timeframe, stub_candles, key, get_candles, set_candles,
  on_cached, cached, candles_handler,
}
use lp_indexer.Http.Serves.{cache, Serves, candles_handler-Serves}
use lp_indexer.Http.Settings.{disabled_config, load_config_from_env}

-- a JSON that knows the stub of one minute
abbrev stub : List (Candle ℕ)
stub = stub_candles (λ n. n) (codes "1m")

abbrev text : Bytes
text = codes "[stub]"

abbrev decode : Bytes → Option (Option (List (Candle ℕ)))
decode s = if bytes_beq s text then some (some stub) else none

abbrev setup : Setup ℕ
setup = record {
  encode = λ candles. some text;
  decode = decode;
  works = λ n. true;
  hundredths = λ n. n;
}

abbrev empty : Store
empty = record { entries = []; commands = 0 }

abbrev seeded : Store
seeded = record { entries = (codes "pool:p:candles:1m", text) ∷ []; commands = 2 }

program : Unit {0}
unfolding bytes_beq lookup insert validate_timeframe duration_for_timeframe stub_candles key
    get_candles set_candles on_cached cached candles_handler digits_from digits atoi if_set
    load_config_from_env
program = tt

valid : validate_timeframe (codes "1m") ≡ none
unfolding program
valid = refl

first :
    candles_handler setup (some cache) (codes "p") (codes "1m") empty
    ≡ (candles_response (codes "p") (codes "1m") stub, seeded)
unfolding program
first = refl

reads : decode text ≡ some (some stub)
unfolding program
reads = refl

others :
    ((candles_handler setup (some cache) (codes "p") (codes "2m") empty).0
      ≡ bad_request invalid_timeframe)
    × ((candles_handler
          (record setup { works = λ n. false })
          (some cache)
          (codes "p")
          (codes "1m")
          empty).0
        ≡ internal_error)
    × ((candles_handler setup none (codes "p") (codes "1m") empty).1 ≡ empty)
unfolding program
others = (refl, refl, refl)

candles_handler-Serves_example : Serves setup (λ n. refl) (codes "p") (codes "1m") stub empty seeded
candles_handler-Serves_example =
    candles_handler-Serves setup (λ n. refl) (codes "p") (codes "1m") stub text empty seeded valid
      refl reads first

disabled : load_config_from_env (λ s. none) (λ name. []) ≡ ok disabled_config
unfolding program
disabled = refl
