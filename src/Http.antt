-- ===== src/Http.antt =====
-- api/http: the handler of candles in main.go, the cache of cache/cache.go over a store of texts by keys,
-- and the timeframes of types/types.go. JSON is a parameter, and so is whether the store answers a command.
-- An entry's end of life is left out, so two requests are close in time. Floats are any type, of which the
-- stub's are given in hundredths. A nil slice is `none`. The health and pool handlers answer constants.
pub mod Serves
pub mod Settings
use lp_indexer.Prelude.{
  ℕ, zero, suc, ◌*◌, Bool, true, false, Option, none, some, List, [], ◌∷◌, ◌++◌, Result, ok, err,
  ◌||◌, if◌then◌else◌,
}
use lp_indexer.Prelude.Bytes.{Bytes, codes, bytes_beq}
use lp_indexer.Prelude.Maps.{lookup, insert}
use lp_indexer.Parquet.Keys.{bytes_eq}
use lp_indexer.Environment.{is_empty, second}

-- `Candle` of types.go
pub record Candle (Float : Type 0) : Type 0 where
  pub timestamp : ℕ
  pub open_price : Float
  pub high : Float
  pub low : Float
  pub close : Float
  pub volume : Float

pub data TimeframeError : Type 0 where
  missing_timeframe invalid_timeframe : TimeframeError

-- the keys of `supportedTimeframes`
abbrev pub is_supported : Bytes → Bool
is_supported tf =
    bytes_beq tf (codes "1m")
    || bytes_beq tf (codes "5m")
    || bytes_beq tf (codes "1h")
    || bytes_beq tf (codes "1d")

-- `ValidateTimeframe`
unfoldable pub validate_timeframe : Bytes → Option TimeframeError
unfolding bytes_beq
validate_timeframe tf =
    if is_empty tf
    then some missing_timeframe
    else if is_supported tf
    then none
    else some invalid_timeframe

-- `durationForTimeframe`, in nanoseconds
unfoldable pub duration_for_timeframe : Bytes → ℕ
unfolding bytes_beq
duration_for_timeframe tf =
    if bytes_beq tf (codes "1m")
    then 60 * second
    else if bytes_beq tf (codes "5m")
    then 300 * second
    else if bytes_beq tf (codes "1h")
    then 3600 * second
    else if bytes_beq tf (codes "1d")
    then 86400 * second
    else 60 * second

abbrev pub stub_candle : {Float : Type 0} → (ℕ → Float) → ℕ → ℕ → ℕ → ℕ → ℕ → ℕ → Candle Float
stub_candle hundredths at o h l c v = record {
  timestamp = at;
  open_price = hundredths o;
  high = hundredths h;
  low = hundredths l;
  close = hundredths c;
  volume = hundredths v;
}

-- `stubCandles`
unfoldable pub stub_candles : {Float : Type 0} → (ℕ → Float) → Bytes → List (Candle Float)
unfolding duration_for_timeframe
stub_candles hundredths tf =
    stub_candle hundredths 0 2510 2542 2498 2530 125000
    ∷ stub_candle hundredths (duration_for_timeframe tf) 2530 2560 2512 2550 148000
    ∷ []

-- the store, and the number of commands that it was sent
pub record Store : Type 0 where
  pub entries : List (Bytes × Bytes)
  pub commands : ℕ

-- `Cache`, whose client is nil unless it is enabled
pub record Cache : Type 0 where
  pub enabled : Bool

pub data CacheError : Type 0 where
  disabled not_found store_failed bad_payload bad_candles : CacheError

-- the answers of the handler: statuses 400, 500 and 200
pub data Response (Float : Type 0) : Type 0 where
  bad_request : TimeframeError → Response Float
  internal_error : Response Float
  candles_response : Bytes → Bytes → List (Candle Float) → Response Float

-- `key`
unfoldable pub key : Bytes → Bytes → Bytes
key pool_id timeframe = codes "pool:" ++ (pool_id ++ (codes ":candles:" ++ timeframe))

-- whether there is a client
abbrev pub has_client : Option Cache → Bool
has_client none = false
has_client (some c) = c.enabled

-- JSON, whether the n-th command succeeds, and the floats of the stub
pub record Setup (Float : Type 0) : Type 0 where
  pub encode : List (Candle Float) → Option Bytes
  pub decode : Bytes → Option (Option (List (Candle Float)))
  pub works : ℕ → Bool
  pub hundredths : ℕ → Float

module _ {Float : Type 0} (setup : Setup Float) where
  abbrev pub decoded :
      Option (Option (List (Candle Float))) → Result CacheError (Option (List (Candle Float)))
  decoded none = err bad_payload
  decoded (some candles) = ok candles

  abbrev pub on_payload : Option Bytes → Result CacheError (Option (List (Candle Float)))
  on_payload none = err not_found
  on_payload (some payload) = decoded (setup.decode payload)

  -- `GetCandles`
  unfoldable pub get_candles :
      Option Cache
      → Bytes
      → Bytes
      → Store
      → Result CacheError (Option (List (Candle Float))) × Store
  unfolding key lookup
  get_candles cache pool_id timeframe store =
      if has_client cache
      then (
        if setup.works store.commands
            then on_payload (lookup (key pool_id timeframe) store.entries)
            else err store_failed,
        record store { commands = suc store.commands },
      )
      else (err disabled, store)

  -- the `Set` command
  abbrev pub set_payload : Bytes → Option Bytes → Store → Option CacheError × Store
  set_payload k none store = (some bad_candles, store)
  set_payload k (some payload) store =
      if setup.works store.commands
      then (
        none,
        record store { entries = insert k payload store.entries; commands = suc store.commands },
      )
      else (some store_failed, record store { commands = suc store.commands })

  -- `SetCandles`
  unfoldable pub set_candles :
      Option Cache → Bytes → Bytes → List (Candle Float) → Store → Option CacheError × Store
  unfolding key insert
  set_candles cache pool_id timeframe candles store =
      if has_client cache
      then set_payload (key pool_id timeframe) (setup.encode candles) store
      else (some disabled, store)

  abbrev pub or_stub : Bytes → Option (List (Candle Float)) → List (Candle Float)
  or_stub timeframe none = stub_candles setup.hundredths timeframe
  or_stub timeframe (some candles) = candles

  -- the response with some candles, and then the goroutine that stores them
  abbrev pub respond :
      Option Cache → Bytes → Bytes → List (Candle Float) → Store → Response Float × Store
  respond cache pool_id timeframe candles store = (
    candles_response pool_id timeframe candles,
    (set_candles cache pool_id timeframe candles store).1,
  )

  -- what the handler does with the result of `GetCandles`
  unfoldable pub on_cached :
      Option Cache
      → Bytes
      → Bytes
      → Result CacheError (Option (List (Candle Float)))
      → Store
      → Response Float × Store
  unfolding stub_candles set_candles
  on_cached cache pool_id timeframe (ok candles) store =
      respond cache pool_id timeframe (or_stub timeframe candles) store
  on_cached cache pool_id timeframe (err disabled) store =
      respond cache pool_id timeframe (or_stub timeframe none) store
  on_cached cache pool_id timeframe (err not_found) store =
      respond cache pool_id timeframe (or_stub timeframe none) store
  on_cached cache pool_id timeframe (err e) store = (internal_error, store)

  unfoldable pub cached :
      Option Cache
      → Bytes
      → Bytes
      → Store
      → Result CacheError (Option (List (Candle Float))) × Store
  unfolding get_candles
  cached none pool_id timeframe store = (ok none, store)
  cached (some cache) pool_id timeframe store = get_candles (some cache) pool_id timeframe store

  abbrev pub on_timeframe :
      Option TimeframeError → Option Cache → Bytes → Bytes → Store → Response Float × Store
  unfolding on_cached cached
  on_timeframe (some e) cache pool_id timeframe store = (bad_request e, store)
  on_timeframe none cache pool_id timeframe store =
      let (result, store') = cached cache pool_id timeframe store in
      on_cached cache pool_id timeframe result store'

  -- `candlesHandler`
  unfoldable pub candles_handler : Option Cache → Bytes → Bytes → Store → Response Float × Store
  unfolding validate_timeframe on_cached cached
  candles_handler cache pool_id timeframe store =
      on_timeframe (validate_timeframe timeframe) cache pool_id timeframe store
