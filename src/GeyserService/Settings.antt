-- ===== src/GeyserService/Settings.antt =====
-- ingestor/geyser/config.go: the configuration of the geyser client. Reading a file and parsing YAML are
-- parameters, as is the order in which Go visits the map of filters.
use lp_indexer.Prelude.{
  ◌-◌, ◌==◌, nat_eq, ◌||◌, Option, none, some, List, [], ◌∷◌, ◌++◌, Result, ok, err, if◌then◌else◌,
  ltb, length, take, drop,
}
use lp_indexer.Prelude.Bytes.{Bytes, codes}
use lp_indexer.Environment.{Env, is_empty}

-- `Config`, with the filters from names to programs
pub record Config : Type 0 where
  pub endpoint : Bytes
  pub api_key : Bytes
  pub program_filters : List (Bytes × Bytes)

pub data Fault : Type 0 where
  no_endpoint no_api_key no_filters : Fault
  empty_program : Bytes → Fault
  bad_length : Bytes → Bytes → Fault

pub data LoadError : Type 0 where
  read_failed parse_failed : LoadError

-- `loadProgramFilters`
abbrev pub parsed_filters : Option (List (Bytes × Bytes)) → Result LoadError (List (Bytes × Bytes))
parsed_filters none = err parse_failed
parsed_filters (some filters) = ok filters

unfoldable pub load_program_filters :
    (Bytes → Option (List (Bytes × Bytes))) → Option Bytes → Result LoadError (List (Bytes × Bytes))
load_program_filters yaml none = err read_failed
load_program_filters yaml (some contents) = parsed_filters (yaml contents)

abbrev pub with_filters : Config → Result LoadError (List (Bytes × Bytes)) → Result LoadError Config
with_filters c (err e) = err e
with_filters c (ok filters) = ok (record c { program_filters = filters })

-- `LoadConfig`
unfoldable pub load_config :
    (Bytes → Option (List (Bytes × Bytes)))
    → (Bytes → Option Bytes)
    → Env
    → Bytes
    → Result LoadError Config
load_config yaml read env path =
    let c : Config = record {
      endpoint = env (codes "GEYSER_ENDPOINT");
      api_key = env (codes "GEYSER_API_KEY");
      program_filters = [];
    } in
    if is_empty path then ok c else with_filters c (load_program_filters yaml (read path))

abbrev pub filter_faults : Bytes → Bytes → List Fault
filter_faults name program =
    (if is_empty program then empty_program name ∷ [] else [])
    ++ (if ltb (length program) 32 || ltb 44 (length program)
        then bad_length name program ∷ []
        else [])

abbrev pub all_filter_faults : List (Bytes × Bytes) → List Fault
all_filter_faults [] = []
all_filter_faults ((name, program) ∷ filters) =
    filter_faults name program ++ all_filter_faults filters

-- `Validate`, which tells of all the faults that it finds; no fault is nil
unfoldable pub validate : (List (Bytes × Bytes) → List (Bytes × Bytes)) → Config → List Fault
validate visit c =
    (if is_empty c.endpoint then no_endpoint ∷ [] else [])
    ++ ((if is_empty c.api_key then no_api_key ∷ [] else [])
        ++ ((if length c.program_filters == 0 then no_filters ∷ [] else [])
            ++ all_filter_faults (visit c.program_filters)))

-- the key that `String` shows
unfoldable pub masked_key : Bytes → Bytes
masked_key key =
    if ltb 8 (length key)
    then take 4 key ++ (codes "****" ++ drop (length key - 4) key)
    else if is_empty key
    then []
    else codes "****"
