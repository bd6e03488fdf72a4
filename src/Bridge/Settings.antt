-- ===== src/Bridge/Settings.antt =====
-- bridge/config.go, the loader of bridge/mapping.go, and `New` and the start of `Run` of bridge/service.go.
-- Reading a file and parsing YAML are parameters, and so is what the two NATS servers answer. The
-- registries of metrics are left out.
pub mod Loads
pub mod Durable
use lp_indexer.Prelude.{
  ℕ, suc, ◌+◌, ◌%◌, Bool, true, false, Option, none, some, List, [], ◌∷◌, ◌++◌, Result, ok, err,
  ◌>>=◌, wrap_err, if◌then◌else◌, not, ◌&&◌, length, ◌*◌,
}
use lp_indexer.Prelude.Int.{ℤ, pos, ltb_ℤ}
use lp_indexer.Prelude.Bytes.{Bytes, codes, trim_space}
use lp_indexer.Environment.{Env, is_empty, not_positive, millisecond}
use lp_indexer.Bridge.{SubjectMapping, mapper_from_mappings, durable_name}

pub data LoadError : Type 0 where
  read_failed file_empty parse_failed no_mappings : LoadError
  no_source no_target : ℕ → LoadError

-- a rule of `LoadSubjectMappings`, with the spaces around its texts cut
abbrev pub cleaned : SubjectMapping → SubjectMapping
cleaned m = record {
  source = trim_space m.source;
  target = trim_space m.target;
  dropped = m.dropped;
}

-- the loop of `LoadSubjectMappings`, from the i-th rule on
unfoldable pub clean_all : ℕ → List SubjectMapping → Result LoadError (List SubjectMapping)
unfolding trim_space
clean_all i [] = ok []
clean_all i (m ∷ ms) =
    let rest = clean_all (suc i) ms >>= λ rules. ok (cleaned m ∷ rules) in
    if is_empty (trim_space m.source)
    then err (no_source i)
    else if not m.dropped && is_empty (trim_space m.target)
    then err (no_target i)
    else rest

abbrev pub on_payload : Option (List SubjectMapping) → Result LoadError (List SubjectMapping)
on_payload none = err parse_failed
on_payload (some []) = err no_mappings
on_payload (some (m ∷ ms)) = clean_all 0 (m ∷ ms)

-- `LoadSubjectMappings`, of what reading the file answers
unfoldable pub load_subject_mappings :
    (Bytes → Option (List SubjectMapping)) → Option Bytes → Result LoadError (List SubjectMapping)
unfolding trim_space
load_subject_mappings yaml none = err read_failed
load_subject_mappings yaml (some contents) =
    if is_empty (trim_space contents) then err file_empty else on_payload (yaml contents)

-- `Config`
pub record Config : Type 0 where
  pub source_url : Bytes
  pub target_url : Bytes
  pub source_stream : Bytes
  pub target_stream : Bytes
  pub subject_mappings : List SubjectMapping
  pub metrics_addr : Bytes

pub data ConfigError : Type 0 where
  no_source_url no_target_url no_source_stream no_target_stream : ConfigError

-- `Validate`
unfoldable pub validate : Config → Option ConfigError
validate c =
    if is_empty c.source_url
    then some no_source_url
    else if is_empty c.target_url
    then some no_target_url
    else if is_empty c.source_stream
    then some no_source_stream
    else if is_empty c.target_stream
    then some no_target_stream
    else none

pub data EnvError : Type 0 where
  load_failed : LoadError → EnvError
  refused : ConfigError → EnvError

abbrev pub checked : Config → Result EnvError Config
checked c = elim (validate c) [ some e ↦ err (refused e) | none ↦ ok c ]

-- `FromEnv`
unfoldable pub from_env :
    (Bytes → Option (List SubjectMapping)) → (Bytes → Option Bytes) → Env → Result EnvError Config
unfolding load_subject_mappings validate
from_env yaml read env =
    let c : Config = record {
      source_url = env (codes "BRIDGE_SOURCE_NATS_URL");
      target_url = env (codes "BRIDGE_TARGET_NATS_URL");
      source_stream = env (codes "BRIDGE_SOURCE_STREAM");
      target_stream = env (codes "BRIDGE_TARGET_STREAM");
      subject_mappings = [];
      metrics_addr = env (codes "BRIDGE_METRICS_ADDR");
    } in
    let path = env (codes "BRIDGE_SUBJECT_MAP_PATH") in
    if is_empty path
    then checked c
    else wrap_err load_failed (load_subject_mappings yaml (read path)) >>= λ rules.
        checked (record c { subject_mappings = rules })

-- `Service` before it runs; a nil mapper is `none`
pub record Setup : Type 0 where
  pub config : Config
  pub mapper : Option (Bytes → Option Bytes)
  pub custom_mapper : Bool
  pub fetch_batch : ℤ
  pub fetch_wait : ℕ
  pub publish_timeout : ℕ
  pub metrics_server : Bytes

pub data NewError : Type 0 where
  bad_config : ConfigError → NewError
  bad_fetch_batch : NewError

-- `defaultSubjectMapper`
abbrev pub default_subject_mapper : Bytes → Option Bytes
default_subject_mapper subject = some subject

-- `WithSubjectMapper` and `WithMetricsServer`
unfoldable pub with_subject_mapper : Option (Bytes → Option Bytes) → Setup → Setup
with_subject_mapper none s = s
with_subject_mapper (some mapper) s = record s { mapper = some mapper; custom_mapper = true }

unfoldable pub with_metrics_server : Bytes → Setup → Setup
with_metrics_server addr s = record s { metrics_server = addr }

-- the loop of `New` over its options, of which some may be nil
unfoldable pub apply_all : List (Option (Setup → Setup)) → Setup → Setup
apply_all [] s = s
apply_all (none ∷ options) s = apply_all options s
apply_all (some option ∷ options) s = apply_all options (option s)

abbrev pub initial_setup : Config → Setup
initial_setup c = record {
  config = c;
  mapper = some default_subject_mapper;
  custom_mapper = false;
  fetch_batch = pos 64;
  fetch_wait = 100 * millisecond;
  publish_timeout = 2000 * millisecond;
  metrics_server = c.metrics_addr;
}

module _ (sort : List SubjectMapping → List SubjectMapping) where
  abbrev pub with_rules : Bool → List SubjectMapping → Setup → Setup
  with_rules true rules s = s
  with_rules false [] s = s
  with_rules false (rule ∷ rules) s = record s {
    mapper = some (mapper_from_mappings sort (rule ∷ rules));
  }

  abbrev pub or_default : Option (Bytes → Option Bytes) → Setup → Setup
  or_default none s = record s { mapper = some default_subject_mapper }
  or_default (some mapper) s = s

  abbrev pub with_wait : Setup → Setup
  with_wait s = if not_positive s.fetch_wait then record s { fetch_wait = 100 * millisecond } else s

  abbrev pub finish : Setup → Result NewError Setup
  finish s = if ltb_ℤ s.fetch_batch (pos 1) then err bad_fetch_batch else ok (with_wait s)

  abbrev pub with_mapper : Setup → Setup
  with_mapper s = or_default s.mapper s

  abbrev pub configured : Setup → Result NewError Setup
  configured s = finish (with_mapper (with_rules s.custom_mapper s.config.subject_mappings s))

  -- `New`
  unfoldable pub new : Config → List (Option (Setup → Setup)) → Result NewError Setup
  unfolding validate apply_all
  new c options = elim (validate c) [
    | some e ↦ err (bad_config e)
    | none ↦ configured (apply_all options (initial_setup c))
  ]
