-- ===== src/Tests/Bridges.antt =====
-- bridge: two rules, the longer of which drops its subjects.
use mathlib.Core.Path.{subst}
use lp_indexer.Prelude.{◌≡◌, refl, true, false, none, some, List, [], ◌∷◌, inl, inr}
use lp_indexer.Prelude.Bytes.{codes, has_prefix, trim, Bytes}
use lp_indexer.Bridge.{
  SubjectMapping, text_lt, rule_less, apply_rule, map_subject, mapper_from_mappings, durable_name,
}
use lp_indexer.Prelude.{nat_eq, ◌==◌, if◌then◌else◌}
use lp_indexer.Prelude.Bytes.{bytes_beq, trim_space}
use lp_indexer.Prelude.{ok, err, Result, Option}
use lp_indexer.Prelude.Int.{pos}
use lp_indexer.Bridge.Settings.{
  no_target, file_empty, clean_all, load_subject_mappings, Config, no_target_url, validate,
  from_env, Setup, NewError, bad_config, bad_fetch_batch, with_subject_mapper, with_metrics_server,
  apply_all, new,
}
use lp_indexer.Bridge.Start.{Servers, subscribe_failed, no_subjects, subscribe_all, start}
use lp_indexer.Bridge.Settings.Loads.{Loads, clean_all-Loads}
use lp_indexer.Bridge.Settings.Durable.{IsDurable, durable_name-IsDurable}
use lp_indexer.Bridge.Service.{
  Msg, Net, Service, Round, timeout, batch, failed, accepted, publish_failed, ack_message,
  drop_message, confirm, on_published, forward_to, forward, forward_all, consume_loop,
}
use lp_indexer.Bridge.Delivery.{Progress}
use lp_indexer.Bridge.Delivery.Loop.{fetched, consume_loop-Progress}
use lp_indexer.Bridge.Mapping.{Sorts, Chooses, mapper_from_mappings-Chooses}

abbrev swaps : SubjectMapping
swaps = record { source = codes "dex.sol."; target = codes "legacy."; dropped = false }

abbrev blocks : SubjectMapping
blocks = record { source = codes "dex.sol.blocks."; target = []; dropped = true }

abbrev mappings : List SubjectMapping
mappings = swaps ∷ blocks ∷ []

-- the rules in the mapper's order
abbrev sort : List SubjectMapping → List SubjectMapping
sort rules = blocks ∷ swaps ∷ []

program : Unit {0}
unfolding has_prefix text_lt rule_less apply_rule map_subject mapper_from_mappings trim durable_name
program = tt

mapped :
    (mapper_from_mappings sort mappings (codes "dex.sol.orca.swap")
      ≡ some (codes "legacy.orca.swap"))
    × (mapper_from_mappings sort mappings (codes "dex.sol.blocks.head") ≡ none)
    × (mapper_from_mappings sort mappings (codes "other") ≡ some (codes "other"))
unfolding program
mapped = (refl, refl, refl)

durable : durable_name (codes "dex.sol.>") ≡ codes "bridge_dex_sol"
unfolding program
durable = refl

sort-Sorts : Sorts sort mappings
unfolding program
sort-Sorts = record {
  same = λ r. (
    λ h. elim h [ inl e ↦ inr (inl e) | inr k ↦ elim k [ inl e ↦ inl e | inr n ↦ absurd n ] ],
    λ h. elim h [ inl e ↦ inr (inl e) | inr k ↦ elim k [ inl e ↦ inl e | inr n ↦ absurd n ] ],
  );
  ordered = (
    λ r h. elim h [ inl e ↦ subst (λ x. rule_less x blocks ≡ false) e refl | inr n ↦ absurd n ],
    (λ r h. absurd h, tt),
  );
}

mapper_from_mappings-Chooses_example :
    Chooses mappings
      (codes "dex.sol.blocks.head")
      (mapper_from_mappings sort mappings (codes "dex.sol.blocks.head"))
mapper_from_mappings-Chooses_example =
    mapper_from_mappings-Chooses sort mappings (codes "dex.sol.blocks.head") sort-Sorts

abbrev message : Bytes → Msg
message subject = record { subject = subject; headers = []; payload = 1 ∷ [] }

-- a target that refuses its second publication
abbrev net : Net
net = record {
  mapper = mapper_from_mappings sort mappings;
  target_stream = codes "LEGACY";
  publish = λ n m. if n == 1 then failed false else accepted (some (codes "LEGACY"));
  ack = λ n m. true;
}

abbrev idle : Service
idle = record {
  log = [];
  acked = [];
  forwarded = [];
  dropped = [];
  publish_errors = [];
  published = 0;
  acks = 0;
}

abbrev rounds : List Round
rounds =
    timeout
    ∷ batch (message (codes "dex.sol.a") ∷ message (codes "dex.sol.blocks.head") ∷ [])
    ∷ batch (message (codes "dex.sol.b") ∷ [])
    ∷ []

forwarding : Unit {0}
unfolding program bytes_beq ack_message drop_message confirm on_published forward_to forward
    forward_all consume_loop
forwarding = tt

stops_at_b :
    ((consume_loop net rounds idle).0 ≡ some (publish_failed (codes "legacy.b")))
    × ((consume_loop net rounds idle).1.log ≡ message (codes "legacy.a") ∷ [])
unfolding forwarding
stops_at_b = (refl, refl)

consume_loop-Progress_example :
    Progress net (fetched net rounds) idle (consume_loop net rounds idle)
consume_loop-Progress_example = consume_loop-Progress net rounds idle

-- a rule with spaces around its source, and one without a target
abbrev spaced : SubjectMapping
spaced = record { source = codes " dex."; target = codes "old. "; dropped = false }

abbrev bare : SubjectMapping
bare = record { source = codes "x"; target = codes " "; dropped = false }

settings_program : Unit {0}
unfolding trim trim_space clean_all load_subject_mappings bytes_beq validate from_env
    with_subject_mapper with_metrics_server apply_all new mapper_from_mappings map_subject
    apply_rule has_prefix
settings_program = tt

loaded :
    (load_subject_mappings (λ s. some (spaced ∷ bare ∷ [])) (some (codes "y")) ≡ err (no_target 1))
    × (load_subject_mappings (λ s. some (spaced ∷ [])) (some (codes "y"))
        ≡ ok (record { source = codes "dex."; target = codes "old."; dropped = false } ∷ []))
    × (load_subject_mappings (λ s. none) (some (codes " ")) ≡ err file_empty)
unfolding settings_program
loaded = (refl, refl, refl)

clean_all-Loads_example : Loads 0 (spaced ∷ bare ∷ []) (clean_all 0 (spaced ∷ bare ∷ []))
clean_all-Loads_example = clean_all-Loads 0 (spaced ∷ bare ∷ [])

durable_name-IsDurable_example : IsDurable (durable_name (codes "dex.sol.>"))
durable_name-IsDurable_example = durable_name-IsDurable (codes "dex.sol.>")

-- two subjects whose consumers have one name
same_durable : durable_name (codes "dex.sol") ≡ durable_name (codes "dex.sol.*")
unfolding program
same_durable = refl

abbrev config : Config
config = record {
  source_url = codes "a";
  target_url = codes "b";
  source_stream = codes "DEX";
  target_stream = codes "OLD";
  subject_mappings = mappings;
  metrics_addr = [];
}

abbrev mapper_of : Result NewError Setup → Option (Bytes → Option Bytes)
mapper_of (ok s) = s.mapper
mapper_of (err e) = none

made :
    (mapper_of (new sort config []) ≡ some (mapper_from_mappings sort mappings))
    × (mapper_of (new sort config (none ∷ some (with_subject_mapper (some (λ s. none))) ∷ []))
        ≡ some (λ s. none))
    × (new sort (record config { target_url = [] }) [] ≡ err (bad_config no_target_url))
    × (new sort config (some (λ s. record s { fetch_batch = pos 0 }) ∷ []) ≡ err bad_fetch_batch)
unfolding settings_program
made = (refl, refl, refl, refl)

-- servers that answer all, but take one subject only
abbrev servers : Servers
servers = record {
  connects = λ url. true;
  has_jetstream = λ url. true;
  stream_info = λ stream. some (codes "dex.sol.>" ∷ codes "other" ∷ []);
  subscribes = λ subject durable. bytes_beq subject (codes "dex.sol.>");
}

started :
    (start servers config ≡ err (subscribe_failed (codes "other")))
    × (start (record servers { subscribes = λ subject durable. true }) config
        ≡ ok (
            (codes "dex.sol.>", codes "bridge_dex_sol")
            ∷ (codes "other", codes "bridge_other")
            ∷ []))
    × (start (record servers { stream_info = λ stream. some [] }) config
        ≡ err (no_subjects (codes "DEX")))
unfolding program bytes_beq start subscribe_all
started = (refl, refl, refl)
