-- ===== src/Bridge.antt =====
-- bridge/mapping.go and bridge/service.go: the mapping of subjects by rules, and the forwarding of a
-- message. `sort` is `sort.Slice` with the order of `mapperFromMappings`, which is free to put rules
-- with one source in any order; texts are lists of ASCII bytes.
pub mod Mapping
pub mod Service
pub mod Settings
pub mod Start
pub mod Delivery
use lp_indexer.Prelude.{
  ℕ, Bool, true, false, Option, none, some, List, [], ◌∷◌, ◌++◌, map, ◌==◌, nat_eq, ltb, ◌||◌,
  length, drop, take, if◌then◌else◌,
}
use lp_indexer.Prelude.Bytes.{Bytes, codes, has_prefix, trim}

-- `SubjectMapping` and `compiledMapping`
pub record SubjectMapping : Type 0 where
  pub source : Bytes
  pub target : Bytes
  pub dropped : Bool

-- `a < b` on strings
unfoldable pub text_lt : Bytes → Bytes → Bool
text_lt a [] = false
text_lt [] (y ∷ b) = true
text_lt (x ∷ a) (y ∷ b) = if x == y then text_lt a b else ltb x y

-- the order of `sort.Slice` in `mapperFromMappings`
unfoldable pub rule_less : SubjectMapping → SubjectMapping → Bool
unfolding text_lt
rule_less a b =
    if length a.source == length b.source
    then text_lt a.source b.source
    else ltb (length b.source) (length a.source)

-- the target of a subject under a rule; `none` is its second result `false`
unfoldable pub apply_rule : SubjectMapping → Bytes → Option Bytes
apply_rule rule subject =
    if rule.dropped then none else some (rule.target ++ drop (length rule.source) subject)

-- the closure of `mapperFromMappings`, on the compiled rules
unfoldable pub map_subject : List SubjectMapping → Bytes → Option Bytes
unfolding apply_rule
map_subject [] subject = some subject
map_subject (rule ∷ rules) subject =
    if has_prefix subject rule.source then apply_rule rule subject else map_subject rules subject

-- `mapperFromMappings`, and `defaultSubjectMapper` where there are no rules
unfoldable pub mapper_from_mappings :
    (List SubjectMapping → List SubjectMapping) → List SubjectMapping → Bytes → Option Bytes
mapper_from_mappings sort [] subject = some subject
mapper_from_mappings sort (m ∷ mappings) subject = map_subject (sort (m ∷ mappings)) subject

-- the closure of `durableName`
abbrev is_reserved : ℕ → Bool
is_reserved c = c == b'.' || c == b'*' || c == b'>' || c == b' ' || c == b':'

abbrev pub or_all : Bytes → Bytes
or_all [] = codes "all"
or_all (c ∷ s) = c ∷ s

abbrev pub cut_64 : Bytes → Bytes
cut_64 s = if ltb 64 (length s) then take 64 s else s

-- `durableName`
unfoldable pub durable_name : Bytes → Bytes
unfolding trim
durable_name subject =
    let cleaned = map (λ c. if is_reserved c then b'_' else c) subject in
    codes "bridge_" ++ cut_64 (or_all (trim (λ c. c == b'_') cleaned))
