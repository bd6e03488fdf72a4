-- ===== src/Bridge/Mapping.antt =====
-- The mapper uses the longest source that a subject begins with, however the rules are given.
use mathlib.Core.Path.{subst, sym, ap, ◌∙◌}
use lp_indexer.Prelude.{
  ◌≤◌, ◌≡◌, refl, ◌⊎◌, inl, inr, ◌↔◌, nat_eq, Bool, true, false, Option, some, List, [], ◌∷◌, arith,
  length, Bool-cases,
}
use lp_indexer.Prelude.Bytes.{Bytes, has_prefix}
use lp_indexer.Bridge.{SubjectMapping, rule_less, apply_rule, map_subject, mapper_from_mappings}

abbrev pub Among : SubjectMapping → List SubjectMapping → Type 0
Among r [] = ⊥
Among r (x ∷ rules) = (x ≡ r) ⊎ Among r rules

-- no later rule is less than an earlier one
abbrev pub Ordered : List SubjectMapping → Type 0
Ordered [] = Unit
Ordered (x ∷ rules) = ((r : SubjectMapping) → Among r rules → rule_less r x ≡ false) × Ordered rules

-- What `sort.Slice` promises of some rules: the same rules, in order.
pub record Sorts (sort : List SubjectMapping → List SubjectMapping) (rules : List SubjectMapping)
    : Type 0 where
  pub same : (r : SubjectMapping) → Among r (sort rules) ↔ Among r rules
  pub ordered : Ordered (sort rules)

-- The choice of a mapper: no rule applies and the subject stays, or a longest one that applies is used.
abbrev pub Chooses : List SubjectMapping → Bytes → Option Bytes → Type 0
Chooses rules subject result =
    (((r : SubjectMapping) → Among r rules → has_prefix subject r.source ≡ false)
      × (result ≡ some subject))
    ⊎ ((r : SubjectMapping) × Among r rules
        × (has_prefix subject r.source ≡ true)
        × ((other : SubjectMapping)
            → Among other rules
            → has_prefix subject other.source ≡ true
            → length other.source ≤ length r.source)
        × (result ≡ apply_rule r subject))

not_less-le : (a b : SubjectMapping) → rule_less a b ≡ false → length a.source ≤ length b.source
unfolding rule_less
not_less-le a b h = ground arith

clash : {b : Bool} → b ≡ true → b ≡ false → ⊥
clash h k = ground arith

Chooses-same :
    (rules rules' : List SubjectMapping) (subject : Bytes) (x : Option Bytes)
    → ((r : SubjectMapping) → Among r rules ↔ Among r rules')
    → Chooses rules subject x
    → Chooses rules' subject x
Chooses-same rules rules' subject x same (inl (no_rule, e)) =
    inl (λ r h. no_rule r ((same r).1 h), e)
Chooses-same rules rules' subject x same (inr (r, among, begins, longest, e)) =
    inr (r, (same r).0 among, begins, λ other h p. longest other ((same other).1 h) p, e)

map_subject-Chooses :
    (rules : List SubjectMapping) (subject : Bytes)
    → Ordered rules
    → Chooses rules subject (map_subject rules subject)
unfolding map_subject
map_subject-Chooses [] subject ordered = inl (λ r h. elim h [ ], refl)
map_subject-Chooses (x ∷ rules) subject ordered = elim (Bool-cases (has_prefix subject x.source)) [
  | inl begins ↦ inr (
    x,
    inl refl,
    begins,
    λ other h p. elim h [
      | inl same ↦ subst (λ r. length r.source ≤ length x.source) same (omega arith)
      | inr later ↦ not_less-le other x (ordered.0 other later)
    ],
    rw begins refl,
  )
  | inr not_begins ↦ elim (map_subject-Chooses rules subject ordered.1) [
    | inl (no_rule, e) ↦ inl (
      λ r h. elim h [
        | inl same ↦ subst (λ y. has_prefix subject y.source ≡ false) same not_begins
        | inr later ↦ no_rule r later
      ],
      rw not_begins e,
    )
    | inr (r, among, begins, longest, e) ↦ inr (
      r,
      inr among,
      begins,
      λ other h p. elim h [
        | inl same ↦
            absurd (clash p (subst (λ y. has_prefix subject y.source ≡ false) same not_begins))
        | inr later ↦ longest other later p
      ],
      rw not_begins e,
    )
  ]
]

-- Whatever order the rules are given in, and however `sort.Slice` puts rules with one source, the
-- mapper uses a rule whose source is a longest one of those that the subject begins with, dropping the
-- message or putting the target in the source's place; a subject that begins with no source stays.
pub mapper_from_mappings-Chooses :
    (sort : List SubjectMapping → List SubjectMapping) (mappings : List SubjectMapping)
    (subject : Bytes)
    → Sorts sort mappings
    → Chooses mappings subject (mapper_from_mappings sort mappings subject)
unfolding mapper_from_mappings
mapper_from_mappings-Chooses sort [] subject sorts = inl (λ r h. elim h [ ], refl)
mapper_from_mappings-Chooses sort (m ∷ mappings) subject sorts =
    Chooses-same (sort (m ∷ mappings)) (m ∷ mappings) subject _ sorts.same
      (map_subject-Chooses (sort (m ∷ mappings)) subject sorts.ordered)

has_prefix_unique :
    (s a b : Bytes) → has_prefix s a ≡ true → has_prefix s b ≡ true → length a ≡ length b → a ≡ b
unfolding has_prefix
has_prefix_unique s [] [] ha hb e = refl
has_prefix_unique s [] (y ∷ b) ha hb e = absurd (omega arith)
has_prefix_unique s (x ∷ a) [] ha hb e = absurd (omega arith)
has_prefix_unique [] (x ∷ a) (y ∷ b) ha hb e = absurd (ground arith)
has_prefix_unique (c ∷ s) (x ∷ a) (y ∷ b) ha hb e = ground (arith, has_prefix_unique s a b)

-- No two rules have one source.
abbrev pub OneRule : List SubjectMapping → Type 0
OneRule rules = (a b : SubjectMapping) → Among a rules → Among b rules → a.source ≡ b.source → a ≡ b

-- Where no two rules have one source, the choice is determined.
choice_unique :
    (rules : List SubjectMapping) (subject : Bytes) (x y : Option Bytes)
    → OneRule rules
    → Chooses rules subject x
    → Chooses rules subject y
    → x ≡ y
choice_unique rules subject x y one (inl (no_rule, e)) (inl (no_rule', e')) = cc
choice_unique rules subject x y one (inl (no_rule, e)) (inr (r, among, begins, longest, e')) =
    absurd (clash begins (no_rule r among))
choice_unique rules subject x y one (inr (r, among, begins, longest, e)) (inl (no_rule, e')) =
    absurd (clash begins (no_rule r among))
choice_unique rules subject x y one (inr (r, among, begins, longest, e))
      (inr (q, among', begins', longest', e')) =
    let lengths : length r.source ≡ length q.source =
      omega (arith, longest q among' begins', longest' r among begins) in
    let same =
      one r q among among' (has_prefix_unique subject r.source q.source begins begins' lengths) in
    e ∙ ap (λ z. apply_rule z subject) same ∙ sym e'

-- Where no two rules have one source, the mapper does not depend on the order in which the rules are
-- given, nor on what `sort.Slice` does beyond its promise.
pub mapper_from_mappings_unique :
    (sort sort' : List SubjectMapping → List SubjectMapping)
    (mappings mappings' : List SubjectMapping) (subject : Bytes)
    → Sorts sort mappings
    → Sorts sort' mappings'
    → OneRule mappings
    → ((r : SubjectMapping) → Among r mappings ↔ Among r mappings')
    → mapper_from_mappings sort mappings subject ≡ mapper_from_mappings sort' mappings' subject
mapper_from_mappings_unique sort sort' mappings mappings' subject sorts sorts' one same =
    choice_unique mappings subject _ _ one
      (mapper_from_mappings-Chooses sort mappings subject sorts)
      (Chooses-same mappings' mappings subject _ (λ r. ((same r).1, (same r).0))
        (mapper_from_mappings-Chooses sort' mappings' subject sorts'))
