-- ===== src/Bridge/Settings/Loads.antt =====
-- Which rules the bridge loads from its file, and which rule it refuses.
use mathlib.Core.Path.{subst}
use lp_indexer.Prelude.{
  ℕ, suc, ◌+◌, ◌≡◌, ◌≢◌, refl, ◌⊎◌, inl, inr, true, false, not, ◌&&◌, List, [], ◌∷◌, ◌++◌, Result,
  ok, err, ◌>>=◌, Bool-cases, All, length, arith, ap,
}
use lp_indexer.Prelude.Bytes.{Bytes, is_space, trim_space}
use lp_indexer.Prelude.Bytes.Trim.{
  Trims, Blank, trim_space-Trims, trim_space-Blank, Blank-trim_space,
}
use lp_indexer.Environment.{is_empty}
use lp_indexer.Bridge.{SubjectMapping}
use lp_indexer.Bridge.Settings.{LoadError, no_source, no_target, cleaned, clean_all}

-- a rule has a source, and a target unless it drops its messages: a text of spaces is none
pub record IsRule (m : SubjectMapping) : Type 0 where
  pub source : ¬ Blank m.source
  pub target : (m.dropped ≡ true) ⊎ (¬ Blank m.target)

-- the fault of a rule, and the error that tells of it
pub data Fault (i : ℕ) (m : SubjectMapping) : LoadError → Type 0 where
  without_source : Blank m.source → Fault i m (no_source i)
  without_target : ¬ Blank m.source → m.dropped ≡ false → Blank m.target → Fault i m (no_target i)

-- a rule of the file and the rule that is loaded, whose texts are its texts with the spaces at their ends
-- cut
pub record Loaded (m rule : SubjectMapping) : Type 0 where
  pub source : Trims is_space m.source rule.source
  pub target : Trims is_space m.target rule.target
  pub dropped : rule.dropped ≡ m.dropped

pub data AllLoaded : List SubjectMapping → List SubjectMapping → Type 0 where
  no_more : AllLoaded [] []
  one_more :
      {m rule : SubjectMapping} {ms rules : List SubjectMapping}
      → Loaded m rule
      → AllLoaded ms rules
      → AllLoaded (m ∷ ms) (rule ∷ rules)

-- the result for some rules, of which the first has the given number
pub data Loads (i : ℕ) (ms : List SubjectMapping)
    : Result LoadError (List SubjectMapping) → Type 0 where
  loads : (rules : List SubjectMapping) → All IsRule ms → AllLoaded ms rules → Loads i ms (ok rules)
  refuses :
      (good : List SubjectMapping) (bad : SubjectMapping) (rest : List SubjectMapping)
      (e : LoadError)
      → ms ≡ good ++ bad ∷ rest
      → All IsRule good
      → Fault (i + length good) bad e
      → Loads i ms (err e)

is_empty-nil : (s : Bytes) → is_empty s ≡ true → s ≡ []
is_empty-nil [] h = refl
is_empty-nil (c ∷ s) h = absurd (ground arith)

is_empty-cons : (s : Bytes) → is_empty s ≡ false → s ≢ []
is_empty-cons [] h = absurd (ground arith)
is_empty-cons (c ∷ s) h = λ e. ground arith

-- whether a text has something but spaces, by what `strings.TrimSpace` leaves
is_empty-Blank : (s : Bytes) → is_empty (trim_space s) ≡ true → Blank s
is_empty-Blank s h = trim_space-Blank s (is_empty-nil (trim_space s) h)

is_empty-not_Blank : (s : Bytes) → is_empty (trim_space s) ≡ false → ¬ Blank s
is_empty-not_Blank s h = λ blank. is_empty-cons (trim_space s) h (Blank-trim_space s blank)

cleaned-Loaded : (m : SubjectMapping) → Loaded m (cleaned m)
cleaned-Loaded m = record {
  source = trim_space-Trims m.source;
  target = trim_space-Trims m.target;
  dropped = refl;
}

one_more-Loads :
    (i : ℕ) (m : SubjectMapping) (ms : List SubjectMapping)
    (r : Result LoadError (List SubjectMapping))
    → IsRule m
    → Loads (suc i) ms r
    → Loads i (m ∷ ms) (r >>= λ rules. ok (cleaned m ∷ rules))
one_more-Loads i m ms r rule (loads rules all loaded) =
    loads (cleaned m ∷ rules) (rule, all) (one_more (cleaned-Loaded m) loaded)
one_more-Loads i m ms r rule (refuses good bad rest e split all fault) =
    refuses (m ∷ good) bad rest e (ap (λ l. m ∷ l) split) (rule, all)
      (subst (λ n. Fault n bad e) (omega arith) fault)

targets :
    (m : SubjectMapping)
    → (not m.dropped && is_empty (trim_space m.target)) ≡ false
    → (m.dropped ≡ true) ⊎ (¬ Blank m.target)
targets m h = elim (Bool-cases m.dropped) [
  | inl dropped ↦ inl dropped
  | inr kept ↦ inr (is_empty-not_Blank m.target (rw kept at h))
]

no_targets :
    (m : SubjectMapping)
    → (not m.dropped && is_empty (trim_space m.target)) ≡ true
    → (m.dropped ≡ false) × Blank m.target
no_targets m h = elim (Bool-cases m.dropped) [
  | inl dropped ↦ absurd (ground arith)
  | inr kept ↦ (kept, is_empty-Blank m.target (rw kept at h))
]

-- The loop of `LoadSubjectMappings` returns all the rules of the file in order, each with the texts of the
-- file less exactly the spaces at both ends, where each has a source and, unless it drops its messages, a
-- target, that is not only spaces; otherwise it returns the error of the first rule that has not, with its
-- number.
pub clean_all-Loads : (i : ℕ) (ms : List SubjectMapping) → Loads i ms (clean_all i ms)
unfolding clean_all
clean_all-Loads i [] = loads [] tt no_more
clean_all-Loads i (m ∷ ms) = elim (Bool-cases (is_empty (trim_space m.source))) [
  | inl empty ↦ rw empty (
      refuses [] m ms (no_source i) refl tt (
        subst (λ n. Fault n m (no_source i)) (omega arith)
          (without_source (is_empty-Blank m.source empty))))
  | inr source ↦ elim (Bool-cases (not m.dropped && is_empty (trim_space m.target))) [
    | inl fails ↦
        let (kept, empty) = no_targets m fails in
        rw (source, fails)
          (refuses [] m ms (no_target i) refl tt (
            subst (λ n. Fault n m (no_target i)) (omega arith)
              (without_target (is_empty-not_Blank m.source source) kept empty)))
    | inr target ↦
        rw (source, target)
          (one_more-Loads i m ms (clean_all (suc i) ms)
            (record { source = is_empty-not_Blank m.source source; target = targets m target })
            (clean_all-Loads (suc i) ms))
  ]
]
