-- ===== src/Prelude/Maps.antt =====
-- A Go map as an association list. `insert` writes in place or at the end, so no key stands twice;
-- the order of the entries is never relied on, since Go's iteration order is arbitrary.
use Prim.Native.Nat.{ℕ, suc, ◌+◌}
use mathlib.Core.Bool.{Bool}
use mathlib.Core.List.{List, [], ◌∷◌}
use mathlib.Core.Option.{Option, none, some}
use mathlib.Core.Path.{◌≡◌, refl}
use native.Mathlib.Omega.{arith}
use lp_indexer.Prelude.Lists.{length}
use lp_indexer.Prelude.Tests.{Eq, ◌==◌, if◌then◌else◌}

module _ {ℓ} {K V : Type ℓ} where
  -- `for k := range m { if drop(k) { delete(m, k) } }`
  unfoldable pub remove_if : (K → Bool) → List (K × V) → List (K × V)
  remove_if drop [] = []
  remove_if drop ((j, v) ∷ m) =
      let rest = remove_if drop m in if drop j then rest else (j, v) ∷ rest

  -- the number of entries that the loop deletes
  unfoldable pub count_if : (K → Bool) → List (K × V) → ℕ
  count_if drop [] = 0
  count_if drop ((j, v) ∷ m) = if drop j then suc (count_if drop m) else count_if drop m

  pub length-remove_if :
      (drop : K → Bool) (m : List (K × V)) → length (remove_if drop m) + count_if drop m ≡ length m
  unfolding remove_if count_if
  length-remove_if drop [] = omega arith
  length-remove_if drop ((j, v) ∷ m) = ground (arith, length-remove_if drop m)

module _ {ℓ} {K V : Type ℓ} ⦃e : Eq K⦄ where
  unfoldable pub lookup : K → List (K × V) → Option V
  lookup key [] = none
  lookup key ((at, held) ∷ rest) = if at == key then some held else lookup key rest

  unfoldable pub insert : K → V → List (K × V) → List (K × V)
  insert key new [] = (key, new) ∷ []
  insert key new ((at, old) ∷ rest) =
      if at == key then (key, new) ∷ rest else (at, old) ∷ insert key new rest

  -- `delete(m, k)`
  unfoldable pub erase : K → List (K × V) → List (K × V)
  unfolding remove_if
  erase k m = remove_if (λ j. j == k) m

  pub lookup-insert :
      (key other : K) (new : V) (entries : List (K × V))
      → lookup other (insert key new entries)
        ≡ (if key == other then some new else lookup other entries)
  unfolding lookup insert
  lookup-insert key other new [] = refl
  lookup-insert key other new ((at, old) ∷ rest) = ground (
    arith,
    e.beq_iff key other,
    e.beq_iff at key,
    e.beq_iff at other,
    lookup-insert key other new rest,
  )

  pub lookup-remove_if :
      (drop : K → Bool) (k : K) (m : List (K × V))
      → lookup k (remove_if drop m) ≡ (if drop k then none else lookup k m)
  unfolding lookup remove_if
  lookup-remove_if drop k [] = ground arith
  lookup-remove_if drop k ((j, v) ∷ m) = ground (arith, e.beq_iff j k, lookup-remove_if drop k m)

  pub lookup-erase :
      (k j : K) (m : List (K × V)) → lookup j (erase k m) ≡ (if k == j then none else lookup j m)
  unfolding erase
  lookup-erase k j m =
      ground (arith, lookup-remove_if (λ (i : K). i == k) j m, e.beq_iff j k, e.beq_iff k j)

  -- No key stands twice.
  abbrev pub Distinct : List (K × V) → Type ℓ
  Distinct [] = Unit
  Distinct ((j, v) ∷ m) = (lookup j m ≡ none) × Distinct m

  pub insert-Distinct : (k : K) (v : V) (m : List (K × V)) → Distinct m → Distinct (insert k v m)
  unfolding lookup insert
  insert-Distinct k v [] d = (refl, tt)
  insert-Distinct k v ((j, w) ∷ m) d =
      ground (arith, e.beq_iff j k, e.beq_iff k j, lookup-insert k j v m, insert-Distinct k v m d.1)

  pub remove_if-Distinct :
      (drop : K → Bool) (m : List (K × V)) → Distinct m → Distinct (remove_if drop m)
  unfolding remove_if
  remove_if-Distinct drop [] d = tt
  remove_if-Distinct drop ((j, v) ∷ m) d =
      ground (arith, lookup-remove_if drop j m, remove_if-Distinct drop m d.1)

  pub length-insert :
      (k : K) (v : V) (m : List (K × V))
      → length (insert k v m) ≡ elim (lookup k m) [ none ↦ suc (length m) | some _ ↦ length m ]
  unfolding lookup insert
  length-insert k v [] = refl
  length-insert k v ((j, w) ∷ m) = ground (arith, length-insert k v m)
