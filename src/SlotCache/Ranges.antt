-- ===== src/SlotCache/Ranges.antt =====
-- `GetRange`: the loop on `uint64` slots ends below the largest slot, and does not end at it.
use lp_indexer.Prelude.{
  ℕ, zero, suc, ◌+◌, ◌-◌, ◌%◌, ◌<◌, ◌≡◌, refl, ◌∙◌, Option, none, some, List, [], arith, leb, ◌&&◌,
  ◌==◌, if◌then◌else◌, tests, Bool-cases, inl, inr, Bool, nat_eq, Option-cases, le→leb,
}
use lp_indexer.Prelude.Words.{u64_mod}
use lp_indexer.Prelude.Maps.{lookup, lookup-insert}
use lp_indexer.SlotCache.{SlotCache, add_found, range_loop, get_range}

abbrev pub in_range : ℕ → ℕ → ℕ → Bool
in_range lo hi k = leb lo k && leb k hi

module _ {T : Type 0} where
  lookup-add_found :
      (slot k : ℕ) (slots result : List (ℕ × T))
      → lookup k (add_found slot slots result) ≡ (
          if slot == k
          then (elim (lookup k slots) [ none ↦ lookup k result | some ts ↦ some ts ])
          else lookup k result)
  unfolding add_found
  lookup-add_found slot k slots result = elim (Option-cases (lookup slot slots)) [
    | inl e ↦ rw (e, add_found) (ground arith)
    | inr (ts, e) ↦ rw (e, add_found) (ground (arith, lookup-insert slot k ts result))
  ]

  -- What the result holds for the slot `k` once the loop has gone on from `slot`.
  abbrev merged : ℕ → ℕ → ℕ → List (ℕ × T) → List (ℕ × T) → Option T
  merged slot end_slot k slots result =
      if in_range slot end_slot k
      then (elim (lookup k slots) [ none ↦ lookup k result | some ts ↦ some ts ])
      else lookup k result

  range_loop-merged :
      (fuel slot end_slot : ℕ) (slots result : List (ℕ × T))
      → suc end_slot < u64_mod
      → suc end_slot - slot < fuel
      → (r : List (ℕ × T)) × (range_loop fuel slot end_slot slots result ≡ some r)
        × ((k : ℕ) → lookup k r ≡ merged slot end_slot k slots result)
  unfolding range_loop
  range_loop-merged zero slot end_slot slots result below enough = absurd (omega arith)
  range_loop-merged (suc fuel) slot end_slot slots result below enough =
      elim (Bool-cases (leb slot end_slot)) [
        | inl more ↦
            let (r, e, h) =
              range_loop-merged fuel (slot + 1) end_slot slots (add_found slot slots result) below
                (omega tests) in
            let wrap : (slot + 1) % u64_mod ≡ slot + 1 = omega tests in
            (r, rw (more, wrap) e, λ k. h k ∙ ground (arith, lookup-add_found slot k slots result))
        | inr done ↦ (result, rw done, λ k. ground arith)
      ]

  range_loop-none :
      (fuel slot : ℕ) (slots result : List (ℕ × T))
      → slot < u64_mod
      → range_loop fuel slot (u64_mod - 1) slots result ≡ none
  unfolding range_loop
  range_loop-none zero slot slots result h = refl
  range_loop-none (suc fuel) slot slots result h = rw (le→leb slot (u64_mod - 1) (omega arith)) (
      range_loop-none fuel ((slot + 1) % u64_mod) slots (add_found slot slots result) (omega arith))

  -- For an end below the largest `uint64`, `GetRange` returns, after at most one round for each slot
  -- of the range and the last test, a map that holds exactly the cached slots from the start to the
  -- end, each with its cached timestamp.
  pub get_range_lem :
      (start_slot end_slot : ℕ) (c : SlotCache T)
      → suc end_slot < u64_mod
      → (r : List (ℕ × T)) × (get_range (suc (suc end_slot - start_slot)) start_slot end_slot c
          ≡ some r)
        × ((k : ℕ)
            → lookup k r ≡ (if in_range start_slot end_slot k then lookup k c.slots else none))
  unfolding get_range
  get_range_lem start_slot end_slot c below =
      let (r, e, h) =
        range_loop-merged (suc (suc end_slot - start_slot)) start_slot end_slot c.slots [] below
          (omega arith) in
      (r, e, λ k. h k ∙ (unfold lookup in ground arith))

  -- With the largest `uint64` as its end, the loop of `GetRange` never ends: `slot++` wraps to 0, and
  -- no fuel is enough, whatever the cache holds.
  pub get_range-diverges :
      (fuel start_slot : ℕ) (c : SlotCache T)
      → start_slot < u64_mod
      → get_range fuel start_slot (u64_mod - 1) c ≡ none
  unfolding get_range
  get_range-diverges fuel start_slot c h = range_loop-none fuel start_slot c.slots [] h
