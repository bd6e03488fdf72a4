-- ===== src/Prelude/Bytes/Trim.antt =====
-- What `strings.Trim` and `strings.TrimSpace` leave of a text.
use mathlib.Core.Bool.{Bool, true, false}
use mathlib.Core.List.{[], ◌∷◌, ◌++◌, reverse, reverse-append, reverse-reverse}
use mathlib.Core.Logic.{inl, inr}
use mathlib.Core.Path.{◌≡◌, refl, sym, ap, subst, ◌∙◌}
use native.Mathlib.Omega.{arith}
use Prim.Native.Nat.{ℕ}
use lp_indexer.Prelude.Lists.{All, All-append}
use lp_indexer.Prelude.Tests.{Bool-cases}
use lp_indexer.Prelude.Bytes.{
  Bytes, is_space, trim_left, trim, trim_space, All-reverse_aux, All-trim,
}

-- a text that does not begin with one of the characters
abbrev pub StartsPlain : (ℕ → Bool) → Bytes → Type 0
StartsPlain cut [] = Unit
StartsPlain cut (c ∷ s) = cut c ≡ false

-- What is left when the characters at both ends of a text are cut.
pub record Trims (cut : ℕ → Bool) (s left : Bytes) : Type 0 where
  pub front : Bytes
  pub back : Bytes
  pub split : s ≡ front ++ (left ++ back)
  pub front_cut : All (λ c. cut c ≡ true) front
  pub back_cut : All (λ c. cut c ≡ true) back
  pub starts : StartsPlain cut left
  pub ends : StartsPlain cut (reverse left)

record TrimsLeft (cut : ℕ → Bool) (s : Bytes) : Type 0 where
  front : Bytes
  split : s ≡ front ++ trim_left cut s
  front_cut : All (λ c. cut c ≡ true) front
  starts : StartsPlain cut (trim_left cut s)

trim_left_lem : (cut : ℕ → Bool) (s : Bytes) → TrimsLeft cut s
unfolding trim_left
trim_left_lem cut [] = record { front = []; split = refl; front_cut = tt; starts = tt }
trim_left_lem cut (c ∷ s) = elim (Bool-cases (cut c)) [
  | inl gone ↦
      let rest = trim_left_lem cut s in
      record {
        front = c ∷ rest.front;
        split = rw (trim_left, gone) (ap (λ l. c ∷ l) rest.split);
        front_cut = (gone, rest.front_cut);
        starts = rw (StartsPlain, trim_left, gone) rest.starts;
      }
  | inr stays ↦ record {
    front = [];
    split = rw (trim_left, stays) refl;
    front_cut = tt;
    starts = rw (StartsPlain, trim_left, stays) stays;
  }
]

-- a first part of a text begins as the text does
StartsPlain-front : (cut : ℕ → Bool) (s t : Bytes) → StartsPlain cut (s ++ t) → StartsPlain cut s
StartsPlain-front cut [] t h = tt
StartsPlain-front cut (c ∷ s) t h = h

pub trim-Trims : (cut : ℕ → Bool) (s : Bytes) → Trims cut s (trim cut s)
unfolding trim
trim-Trims cut s =
    let left = trim_left_lem cut s in
    let right = trim_left_lem cut (reverse (trim_left cut s)) in
    let kept = trim_left cut (reverse (trim_left cut s)) in
    let split : trim_left cut s ≡ reverse kept ++ reverse right.front =
      sym (reverse-reverse (trim_left cut s))
      ∙ ap reverse right.split
      ∙ reverse-append right.front kept in
    record {
      front = left.front;
      back = reverse right.front;
      split = left.split ∙ ap (λ l. left.front ++ l) split;
      front_cut = left.front_cut;
      back_cut = All-reverse_aux (λ c. cut c ≡ true) right.front [] right.front_cut tt;
      starts =
          StartsPlain-front cut (reverse kept) (reverse right.front)
            (subst (StartsPlain cut) split left.starts);
      ends = subst (StartsPlain cut) (sym (reverse-reverse kept)) right.starts;
    }

pub trim_space-Trims : (s : Bytes) → Trims is_space s (trim_space s)
unfolding trim_space
trim_space-Trims s = trim-Trims is_space s

-- a text of spaces
abbrev pub Blank : Bytes → Type 0
Blank s = All (λ c. is_space c ≡ true) s

pub trim_space-Blank : (s : Bytes) → trim_space s ≡ [] → Blank s
trim_space-Blank s h =
    let t = trim_space-Trims s in
    subst Blank (sym (t.split ∙ ap (λ l. t.front ++ (l ++ t.back)) h))
      (All-append (λ c. is_space c ≡ true) t.front t.back t.front_cut t.back_cut)

-- a text of spaces that does not begin with a space is empty
Blank-nil : (s : Bytes) → Blank s → StartsPlain is_space s → s ≡ []
Blank-nil [] blank plain = refl
Blank-nil (c ∷ s) blank plain = absurd (ground (arith, blank.0, plain))

pub Blank-trim_space : (s : Bytes) → Blank s → trim_space s ≡ []
unfolding trim_space
Blank-trim_space s blank =
    Blank-nil (trim is_space s) (All-trim (λ c. is_space c ≡ true) is_space s blank)
      (trim-Trims is_space s).starts
