-- ===== src/Bridge/Settings/Durable.antt =====
-- The names of the consumers that the bridge asks of the source's server.
use lp_indexer.Prelude.{
  ℕ, zero, suc, ◌≤◌, ◌<◌, ◌≢◌, inl, inr, ◌||◌, [], ◌∷◌, ◌++◌, ◌==◌, nat_eq, if◌then◌else◌,
  Bool-cases, All, map, length, take, ltb, arith, length-append, length-take, All-append,
}
use lp_indexer.Prelude.Bytes.{Bytes, codes, All-trim}
use lp_indexer.Bridge.{or_all, cut_64, durable_name}

-- none of the characters that a server reads in a name
abbrev pub Plain : ℕ → Type 0
Plain c = (c ≢ b'.') × (c ≢ b'*') × (c ≢ b'>') × (c ≢ b' ') × (c ≢ b':')

pub record IsDurable (name : Bytes) : Type 0 where
  pub plain : All Plain name
  pub bounded : length name ≤ 71
  pub longer : 8 ≤ length name

abbrev replaced : ℕ → ℕ
replaced c = if c == b'.' || c == b'*' || c == b'>' || c == b' ' || c == b':' then b'_' else c

replaced-Plain : (c : ℕ) → Plain (replaced c)
replaced-Plain c = ground arith

All-map : (s : Bytes) → All Plain (map replaced s)
All-map [] = tt
All-map (c ∷ s) = (replaced-Plain c, All-map s)

All-take : (n : ℕ) (s : Bytes) → All Plain s → All Plain (take n s)
All-take zero s p = tt
All-take (suc n) [] p = tt
All-take (suc n) (c ∷ s) p = (p.0, All-take n s p.1)

-- the text is not empty, and its characters are plain
record IsText (s : Bytes) : Type 0 where
  plain : All Plain s
  some_text : 1 ≤ length s

or_all-IsText : (s : Bytes) → All Plain s → IsText (or_all s)
or_all-IsText [] p = record { plain = ground arith; some_text = ground arith }
or_all-IsText (c ∷ s) p = record { plain = p; some_text = omega arith }

cut-IsDurable : (s : Bytes) → IsText s → IsDurable (codes "bridge_" ++ cut_64 s)
cut-IsDurable s text = elim (Bool-cases (ltb 64 (length s))) [
  | inl long ↦ rw long (record {
    plain =
        All-append Plain (codes "bridge_") (take 64 s) (ground arith) (All-take 64 s text.plain);
    bounded = omega (arith, length-append (codes "bridge_") (take 64 s), length-take 64 s);
    longer =
        let more : 64 < length s = ground arith in
        omega (arith, more, length-append (codes "bridge_") (take 64 s), length-take 64 s);
  })
  | inr short ↦ rw short (record {
    plain = All-append Plain (codes "bridge_") s (ground arith) text.plain;
    bounded =
        let least : length s ≤ 64 = ground arith in
        omega (arith, least, length-append (codes "bridge_") s);
    longer = omega (arith, text.some_text, length-append (codes "bridge_") s);
  })
]

-- The name of a subject's consumer holds no dot, star, angle bracket, space or colon, is not empty behind
-- its prefix, and has at most 71 bytes.
pub durable_name-IsDurable : (subject : Bytes) → IsDurable (durable_name subject)
unfolding durable_name
durable_name-IsDurable subject =
    cut-IsDurable _
      (or_all-IsText _ (All-trim Plain (λ c. c == b'_') (map replaced subject) (All-map subject)))
