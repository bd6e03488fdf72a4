-- ===== src/Parquet/Keys.antt =====
-- sinks/parquet/writer.go: bucketKey and splitBucketKey, on bytes.
use lp_indexer.Prelude.{
  ℕ, ◌≡◌, refl, ap, true, Option, none, some, [], ◌∷◌, ◌++◌, arith, Eq, nat_eq, ◌==◌, if◌then◌else◌,
}
use lp_indexer.Prelude.Bytes.{Bytes, codes, bytes_beq}

pub bytes_beq_sound : (s t : Bytes) → bytes_beq s t ≡ true → s ≡ t
unfolding bytes_beq
bytes_beq_sound [] [] h = refl
bytes_beq_sound [] (y ∷ t) h = absurd (ground (arith, h))
bytes_beq_sound (x ∷ s) [] h = absurd (ground (arith, h))
bytes_beq_sound (x ∷ s) (y ∷ t) h = ground (arith, h, nat_eq.beq_iff x y, bytes_beq_sound s t)

pub bytes_beq_self : (s : Bytes) → bytes_beq s s ≡ true
unfolding bytes_beq
bytes_beq_self [] = refl
bytes_beq_self (x ∷ s) = ground (arith, nat_eq.beq_iff x x, bytes_beq_self s)

instance abbrev pub bytes_eq : Eq Bytes
bytes_eq = record {
  beq = bytes_beq;
  beq_iff = λ s t. (bytes_beq_sound s t, λ e. rw e (bytes_beq_self t));
}

-- the byte of "|"
abbrev pub bar : ℕ
bar = 124

-- `bucketKey`
unfoldable pub bucket_key : Bytes → Bytes → Bytes
bucket_key timeframe scope = timeframe ++ bar ∷ scope

-- `strings.SplitN(key, "|", 2)`: what stands before and after the first bar, if there is one
unfoldable pub cut_at_bar : Bytes → Option (Bytes × Bytes)
cut_at_bar [] = none
cut_at_bar (c ∷ key) =
    let rest = cut_at_bar key in
    if c == bar then some ([], key) else elim rest [ none ↦ none | some (a, b) ↦ some (c ∷ a, b) ]

abbrev or_unknown : Bytes → Option (Bytes × Bytes) → Bytes × Bytes
or_unknown key none = (key, codes "unknown")
or_unknown key (some parts) = parts

-- `splitBucketKey`
unfoldable pub split_bucket_key : Bytes → Bytes × Bytes
split_bucket_key key = or_unknown key (cut_at_bar key)

cut_at_bar-bucket_key :
    (timeframe scope : Bytes)
    → cut_at_bar timeframe ≡ none
    → cut_at_bar (bucket_key timeframe scope) ≡ some (timeframe, scope)
unfolding cut_at_bar bucket_key
cut_at_bar-bucket_key [] scope h = refl
cut_at_bar-bucket_key (c ∷ timeframe) scope h =
    ground (arith, h, cut_at_bar-bucket_key timeframe scope)

-- Of the key of a bucket whose timeframe holds no bar, `splitBucketKey` gives back the timeframe and
-- the scope.
pub split-bucket_key :
    (timeframe scope : Bytes)
    → cut_at_bar timeframe ≡ none
    → split_bucket_key (bucket_key timeframe scope) ≡ (timeframe, scope)
unfolding split_bucket_key
split-bucket_key timeframe scope h = ap (or_unknown _) (cut_at_bar-bucket_key timeframe scope h)
