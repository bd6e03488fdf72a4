-- ===== src/Prelude/Words.antt =====
-- Machine words: `uint64` and the wider and narrower unsigned types as native numbers with their
-- wrap-around, `int64` differences as bit patterns, and little-endian byte fields.
use Prim.Native.Nat.{ℕ, zero, suc, ◌+◌, ◌-◌, ◌*◌, ◌/◌, ◌%◌, ◌^◌, ◌<◌}
use mathlib.Core.Bool.{Bool, ◌&&◌}
use mathlib.Core.List.{List, [], ◌∷◌}
use mathlib.Core.Path.{◌≡◌, refl, ap}
use native.Mathlib.Nat.{pow-suc}
use native.Mathlib.Omega.{arith}
use lp_indexer.Prelude.Lists.{length}
use lp_indexer.Prelude.Tests.{ltb, leb}

abbrev pub u64_mod : ℕ
u64_mod = 2 ^ 64

abbrev pub sub64 : ℕ → ℕ → ℕ
sub64 a b = (a + u64_mod - b) % u64_mod

abbrev pub mul64 : ℕ → ℕ → ℕ
mul64 a b = a * b % u64_mod

-- `int64(post) - int64(pre)` as a bit pattern, with the tests `> 0`, `< 0` and the negation.
abbrev pub delta64 : ℕ → ℕ → ℕ
delta64 post pre = sub64 post pre

abbrev pub is_positive : ℕ → Bool
is_positive d = ltb 0 d && ltb d (2 ^ 63)

abbrev pub is_negative : ℕ → Bool
is_negative d = leb (2 ^ 63) d

abbrev pub neg64 : ℕ → ℕ
neg64 d = sub64 0 d

-- The number in little-endian bytes, `binary.LittleEndian.Uint64` and its kin.
unfoldable pub le_word : List ℕ → ℕ
le_word [] = 0
le_word (b ∷ bs) = b + 256 * le_word bs

-- The `k` low bytes of a number, low byte first.
unfoldable pub le_bytes : ℕ → ℕ → List ℕ
le_bytes zero v = []
le_bytes (suc k) v = (v % 256) ∷ le_bytes k (v / 256)

abbrev pub IsByte : ℕ → Type 0
IsByte b = b < 256

pub length-le_bytes : (k v : ℕ) → length (le_bytes k v) ≡ k
unfolding le_bytes
length-le_bytes zero v = refl
length-le_bytes (suc k) v = ap suc (length-le_bytes k (v / 256))

pub le_word-le_bytes : (k v : ℕ) → v < 256 ^ k → le_word (le_bytes k v) ≡ v
unfolding le_word le_bytes
le_word-le_bytes zero v h = omega arith
le_word-le_bytes (suc k) v h =
    let smaller : v / 256 < 256 ^ k = omega (arith, pow-suc 256 k) in
    omega (arith, le_word-le_bytes k (v / 256) smaller)
