-- ===== src/Raydium/Instruction/RoundTrip.antt =====
-- `ParseSwapInstruction` reads back what the on-chain layout writes.
use lp_indexer.Prelude.{
  ℕ, Bool, true, false, List, [], ◌∷◌, ◌++◌, ok, nat_eq, length, if◌then◌else◌, ◌≡◌, ◌<◌, arith, ap,
  ◌+◌, ◌≤◌, length-append, ◌∙◌,
}
use lp_indexer.Prelude.Words.{le_bytes, le_word-le_bytes, length-le_bytes, u64_mod}
use lp_indexer.Raydium.Instruction.{SwapInstruction, parse_swap_instruction, read_instruction}

-- The layout of the instruction: the discriminator, four little-endian words and the flag.
unfoldable pub encode : SwapInstruction → List ℕ
encode s =
    s.discriminator
    ++ (le_bytes 8 s.amount
        ++ (le_bytes 8 s.other_amount_threshold
            ++ (le_bytes 8 s.sqrt_price_limit_low
                ++ (le_bytes 8 s.sqrt_price_limit_high
                    ++ (if s.is_base_input then 1 else 0) ∷ []))))

pub record IsEncodable (s : SwapInstruction) : Type 0 where
  pub discriminator : length s.discriminator ≡ 8
  pub amount : s.amount < u64_mod
  pub threshold : s.other_amount_threshold < u64_mod
  pub low : s.sqrt_price_limit_low < u64_mod
  pub high : s.sqrt_price_limit_high < u64_mod

abbrev instruction : List ℕ → ℕ → ℕ → ℕ → ℕ → Bool → SwapInstruction
instruction d amount threshold low high base = record {
  discriminator = d;
  amount = amount;
  other_amount_threshold = threshold;
  sqrt_price_limit_low = low;
  sqrt_price_limit_high = high;
  is_base_input = base;
}

read_fields :
    (d : List ℕ) (amount threshold low high : ℕ) (base : Bool) (rest : List ℕ)
    → IsEncodable (instruction d amount threshold low high base)
    → read_instruction (encode (instruction d amount threshold low high base) ++ rest)
      ≡ instruction d amount threshold low high base
unfolding read_instruction encode le_bytes
read_fields (d0 ∷ d1 ∷ d2 ∷ d3 ∷ d4 ∷ d5 ∷ d6 ∷ d7 ∷ []) amount threshold low high true rest h =
    λ i.
      instruction (d0 ∷ d1 ∷ d2 ∷ d3 ∷ d4 ∷ d5 ∷ d6 ∷ d7 ∷ [])
        (le_word-le_bytes 8 amount h.amount i) (le_word-le_bytes 8 threshold h.threshold i)
        (le_word-le_bytes 8 low h.low i) (le_word-le_bytes 8 high h.high i) true
read_fields (d0 ∷ d1 ∷ d2 ∷ d3 ∷ d4 ∷ d5 ∷ d6 ∷ d7 ∷ []) amount threshold low high false rest h =
    λ i.
      instruction (d0 ∷ d1 ∷ d2 ∷ d3 ∷ d4 ∷ d5 ∷ d6 ∷ d7 ∷ [])
        (le_word-le_bytes 8 amount h.amount i) (le_word-le_bytes 8 threshold h.threshold i)
        (le_word-le_bytes 8 low h.low i) (le_word-le_bytes 8 high h.high i) false
read_fields d amount threshold low high base rest h = absurd (omega (arith, h.discriminator))

length-encode :
    (s : SwapInstruction) (rest : List ℕ)
    → length s.discriminator ≡ 8
    → length (encode s ++ rest) ≡ 41 + length rest
unfolding encode
length-encode s rest h = omega (arith, length-append {0}, length-le_bytes)

long-parse :
    (bytes : List ℕ)
    → 41 ≤ length bytes
    → parse_swap_instruction bytes ≡ ok (read_instruction bytes)
unfolding parse_swap_instruction
long-parse bytes h = ground arith

-- `ParseSwapInstruction` reads an encoded instruction back, whatever bytes follow it: the 8 bytes of
-- the discriminator, the four 64-bit words and the direction flag.
pub parse_swap_instruction-encode :
    (s : SwapInstruction) (rest : List ℕ)
    → IsEncodable s
    → parse_swap_instruction (encode s ++ rest) ≡ ok s
parse_swap_instruction-encode s rest h =
    long-parse (encode s ++ rest) (omega (arith, length-encode s rest h.discriminator))
    ∙ ap ok (
        read_fields s.discriminator s.amount s.other_amount_threshold s.sqrt_price_limit_low
          s.sqrt_price_limit_high s.is_base_input rest h)
