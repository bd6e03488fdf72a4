-- ===== src/Orca/Instruction/RoundTrip.antt =====
-- `decodeSwapInstruction` reads back what the on-chain layout writes.
use lp_indexer.Prelude.{
  ℕ, Bool, true, false, List, [], ◌∷◌, ◌++◌, ok, nat_eq, length, if◌then◌else◌, ◌≡◌, ◌<◌, ◌≤◌,
  arith, ap, ◌+◌, length-append, ◌∙◌,
}
use lp_indexer.Prelude.Words.{le_bytes, le_word-le_bytes, length-le_bytes, u64_mod}
use lp_indexer.Orca.Instruction.{
  SwapInstruction, decode_swap_instruction, read_instruction, u128_text, bytes_to_u128_string,
}

abbrev flag : Bool → ℕ
flag b = if b then 1 else 0

-- The layout after the discriminator: two words, the two halves of the price limit and two flags.
unfoldable pub layout : ℕ → ℕ → ℕ → ℕ → Bool → Bool → List ℕ
layout amount threshold low high is_input a_to_b =
    le_bytes 8 amount
    ++ (le_bytes 8 threshold
        ++ (le_bytes 8 low ++ (le_bytes 8 high ++ flag is_input ∷ flag a_to_b ∷ [])))

abbrev pub instruction : ℕ → ℕ → ℕ → ℕ → Bool → Bool → SwapInstruction
instruction amount threshold low high is_input a_to_b = record {
  amount = amount;
  other_amount_threshold = threshold;
  sqrt_price_limit = u128_text low high;
  amount_specified_is_input = is_input;
  a_to_b = a_to_b;
}

module _ (amount threshold low high : ℕ) (rest : List ℕ) (amount_64 : amount < u64_mod)
    (threshold_64 : threshold < u64_mod) (low_64 : low < u64_mod) (high_64 : high < u64_mod) where
  read_fields :
      (is_input a_to_b : Bool)
      → read_instruction (layout amount threshold low high is_input a_to_b ++ rest)
        ≡ instruction amount threshold low high is_input a_to_b
  unfolding read_instruction bytes_to_u128_string layout le_bytes
  read_fields true true = λ i.
      instruction (le_word-le_bytes 8 amount amount_64 i)
        (le_word-le_bytes 8 threshold threshold_64 i) (le_word-le_bytes 8 low low_64 i)
        (le_word-le_bytes 8 high high_64 i) true true
  read_fields true false = λ i.
      instruction (le_word-le_bytes 8 amount amount_64 i)
        (le_word-le_bytes 8 threshold threshold_64 i) (le_word-le_bytes 8 low low_64 i)
        (le_word-le_bytes 8 high high_64 i) true false
  read_fields false true = λ i.
      instruction (le_word-le_bytes 8 amount amount_64 i)
        (le_word-le_bytes 8 threshold threshold_64 i) (le_word-le_bytes 8 low low_64 i)
        (le_word-le_bytes 8 high high_64 i) false true
  read_fields false false = λ i.
      instruction (le_word-le_bytes 8 amount amount_64 i)
        (le_word-le_bytes 8 threshold threshold_64 i) (le_word-le_bytes 8 low low_64 i)
        (le_word-le_bytes 8 high high_64 i) false false

  length-layout :
      (is_input a_to_b : Bool)
      → length (layout amount threshold low high is_input a_to_b ++ rest) ≡ 34 + length rest
  unfolding layout
  length-layout is_input a_to_b = omega (arith, length-append {0}, length-le_bytes)

  long-decode :
      (bytes : List ℕ)
      → 34 ≤ length bytes
      → decode_swap_instruction bytes ≡ ok (read_instruction bytes)
  unfolding decode_swap_instruction
  long-decode bytes h = ground arith

  -- For 64-bit words, `decodeSwapInstruction` reads back the amount, the threshold, the text of the two
  -- halves of the price limit and the two flags of an instruction's layout, whatever bytes follow.
  pub decode_swap_instruction-layout :
      (is_input a_to_b : Bool)
      → decode_swap_instruction (layout amount threshold low high is_input a_to_b ++ rest)
        ≡ ok (instruction amount threshold low high is_input a_to_b)
  decode_swap_instruction-layout is_input a_to_b =
      long-decode (layout amount threshold low high is_input a_to_b ++ rest)
        (omega (arith, length-layout is_input a_to_b))
      ∙ ap ok (read_fields is_input a_to_b)
