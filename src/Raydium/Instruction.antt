-- ===== src/Raydium/Instruction.antt =====
-- decoder/raydium/instruction.go: the swap instruction's bytes.
pub mod RoundTrip
use lp_indexer.Prelude.{
  ℕ, Bool, not, String, Option, some, none, List, [], ◌∷◌, ◌++◌, Result, ok, err, ltb, ◌==◌, nat_eq,
  length, slice, take, drop, if◌then◌else◌, get_elem?,
}
use lp_indexer.Prelude.Words.{le_word}

-- `ProgramID`
abbrev pub program_id : String
program_id = "CAMMCzo5YL8w4VFF8KVHrK22GGUsp5VTaW7grrKgrWqK"

-- `SwapInstruction`
pub record SwapInstruction : Type 0 where
  pub discriminator : List ℕ
  pub amount : ℕ
  pub other_amount_threshold : ℕ
  pub sqrt_price_limit_low : ℕ
  pub sqrt_price_limit_high : ℕ
  pub is_base_input : Bool

-- `fmt.Errorf("instruction data too short: got %d bytes, …", len(data))`
pub data InstructionError : Type 0 where
  data_too_short : ℕ → InstructionError

-- `data[i]`, below the length that the caller has checked
abbrev byte_at : List ℕ → ℕ → ℕ
byte_at bytes i = elim (get_elem? bytes i) [ some b ↦ b | none ↦ 0 ]

-- the reads of `ParseSwapInstruction`, behind its length check
unfoldable pub read_instruction : List ℕ → SwapInstruction
read_instruction bytes = record {
  discriminator = slice 0 8 bytes;
  amount = le_word (slice 8 16 bytes);
  other_amount_threshold = le_word (slice 16 24 bytes);
  sqrt_price_limit_low = le_word (slice 24 32 bytes);
  sqrt_price_limit_high = le_word (slice 32 40 bytes);
  is_base_input = not (byte_at bytes 40 == 0);
}

-- `ParseSwapInstruction`
unfoldable pub parse_swap_instruction : List ℕ → Result InstructionError SwapInstruction
parse_swap_instruction bytes =
    if ltb (length bytes) 41
    then err (data_too_short (length bytes))
    else ok (read_instruction bytes)

-- `(*SwapInstruction).SqrtPriceX64`
unfoldable pub sqrt_price_x64 : SwapInstruction → ℕ × ℕ
sqrt_price_x64 s = (s.sqrt_price_limit_low, s.sqrt_price_limit_high)
