-- ===== src/Orca/Instruction.antt =====
-- decoder/orca_whirlpool: the swap instruction, and the amounts and fees of a swap.
pub mod Texts
pub mod RoundTrip
pub mod Fees
use lp_indexer.Prelude.{
  ℕ, zero, suc, ◌+◌, ◌*◌, ◌/◌, ◌%◌, ◌-◌, Bool, true, false, Option, none, some, List, [], ◌∷◌, ◌++◌,
  Result, ok, err, ltb, ◌==◌, nat_eq, not, ◌||◌, length, slice, get_elem?, if◌then◌else◌,
}
use lp_indexer.Prelude.Bytes.{Bytes}
use lp_indexer.Prelude.Words.{le_word, sub64, mul64}
use lp_indexer.Prelude.Decimal.{to_decimal}

-- `SwapInstructionDiscriminator`, as the number of its little-endian bytes
abbrev pub swap_instruction_discriminator : ℕ
swap_instruction_discriminator = 17926189716184860616

-- `SwapInstruction`
pub record SwapInstruction : Type 0 where
  pub amount : ℕ
  pub other_amount_threshold : ℕ
  pub sqrt_price_limit : Bytes
  pub amount_specified_is_input : Bool
  pub a_to_b : Bool

pub data InstructionError : Type 0 where
  data_too_short : ℕ → InstructionError

-- the padding of `%016d`
unfoldable pub zeros : ℕ → Bytes
zeros zero = []
zeros (suc n) = b'0' ∷ zeros n

unfoldable pub pad_16 : Bytes → Bytes
unfolding zeros
pad_16 s = zeros (16 - length s) ++ s

-- `bytesToU128String`, on the two halves that it reads
unfoldable pub u128_text : ℕ → ℕ → Bytes
u128_text low high =
    if high == 0 then to_decimal low else to_decimal high ++ pad_16 (to_decimal low)

-- `bytesToU128String`, of 16 bytes
unfoldable pub bytes_to_u128_string : Bytes → Bytes
bytes_to_u128_string bytes = u128_text (le_word (slice 0 8 bytes)) (le_word (slice 8 16 bytes))

-- `data[i]`, behind a check of the length
abbrev pub at : List ℕ → ℕ → ℕ
at values i = elim (get_elem? values i) [ some v ↦ v | none ↦ 0 ]

-- the reads of `decodeSwapInstruction`
unfoldable pub read_instruction : Bytes → SwapInstruction
read_instruction bytes = record {
  amount = le_word (slice 0 8 bytes);
  other_amount_threshold = le_word (slice 8 16 bytes);
  sqrt_price_limit = bytes_to_u128_string (slice 16 32 bytes);
  amount_specified_is_input = not (at bytes 32 == 0);
  a_to_b = not (at bytes 33 == 0);
}

-- `decodeSwapInstruction`, of the bytes after the discriminator; no read fails on 34 bytes
unfoldable pub decode_swap_instruction : Bytes → Result InstructionError SwapInstruction
decode_swap_instruction bytes =
    if ltb (length bytes) 34
    then err (data_too_short (length bytes))
    else ok (read_instruction bytes)

-- `calculateAmounts`: the amounts in and out, or none where there is too little balance data
unfoldable pub calculate_amounts : SwapInstruction → List ℕ → List ℕ → Option (ℕ × ℕ)
calculate_amounts instruction pre post =
    if ltb (length pre) 7 || ltb (length post) 7
    then none
    else if instruction.a_to_b
    then some (sub64 (at pre 3) (at post 3), sub64 (at post 5) (at pre 5))
    else some (sub64 (at pre 5) (at post 5), sub64 (at post 3) (at pre 3))

-- `calculateFeeAmount` and `calculateProtocolFee`
unfoldable pub calculate_fee_amount : ℕ → ℕ → ℕ
calculate_fee_amount amount_in fee_rate = mul64 amount_in fee_rate / 10000

unfoldable pub calculate_protocol_fee : ℕ → ℕ → ℕ
calculate_protocol_fee fee_amount protocol_fee_rate = mul64 fee_amount protocol_fee_rate / 10000
