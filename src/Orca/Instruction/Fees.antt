-- ===== src/Orca/Instruction/Fees.antt =====
-- The fees of an Orca swap stay within the amount that comes in.
use native.Mathlib.Nat.{mul-le-mul_left}
use lp_indexer.Prelude.{ℕ, ◌*◌, ◌/◌, ◌%◌, ◌≤◌, arith}
use lp_indexer.Prelude.Words.{u64_mod}
use lp_indexer.Orca.Instruction.{calculate_fee_amount, calculate_protocol_fee}

part-le : (amount rate : ℕ) → rate ≤ 10000 → amount * rate % u64_mod / 10000 ≤ amount
part-le amount rate h = omega (arith, mul-le-mul_left {m = rate} {n = 10000} amount h)

-- For rates of at most 10000, the protocol's part is within the fee and the fee is within the amount,
-- also where a product overflows 64 bits.
pub calculate_protocol_fee-le :
    (amount fee_rate protocol_rate : ℕ)
    → fee_rate ≤ 10000
    → protocol_rate ≤ 10000
    → (calculate_protocol_fee (calculate_fee_amount amount fee_rate) protocol_rate
        ≤ calculate_fee_amount amount fee_rate)
      × (calculate_fee_amount amount fee_rate ≤ amount)
unfolding calculate_fee_amount calculate_protocol_fee
calculate_protocol_fee-le amount fee_rate protocol_rate h k =
    (part-le (calculate_fee_amount amount fee_rate) protocol_rate k, part-le amount fee_rate h)
