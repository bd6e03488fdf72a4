-- ===== src/Amounts.antt =====
-- decoder/common/fixed_point.go, the token amounts: scaling by decimals and the price of a swap.
-- `float64` is a parameter: its values, and the operations that this code applies to them.
use lp_indexer.Prelude.{ℕ, Bool, ◌==◌, nat_eq, if◌then◌else◌}

pub record Floats : Type 1 where
  pub Float : Type 0
  -- `float64(n)` of a `uint64`, and `uint64(x)`
  pub of_ℕ : ℕ → Float
  pub to_ℕ : Float → ℕ
  -- `math.Pow(10, float64(n))`
  pub pow10 : ℕ → Float
  pub mul : Float → Float → Float
  pub div : Float → Float → Float
  -- `x == 0`
  pub is_zero : Float → Bool

module _ (fl : Floats) where
  open fl use {Float, of_ℕ, to_ℕ, pow10, mul, div}

  -- `ScaleAmount`
  unfoldable pub scale_amount : ℕ → ℕ → Float
  scale_amount amount decimals = div (of_ℕ amount) (pow10 decimals)

  -- `UnscaleAmount`
  unfoldable pub unscale_amount : Float → ℕ → ℕ
  unscale_amount amount decimals = to_ℕ (mul amount (pow10 decimals))

  -- `CalculatePriceFromAmounts`
  unfoldable pub calculate_price_from_amounts : ℕ → ℕ → ℕ → ℕ → Float
  calculate_price_from_amounts amount_a amount_b decimals_a decimals_b =
      if amount_a == 0
      then of_ℕ 0
      else div (scale_amount amount_b decimals_b) (scale_amount amount_a decimals_a)
