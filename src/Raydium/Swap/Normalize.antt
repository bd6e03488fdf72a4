-- ===== src/Raydium/Swap/Normalize.antt =====
-- Normalising an event to the canonical pair.
use lp_indexer.Prelude.{◌≡◌, false, ok, arith, if◌then◌else◌}
use lp_indexer.Amounts.{Floats, scale_amount}
use lp_indexer.Prelude.Text.{str_le_flip, compare_flip}
use lp_indexer.Canonical.Pair.{Registry, CanonicalPair, resolve_pair}
use lp_indexer.Raydium.Swap.{SwapEvent, normalize_to_canonical_pair, calculate_price}

-- the event that `NormalizeToCanonicalPair` leaves
abbrev pub normalized : Registry → SwapEvent → SwapEvent
normalized reg e = (normalize_to_canonical_pair reg e).1

module _ (fl : Floats) where
  open fl use {Float}

  -- The tokens that enter the price of an event: of the mint `A` and of the mint `B`, scaled.
  abbrev pub side_a : SwapEvent → Float
  side_a x = scale_amount fl (if x.is_base_input then x.amount_in else x.amount_out) x.decimals_a

  abbrev pub side_b : SwapEvent → Float
  side_b x = scale_amount fl (if x.is_base_input then x.amount_out else x.amount_in) x.decimals_b

module _ (reg : Registry) (e : SwapEvent) {pair : CanonicalPair} where
  -- Where `NormalizeToCanonicalPair` returns a pair, the event's mints become the pair's base and
  -- quote, and its amounts, pool, fee and transaction stay.
  pub normalize-mints :
      (normalize_to_canonical_pair reg e).0 ≡ ok pair
      → ((normalized reg e).mint_a ≡ pair.base_mint)
        × ((normalized reg e).mint_b ≡ pair.quote_mint)
        × ((normalized reg e).amount_in ≡ e.amount_in)
        × ((normalized reg e).amount_out ≡ e.amount_out)
        × ((normalized reg e).pool_address ≡ e.pool_address)
        × ((normalized reg e).signature ≡ e.signature)
  unfolding normalize_to_canonical_pair resolve_pair
  normalize-mints h = ground arith

  -- Normalising twice is normalising once: the second call returns the same legs, not inverted, and
  -- leaves the event alone.
  pub normalize_idem :
      (normalize_to_canonical_pair reg e).0 ≡ ok pair
      → normalize_to_canonical_pair reg (normalized reg e)
        ≡ (ok (record pair { inverted = false }), normalized reg e)
  unfolding normalize_to_canonical_pair resolve_pair
  normalize_idem h = ground (arith, str_le_flip e.mint_a e.mint_b, compare_flip e.mint_a e.mint_b)

  module _ (fl : Floats) where
    open fl use {of_ℕ, div, is_zero}

    -- After `NormalizeToCanonicalPair` has returned a pair, `CalculatePrice` is the quotient of the
    -- same two scaled amounts as before, the pair's quote over its base: inverted where the pair is,
    -- unchanged where it is not, and 0 where the base amount is 0.
    pub calculate_price-normalize :
        (normalize_to_canonical_pair reg e).0 ≡ ok pair
        → calculate_price fl (normalized reg e) ≡ (
            if pair.inverted
            then (if is_zero (side_b fl e) then of_ℕ 0 else div (side_a fl e) (side_b fl e))
            else (if is_zero (side_a fl e) then of_ℕ 0 else div (side_b fl e) (side_a fl e)))
    unfolding normalize_to_canonical_pair calculate_price
    calculate_price-normalize h = ground arith
