-- ===== src/Pools/Raydium.antt =====
-- ingestor/internal/pools/raydium.go
use lp_indexer.Prelude.{
  ℕ, ◌+◌, Bool, true, false, Result, ok, err, [], ◌∷◌, ltb, leb, ◌==◌, nat_eq, ◌&&◌, length, slice,
  take, if◌then◌else◌,
}
use lp_indexer.Prelude.Bytes.{Bytes}
use lp_indexer.Prelude.Words.{le_word}

abbrev pub pool_config_offset : ℕ
pool_config_offset = 8 + 1

abbrev pub pool_config_end : ℕ
pool_config_end = pool_config_offset + 32

abbrev pub amm_trade_fee_offset : ℕ
amm_trade_fee_offset = 8 + 1 + 2 + 32 + 4

abbrev pub amm_required_length : ℕ
amm_required_length = amm_trade_fee_offset + 4

abbrev pub approx_config_account_max : ℕ
approx_config_account_max = 256

abbrev pub amm_config_discriminator : Bytes
amm_config_discriminator = 218 ∷ 244 ∷ 33 ∷ 104 ∷ 203 ∷ 203 ∷ 43 ∷ 111 ∷ []

abbrev pub pool_state_discriminator : Bytes
pool_state_discriminator = 247 ∷ 237 ∷ 227 ∷ 245 ∷ 215 ∷ 195 ∷ 222 ∷ 70 ∷ []

pub data RaydiumPoolError : Type 0 where
  pool_too_short : ℕ → RaydiumPoolError
  config_too_short : ℕ → RaydiumPoolError

-- the loop of `equalDiscriminator`, on lists of one length
same_bytes : Bytes → Bytes → Bool
same_bytes [] b = true
same_bytes (x ∷ a) [] = true
same_bytes (x ∷ a) (y ∷ b) = if x == y then same_bytes a b else false

-- `equalDiscriminator`
unfoldable pub equal_discriminator : Bytes → Bytes → Bool
unfolding same_bytes
equal_discriminator a b = if length a == length b then same_bytes a b else false

-- `HasAmmConfigDiscriminator` and `HasPoolDiscriminator`
unfoldable pub has_amm_config_discriminator : Bytes → Bool
has_amm_config_discriminator bytes =
    leb 8 (length bytes) && equal_discriminator (take 8 bytes) amm_config_discriminator

unfoldable pub has_pool_discriminator : Bytes → Bool
has_pool_discriminator bytes =
    leb 8 (length bytes) && equal_discriminator (take 8 bytes) pool_state_discriminator

-- `DecodeRaydiumPool`: the 32 bytes of the pool's configuration key
unfoldable pub decode_raydium_pool : Bytes → Result RaydiumPoolError Bytes
decode_raydium_pool bytes =
    if ltb (length bytes) pool_config_end
    then err (pool_too_short (length bytes))
    else ok (slice pool_config_offset pool_config_end bytes)

-- `DecodeAmmConfig`: the trade fee rate
unfoldable pub decode_amm_config : Bytes → Result RaydiumPoolError ℕ
decode_amm_config bytes =
    if ltb (length bytes) amm_required_length
    then err (config_too_short (length bytes))
    else ok (le_word (slice amm_trade_fee_offset (amm_trade_fee_offset + 4) bytes))
