-- ===== src/Pools/Orca.antt =====
-- ingestor/internal/pools/orca.go. `encode` stands for `base58.Encode`, which is not part of the
-- repository.
use lp_indexer.Prelude.{ℕ, ◌+◌, String, Result, ok, err, ltb, length, slice, if◌then◌else◌}
use lp_indexer.Prelude.Bytes.{Bytes}
use lp_indexer.Prelude.Words.{le_word}

abbrev config_offset : ℕ
config_offset = 8

abbrev fee_rate_offset : ℕ
fee_rate_offset = config_offset + 32 + 1 + 2 + 2

abbrev protocol_fee_offset : ℕ
protocol_fee_offset = fee_rate_offset + 2

abbrev liquidity_offset : ℕ
liquidity_offset = protocol_fee_offset + 2

abbrev sqrt_price_offset : ℕ
sqrt_price_offset = liquidity_offset + 16

abbrev tick_offset : ℕ
tick_offset = sqrt_price_offset + 16

abbrev protocol_fee_a_offset : ℕ
protocol_fee_a_offset = tick_offset + 4

abbrev protocol_fee_b_offset : ℕ
protocol_fee_b_offset = protocol_fee_a_offset + 8

abbrev token_mint_a_offset : ℕ
token_mint_a_offset = protocol_fee_b_offset + 8

abbrev token_vault_a_offset : ℕ
token_vault_a_offset = token_mint_a_offset + 32

abbrev fee_growth_a_offset : ℕ
fee_growth_a_offset = token_vault_a_offset + 32

abbrev token_mint_b_offset : ℕ
token_mint_b_offset = fee_growth_a_offset + 16

abbrev token_vault_b_offset : ℕ
token_vault_b_offset = token_mint_b_offset + 32

abbrev pub required_length : ℕ
required_length = token_vault_b_offset + 32

-- `OrcaPoolInfo`
pub record OrcaPoolInfo : Type 0 where
  pub config : String
  pub fee_rate : ℕ
  pub protocol_fee : ℕ
  pub token_mint_a : String
  pub token_mint_b : String
  pub token_vault_a : String
  pub token_vault_b : String

-- `fmt.Errorf("orca pool account too short: …", len(data), orcaRequiredLength)`
pub data OrcaPoolError : Type 0 where
  account_too_short : ℕ → OrcaPoolError

-- the reads of `DecodeOrcaPool`, behind its length check
unfoldable pub read_orca_pool : (Bytes → String) → Bytes → OrcaPoolInfo
read_orca_pool encode bytes = record {
  config = encode (slice config_offset (config_offset + 32) bytes);
  fee_rate = le_word (slice fee_rate_offset (fee_rate_offset + 2) bytes);
  protocol_fee = le_word (slice protocol_fee_offset (protocol_fee_offset + 2) bytes);
  token_mint_a = encode (slice token_mint_a_offset (token_mint_a_offset + 32) bytes);
  token_mint_b = encode (slice token_mint_b_offset (token_mint_b_offset + 32) bytes);
  token_vault_a = encode (slice token_vault_a_offset (token_vault_a_offset + 32) bytes);
  token_vault_b = encode (slice token_vault_b_offset (token_vault_b_offset + 32) bytes);
}

-- `DecodeOrcaPool`
unfoldable pub decode_orca_pool : (Bytes → String) → Bytes → Result OrcaPoolError OrcaPoolInfo
decode_orca_pool encode bytes =
    if ltb (length bytes) required_length
    then err (account_too_short (length bytes))
    else ok (read_orca_pool encode bytes)
