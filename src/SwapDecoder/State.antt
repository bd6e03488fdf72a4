-- ===== src/SwapDecoder/State.antt =====
-- ingestor/decoder/decoder.go: the decoder's state, and what account and block updates do to it.
-- The slot cache that the decoder is built with is part of its state.
use lp_indexer.Prelude.{
  ℕ, ◌/◌, ◌%◌, ◌^◌, Bool, String, Option, none, some, List, [], ◌∷◌, Result, ok, err, ltb, ◌==◌,
  string_eq, nat_eq, length, if◌then◌else◌,
}
use lp_indexer.Prelude.Bytes.{Bytes}
use lp_indexer.Prelude.Maps.{lookup, insert}
use lp_indexer.SlotCache
use lp_indexer.SlotCache.{SlotCache}
use lp_indexer.Pools.Orca.{OrcaPoolInfo, OrcaPoolError, decode_orca_pool}
use lp_indexer.Pools.Raydium.{
  RaydiumPoolError, has_pool_discriminator, has_amm_config_discriminator, decode_raydium_pool,
  decode_amm_config, approx_config_account_max,
}
use lp_indexer.Raydium.Instruction
use lp_indexer.Yellowstone.{AccountUpdate, AccountInfo, BlockMetaUpdate}

-- `orcawhirlpool.WhirlpoolProgramID`
abbrev pub whirlpool_program_id : String
whirlpool_program_id = "whirLbMiicVdio4qvUfM5KAg6Ct8VwpYzGff3uctyCc"

-- `Decoder`; times are whole seconds
pub record Decoder : Type 0 where
  pub slot_cache : SlotCache ℕ
  pub pool_config : List (String × String)
  pub pool_fees : List (String × ℕ)
  pub config_fees : List (String × ℕ)
  pub orca_pools : List (String × OrcaPoolInfo)

-- `New`; a nil cache is `none`
unfoldable pub new : Option (SlotCache ℕ) → Decoder
new none = record {
  slot_cache = SlotCache.new;
  pool_config = [];
  pool_fees = [];
  config_fees = [];
  orca_pools = [];
}
new (some cache) = record {
  slot_cache = cache;
  pool_config = [];
  pool_fees = [];
  config_fees = [];
  orca_pools = [];
}

-- `HandleBlockMeta`
unfoldable pub set_time : ℕ → Option ℕ → Decoder → Decoder
set_time slot none d = d
set_time slot (some ts) d = record d { slot_cache = SlotCache.set slot ts d.slot_cache }

unfoldable pub handle_block_meta : Option BlockMetaUpdate → Decoder → Decoder
unfolding set_time
handle_block_meta none d = d
handle_block_meta (some meta) d = set_time meta.slot meta.block_time d

-- what `handleRaydiumAccount` takes the bytes of an account for
pub data RaydiumAccount : Type 0 where
  pool_account : Bytes → RaydiumAccount
  config_account : ℕ → RaydiumAccount
  unrecognised : RaydiumAccount

-- One `if` of `handleRaydiumAccount`: under a test, an account that decodes is indexed and ends the
-- method; else the rest of the method runs.
abbrev or_pool : Bool → Result RaydiumPoolError Bytes → RaydiumAccount → RaydiumAccount
or_pool test (ok cfg) rest = if test then pool_account cfg else rest
or_pool test (err e) rest = rest

abbrev or_config : Bool → Result RaydiumPoolError ℕ → RaydiumAccount → RaydiumAccount
or_config test (ok rate) rest = if test then config_account rate else rest
or_config test (err e) rest = rest

-- the five attempts of `handleRaydiumAccount`, in its order
unfoldable pub classify : Bytes → RaydiumAccount
classify bytes =
    let pool = decode_raydium_pool bytes in
    let config = decode_amm_config bytes in
    or_pool (has_pool_discriminator bytes) pool (
      or_config (has_amm_config_discriminator bytes) config (
        or_pool (ltb approx_config_account_max (length bytes)) pool
          (or_config Bool.true config (or_pool Bool.true pool unrecognised))))

abbrev set_known_fee : String → Option ℕ → List (String × ℕ) → List (String × ℕ)
set_known_fee pubkey none fees = fees
set_known_fee pubkey (some fee) fees = insert pubkey fee fees

-- the pool's branch: its configuration, and its fee where the configuration's is known
unfoldable pub index_pool : String → String → Decoder → Decoder
index_pool pubkey config_key d = record d {
  pool_config = insert pubkey config_key d.pool_config;
  pool_fees = set_known_fee pubkey (lookup config_key d.config_fees) d.pool_fees;
}

-- `for pool, cfg := range d.poolConfig { if cfg == pubkey { d.poolFees[pool] = feeBps } }`
unfoldable pub set_pool_fees :
    String → ℕ → List (String × String) → List (String × ℕ) → List (String × ℕ)
set_pool_fees pubkey fee_bps [] fees = fees
set_pool_fees pubkey fee_bps ((pool, cfg) ∷ pools) fees =
    set_pool_fees pubkey fee_bps pools (if cfg == pubkey then insert pool fee_bps fees else fees)

-- the configuration's branch, with `uint16(tradeRate / 100)`
unfoldable pub index_config : String → ℕ → Decoder → Decoder
index_config pubkey trade_rate d =
    let fee_bps = trade_rate / 100 % 2 ^ 16 in
    record d {
      config_fees = insert pubkey fee_bps d.config_fees;
      pool_fees = set_pool_fees pubkey fee_bps d.pool_config d.pool_fees;
    }

module _ (encode : Bytes → String) where
  unfoldable pub index_account : String → RaydiumAccount → Decoder → Decoder
  index_account pubkey (pool_account cfg) d = index_pool pubkey (encode cfg) d
  index_account pubkey (config_account rate) d = index_config pubkey rate d
  index_account pubkey unrecognised d = d

  -- `handleRaydiumAccount`
  unfoldable pub handle_raydium_account : String → Bytes → Decoder → Decoder
  unfolding index_account
  handle_raydium_account pubkey bytes d = index_account pubkey (classify bytes) d

  unfoldable pub index_orca : String → Result OrcaPoolError OrcaPoolInfo → Decoder → Decoder
  index_orca pubkey (ok info) d = record d { orca_pools = insert pubkey info d.orca_pools }
  index_orca pubkey (err e) d = d

  unfoldable pub handle_owned : String → String → Bytes → Decoder → Decoder
  unfolding handle_raydium_account index_orca
  handle_owned owner pubkey bytes d =
      if owner == Instruction.program_id
      then handle_raydium_account pubkey bytes d
      else if owner == whirlpool_program_id
      then index_orca pubkey (decode_orca_pool encode bytes) d
      else d

  unfoldable pub handle_info : Option AccountInfo → Decoder → Decoder
  unfolding handle_owned
  handle_info none d = d
  handle_info (some info) d = handle_owned (encode info.owner) (encode info.pubkey) info.payload d

  -- `HandleAccount`
  unfoldable pub handle_account : Option AccountUpdate → Decoder → Decoder
  unfolding handle_info
  handle_account none d = d
  handle_account (some update) d = handle_info update.account d
