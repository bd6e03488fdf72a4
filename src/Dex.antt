-- ===== src/Dex.antt =====
-- gen/go/dex/sol/v1/core.pb.go: the canonical messages, `SwapEvent`, `BlockHead` and `TxMeta`.
use lp_indexer.Prelude.{ℕ, Bool, String, List}
use lp_indexer.Prelude.Bytes.{Bytes}

pub record SwapEvent : Type 0 where
  pub chain_id : ℕ
  pub slot : ℕ
  pub sig : String
  pub index : ℕ
  pub program_id : String
  pub pool_id : String
  pub mint_base : String
  pub mint_quote : String
  pub dec_base : ℕ
  pub dec_quote : ℕ
  pub base_in : ℕ
  pub base_out : ℕ
  pub quote_in : ℕ
  pub quote_out : ℕ
  pub sqrt_price_q64_pre : ℕ
  pub sqrt_price_q64_post : ℕ
  pub reserves_base : ℕ
  pub reserves_quote : ℕ
  pub fee_bps : ℕ
  pub provisional : Bool
  pub is_undo : Bool

pub record BlockHead : Type 0 where
  pub chain_id : ℕ
  pub slot : ℕ
  pub ts_sec : ℕ
  pub status : String

pub record TxMeta : Type 0 where
  pub chain_id : ℕ
  pub slot : ℕ
  pub sig : String
  pub success : Bool
  pub cu_used : ℕ
  pub cu_price : ℕ
  pub log_msgs : List Bytes
