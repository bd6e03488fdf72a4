-- ===== src/Yellowstone.antt =====
-- The messages of the Yellowstone stream that the program reads, as the getters of the protobuf
-- package (not part of the repository) show them: a message that may be missing is an `Option`.
-- Times are seconds since the Unix epoch, an `int64` as its bit pattern.
use lp_indexer.Prelude.{ℕ, String, Option, List, Bool}
use lp_indexer.Prelude.Bytes.{Bytes}

pub record UiTokenAmount : Type 0 where
  pub amount : Bytes
  pub decimals : ℕ

pub record TokenBalance : Type 0 where
  pub account_index : ℕ
  pub mint : String
  pub owner : String
  pub ui_token_amount : Option UiTokenAmount

pub record CompiledInstruction : Type 0 where
  pub program_id_index : ℕ
  pub accounts : Bytes
  pub payload : Bytes

-- `failed` says that the transaction's error is set
pub record TransactionStatusMeta : Type 0 where
  pub failed : Bool
  pub compute_units_consumed : ℕ
  pub pre_token_balances : List TokenBalance
  pub post_token_balances : List TokenBalance
  pub log_messages : List Bytes

pub record Message : Type 0 where
  pub account_keys : List Bytes
  pub instructions : List CompiledInstruction

pub record Transaction : Type 0 where
  pub signatures : List Bytes
  pub message : Option Message

pub record TransactionInfo : Type 0 where
  pub signature : Bytes
  pub transaction : Option Transaction
  pub meta : Option TransactionStatusMeta
  pub index : ℕ

pub record TransactionUpdate : Type 0 where
  pub slot : ℕ
  pub transaction : Option TransactionInfo

pub record BlockMetaUpdate : Type 0 where
  pub slot : ℕ
  pub block_time : Option ℕ

pub record AccountInfo : Type 0 where
  pub owner : Bytes
  pub pubkey : Bytes
  pub payload : Bytes

pub record AccountUpdate : Type 0 where
  pub slot : ℕ
  pub account : Option AccountInfo

-- the statuses that the program tells apart
pub data SlotStatus : Type 0 where
  slot_finalized slot_dead slot_other : SlotStatus

pub record SlotUpdate : Type 0 where
  pub slot : ℕ
  pub status : SlotStatus

pub record BlockUpdate : Type 0 where
  pub slot : ℕ

pub data SubscribeUpdate : Type 0 where
  transaction_update : Option TransactionUpdate → SubscribeUpdate
  block_meta_update : Option BlockMetaUpdate → SubscribeUpdate
  account_update : Option AccountUpdate → SubscribeUpdate
  slot_update : Option SlotUpdate → SubscribeUpdate
  block_update : Option BlockUpdate → SubscribeUpdate
  other_update : SubscribeUpdate
