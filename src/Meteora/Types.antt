-- ===== src/Meteora/Types.antt =====
-- decoder/meteora/types.go: program kinds, the swap event and the context of an instruction.
use lp_indexer.Prelude.{ℕ, Bool, String, Option, List, [], ◌∷◌, string_eq}
use lp_indexer.Prelude.Bytes.{Bytes}
use lp_indexer.Prelude.Maps.{lookup, insert}
use lp_indexer.Yellowstone.{TokenBalance}

-- `PoolKind`
pub data PoolKind : Type 0 where
  dlmm cpmm : PoolKind

-- `programKinds`, as the package starts with it
abbrev pub program_kinds : List (String × PoolKind)
program_kinds =
    ("cpamdpZCGKUy5JxQXB4dcpGPiikHawvSWAd6mEn1sGG", cpmm)
    ∷ ("LBUZKhRxPF3XUpBCjp4YzTKgLccjZhTSDM9YuVaPwxo", cpmm)
    ∷ ("Eo7WjKq67rjJQSZxS6z3YkapzY3eMj6Xy8X5EQVn5UaB", dlmm)
    ∷ []

-- `ProgramKindForID`, and `SetProgramKind` with the new map
unfoldable pub program_kind_for_id : List (String × PoolKind) → String → Option PoolKind
program_kind_for_id kinds program_id = lookup program_id kinds

unfoldable pub set_program_kind :
    String → PoolKind → List (String × PoolKind) → List (String × PoolKind)
set_program_kind program_id kind kinds = insert program_id kind kinds

-- `SwapEvent`
pub record SwapEvent : Type 0 where
  pub signature : String
  pub slot : ℕ
  pub timestamp : ℕ
  pub program_id : String
  pub pool : String
  pub kind : PoolKind
  pub base_mint : String
  pub quote_mint : String
  pub base_dec : ℕ
  pub quote_dec : ℕ
  pub base_amount : ℕ
  pub quote_amount : ℕ
  pub fee_bps : ℕ
  pub virtual_reserves_base : ℕ
  pub virtual_reserves_quote : ℕ
  pub real_reserves_base : ℕ
  pub real_reserves_quote : ℕ
  pub mint_base : String
  pub mint_quote : String
  pub dec_base : ℕ
  pub dec_quote : ℕ
  pub base_decreased : Bool

-- `InstructionContext`
pub record InstructionContext : Type 0 where
  pub slot : ℕ
  pub signature : String
  pub logs : List Bytes
  pub accounts : List String
  pub instruction_accounts : Bytes
  pub pre_token_balances : List TokenBalance
  pub post_token_balances : List TokenBalance
  pub program_id : String
  pub kind : PoolKind
  pub timestamp : ℕ
