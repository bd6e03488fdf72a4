-- ===== src/Meteora/Balances.antt =====
-- decoder/meteora/decoder.go, the token balances: one account before and after the transaction.
use lp_indexer.Prelude.{
  ℕ, String, Option, none, some, List, [], ◌∷◌, Result, ok, err, ◌>>=◌, wrap_err, leb, ltb, ◌-◌,
  ◌==◌, nat_eq, string_eq, if◌then◌else◌,
}
use lp_indexer.Prelude.Bytes.{Bytes, codes, parse_uint}
use lp_indexer.Yellowstone.{UiTokenAmount, TokenBalance}
use lp_indexer.Meteora.Types.{InstructionContext}

-- `tokenBalanceDelta`
pub record TokenBalanceDelta : Type 0 where
  pub account_index : ℕ
  pub mint : String
  pub decimals : ℕ
  pub pre : ℕ
  pub post : ℕ

-- `outgoing` and `incoming`, of a pointer that is not nil
unfoldable pub outgoing : TokenBalanceDelta → ℕ
outgoing b = if leb b.post b.pre then b.pre - b.post else 0

unfoldable pub incoming : TokenBalanceDelta → ℕ
incoming b = if leb b.pre b.post then b.post - b.pre else 0

pub data AmountError : Type 0 where
  bad_amount : Bytes → AmountError
  decimals_overflow : ℕ → AmountError

pub data BalanceError : Type 0 where
  not_present : ℕ → BalanceError
  pre_balance : AmountError → BalanceError
  post_balance : AmountError → BalanceError

-- `findTokenBalance`
unfoldable pub find_token_balance : List TokenBalance → ℕ → Option TokenBalance
find_token_balance [] account_idx = none
find_token_balance (bal ∷ rest) account_idx =
    if bal.account_index == account_idx then some bal else find_token_balance rest account_idx

-- `GetUiTokenAmount().GetAmount()` and `.GetDecimals()`, which read a missing message as empty
abbrev pub amount_text : Option UiTokenAmount → Bytes
amount_text none = []
amount_text (some a) = a.amount

abbrev pub amount_decimals : Option UiTokenAmount → ℕ
amount_decimals none = 0
amount_decimals (some a) = a.decimals

-- an empty amount counts as "0"
abbrev or_zero_text : Bytes → Bytes
or_zero_text [] = codes "0"
or_zero_text (c ∷ s) = c ∷ s

-- the results of `extractBalance`
pub record Balance : Type 0 where
  pub amount : ℕ
  pub decimals : ℕ
  pub mint : String

-- `extractBalance`
unfoldable pub extract_balance : Option TokenBalance → Result AmountError Balance
extract_balance none = ok (record { amount = 0; decimals = 0; mint = "" })
extract_balance (some balance) =
    let text = or_zero_text (amount_text balance.ui_token_amount) in
    let dec = amount_decimals balance.ui_token_amount in
    elim (parse_uint text) [
      | none ↦ err (bad_amount text)
      | some parsed ↦
          if ltb 255 dec
          then err (decimals_overflow dec)
          else ok (record { amount = parsed; decimals = dec; mint = balance.mint })
    ]

-- `pickNonEmpty` and `pickDecimals`
unfoldable pub pick_non_empty : List String → String
pick_non_empty [] = ""
pick_non_empty (v ∷ values) = if v == "" then pick_non_empty values else v

unfoldable pub pick_decimals : List ℕ → ℕ
pick_decimals [] = 0
pick_decimals (v ∷ values) = if v == 0 then pick_decimals values else v

-- the rest of `balanceForAccount`, once a snapshot is there
unfoldable pub join_balances :
    ℕ → Option TokenBalance → Option TokenBalance → Result BalanceError TokenBalanceDelta
join_balances account_idx pre post = do
  b ← wrap_err pre_balance (extract_balance pre)
  a ← wrap_err post_balance (extract_balance post)
  ok (record {
    account_index = account_idx;
    mint = pick_non_empty (b.mint ∷ a.mint ∷ []);
    decimals = pick_decimals (b.decimals ∷ a.decimals ∷ []);
    pre = b.amount;
    post = a.amount;
  })

-- `balanceForAccount`
unfoldable pub balance_or_missing :
    ℕ → Option TokenBalance → Option TokenBalance → Result BalanceError TokenBalanceDelta
balance_or_missing account_idx none none = err (not_present account_idx)
balance_or_missing account_idx none (some post) = join_balances account_idx none (some post)
balance_or_missing account_idx (some pre) post = join_balances account_idx (some pre) post

unfoldable pub balance_for_account : InstructionContext → ℕ → Result BalanceError TokenBalanceDelta
balance_for_account ctx account_idx =
    balance_or_missing account_idx (find_token_balance ctx.pre_token_balances account_idx)
      (find_token_balance ctx.post_token_balances account_idx)

-- the loops of `decimalsForMint` over the deltas and over the snapshots; `none` means that the loop
-- ended without a return
unfoldable pub delta_decimals : String → List TokenBalanceDelta → Option ℕ
delta_decimals mint [] = none
delta_decimals mint (delta ∷ rest) =
    if delta.mint == mint then some delta.decimals else delta_decimals mint rest

abbrev uint8_or_zero : ℕ → ℕ
uint8_or_zero dec = if ltb 255 dec then 0 else dec

unfoldable pub snapshot_decimals : String → List TokenBalance → Option ℕ
snapshot_decimals mint [] = none
snapshot_decimals mint (bal ∷ rest) =
    let later = snapshot_decimals mint rest in
    if bal.mint == mint
    then (elim bal.ui_token_amount [ none ↦ later | some amt ↦ some (uint8_or_zero amt.decimals) ])
    else later

abbrev or_else : Option ℕ → ℕ → ℕ
or_else none d = d
or_else (some v) d = v

-- `decimalsForMint`
unfoldable pub decimals_for_mint : InstructionContext → String → List TokenBalanceDelta → ℕ
decimals_for_mint ctx mint deltas = or_else (delta_decimals mint deltas) (
    or_else (snapshot_decimals mint ctx.pre_token_balances)
      (or_else (snapshot_decimals mint ctx.post_token_balances) 0))
