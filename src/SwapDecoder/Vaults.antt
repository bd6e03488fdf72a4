-- ===== src/SwapDecoder/Vaults.antt =====
-- ingestor/decoder/decoder.go: the token balances of a transaction, grouped by owner, and the two
-- vaults of an instruction's pool. Go visits the entries of a map in any order: `visit` is the order
-- in which `extractVaultBalances` meets the accounts.
use lp_indexer.Prelude.{
  ℕ, ◌%◌, String, Option, none, some, List, [], ◌∷◌, ◌++◌, ltb, ◌==◌, nat_eq, string_eq, length,
  get_elem?, if◌then◌else◌,
}
use lp_indexer.Prelude.Bytes.{Bytes, parse_uint}
use lp_indexer.Prelude.Maps.{lookup, insert}
use lp_indexer.Yellowstone.{
  UiTokenAmount, TokenBalance as PbBalance, CompiledInstruction, TransactionStatusMeta,
}
use lp_indexer.Meteora.Balances.{amount_decimals}

-- `tokenBalance`
pub record VaultBalance : Type 0 where
  pub account_index : ℕ
  pub mint : String
  pub owner : String
  pub pre : ℕ
  pub post : ℕ
  pub decimals : ℕ

-- `parseAmount`; its three errors lead to the same `continue`
unfoldable pub parse_amount : Option UiTokenAmount → Option ℕ
parse_amount none = none
parse_amount (some amount) = parse_uint amount.amount

-- the entry of a balance that its transaction shows first
abbrev pub fresh : PbBalance → ℕ → ℕ → VaultBalance
fresh bal pre post = record {
  account_index = bal.account_index;
  mint = bal.mint;
  owner = bal.owner;
  pre = pre;
  post = post;
  decimals = amount_decimals bal.ui_token_amount % 256;
}

abbrev add_pre : PbBalance → Option ℕ → List (ℕ × VaultBalance) → List (ℕ × VaultBalance)
add_pre bal none balances = balances
add_pre bal (some amt) balances = insert bal.account_index (fresh bal amt 0) balances

abbrev with_post : PbBalance → ℕ → Option VaultBalance → VaultBalance
with_post bal amt none = fresh bal 0 amt
with_post bal amt (some entry) = record entry { post = amt }

abbrev add_post : PbBalance → Option ℕ → List (ℕ × VaultBalance) → List (ℕ × VaultBalance)
add_post bal none balances = balances
add_post bal (some amt) balances =
    insert bal.account_index (with_post bal amt (lookup bal.account_index balances)) balances

-- the two loops of `extractVaultBalances` over the snapshots
unfoldable pub pre_loop : List PbBalance → List (ℕ × VaultBalance) → List (ℕ × VaultBalance)
pre_loop [] balances = balances
pre_loop (bal ∷ rest) balances =
    pre_loop rest (add_pre bal (parse_amount bal.ui_token_amount) balances)

unfoldable pub post_loop : List PbBalance → List (ℕ × VaultBalance) → List (ℕ × VaultBalance)
post_loop [] balances = balances
post_loop (bal ∷ rest) balances =
    post_loop rest (add_post bal (parse_amount bal.ui_token_amount) balances)

-- `owners[key]` of a map of slices
abbrev pub or_empty : Option (List VaultBalance) → List VaultBalance
or_empty none = []
or_empty (some l) = l

-- the loop that groups the balances by owner
unfoldable pub owner_loop :
    List (ℕ × VaultBalance) → List (String × List VaultBalance) → List (String × List VaultBalance)
owner_loop [] owners = owners
owner_loop ((_, bal) ∷ rest) owners = owner_loop rest (
    if bal.owner == ""
    then owners
    else insert bal.owner (or_empty (lookup bal.owner owners) ++ bal ∷ []) owners)

abbrev pub Visit : Type 0
Visit = List (ℕ × VaultBalance) → List (ℕ × VaultBalance)

-- `extractVaultBalances`
unfoldable pub extract_vault_balances :
    Visit → TransactionStatusMeta → List (String × List VaultBalance)
extract_vault_balances visit meta =
    owner_loop (visit (post_loop meta.post_token_balances (pre_loop meta.pre_token_balances []))) []

-- the address of an account of the instruction, or `none` where the index is out of range
abbrev pub address_at : List String → ℕ → Option String
address_at accounts idx = get_elem? accounts idx

abbrev known_address : List (String × List VaultBalance) → Option String → Option String
known_address vaults none = none
known_address vaults (some addr) = elim (lookup addr vaults) [ none ↦ none | some _ ↦ some addr ]

-- the first loop of `resolvePool`: the first account that owns token balances
unfoldable pub find_pool : Bytes → List String → List (String × List VaultBalance) → Option String
find_pool [] accounts vaults = none
find_pool (idx ∷ rest) accounts vaults =
    let later = find_pool rest accounts vaults in
    elim (known_address vaults (address_at accounts idx)) [ none ↦ later | some addr ↦ some addr ]

-- the balances of one account, and the second loop of `resolvePool` over the instruction's accounts
unfoldable pub matching : ℕ → List VaultBalance → List VaultBalance
matching idx [] = []
matching idx (tb ∷ rest) =
    if tb.account_index == idx then tb ∷ matching idx rest else matching idx rest

unfoldable pub ordered : Bytes → List VaultBalance → List VaultBalance
ordered [] pool_vaults = []
ordered (idx ∷ rest) pool_vaults = matching idx pool_vaults ++ ordered rest pool_vaults

abbrev first_two : String → List VaultBalance → Option (String × VaultBalance × VaultBalance)
first_two pool (a ∷ b ∷ rest) = some (pool, a, b)
first_two pool _ = none

-- the choice of the two vaults of a pool
unfoldable pub two_vaults :
    Bytes → String → List VaultBalance → Option (String × VaultBalance × VaultBalance)
two_vaults idxs pool pool_vaults =
    if ltb (length (ordered idxs pool_vaults)) 2
    then first_two pool pool_vaults
    else first_two pool (ordered idxs pool_vaults)

-- `resolvePool`; `none` is its empty answer. An empty pool address counts as none found.
unfoldable pub resolve_pool :
    CompiledInstruction
    → List String
    → List (String × List VaultBalance)
    → Option (String × VaultBalance × VaultBalance)
resolve_pool instr accounts vaults = elim (find_pool instr.accounts accounts vaults) [
  | none ↦ none
  | some pool ↦ two_vaults instr.accounts pool (or_empty (lookup pool vaults))
]
