-- ===== src/Canonical/Pair.antt =====
-- decoder/common/pair.go: canonical pairs. The package's two maps are the mutable `Registry`, which
-- every function takes; `RegisterToken` and `SetQuotePriority` return the new one.
pub mod Order
use Prim.Native.String.{len, slice, ◌++◌ as text_append}
use lp_indexer.Prelude.{
  ℕ, Bool, true, false, String, Option, none, some, List, [], ◌∷◌, Result, ok, err, ltb, ◌&&◌, ◌||◌,
  if◌then◌else◌, ◌==◌, string_eq,
}
use lp_indexer.Prelude.Int.{ℤ, pos, ltb_ℤ, beq_ℤ}
use lp_indexer.Prelude.Maps.{lookup, insert}
use lp_indexer.Prelude.Text.{str_le}

-- `knownTokens` and `quotePriority`
pub record Registry : Type 0 where
  pub known_tokens : List (String × String)
  pub quote_priority : List (String × ℤ)

abbrev pub known_tokens : List (String × String)
known_tokens =
    ("EPjFWdd5AufqSSqeM2qN1xzybapC8G4wEGGkZwyTDt1v", "USDC")
    ∷ ("Es9vMFrzaCERmJfrF4H2FYD4KCoNkY11McCe8BenwNYB", "USDT")
    ∷ ("So11111111111111111111111111111111111111112", "SOL")
    ∷ ("So11111111111111111111111111111111111111111", "WSOL")
    ∷ []

abbrev pub quote_priority : List (String × ℤ)
quote_priority =
    ("USDC", pos 100)
    ∷ ("USDT", pos 90)
    ∷ ("SOL", pos 80)
    ∷ ("WSOL", pos 75)
    ∷ ("ETH", pos 70)
    ∷ ("WETH", pos 65)
    ∷ ("BTC", pos 60)
    ∷ ("WBTC", pos 55)
    ∷ ("default", pos 0)
    ∷ []

-- the registry that the package starts with
abbrev pub initial : Registry
initial = record { known_tokens = known_tokens; quote_priority = quote_priority }

-- `CanonicalPair`
pub record CanonicalPair : Type 0 where
  pub base_token : String
  pub base_mint : String
  pub quote_token : String
  pub quote_mint : String
  pub inverted : Bool

-- `errors.New("mint addresses cannot be empty")`
pub data PairError : Type 0 where
  empty_mint : PairError

-- `resolveTokenSymbol`; a mint is ASCII, so that its first 8 bytes are a text
unfoldable pub resolve_token_symbol : Registry → String → String
resolve_token_symbol reg mint = elim (lookup mint reg.known_tokens) [
  | some symbol ↦ symbol
  | none ↦ if ltb 8 (len mint) then slice mint 0 8 else mint
]

-- `m[key]` of a map of integers: 0 where the key is missing
abbrev or_zero : Option ℤ → ℤ
or_zero none = pos 0
or_zero (some p) = p

-- `getQuotePriority`
unfoldable pub get_quote_priority : Registry → String → ℤ
get_quote_priority reg symbol = elim (lookup symbol reg.quote_priority) [
  | some priority ↦ priority
  | none ↦ or_zero (lookup "default" reg.quote_priority)
]

-- `ResolvePair`
unfoldable pub resolve_pair : Registry → String → String → Result PairError CanonicalPair
resolve_pair reg mint_a mint_b =
    let symbol_a = resolve_token_symbol reg mint_a in
    let symbol_b = resolve_token_symbol reg mint_b in
    let priority_a = get_quote_priority reg symbol_a in
    let priority_b = get_quote_priority reg symbol_b in
    let kept : CanonicalPair = record {
      base_token = symbol_a;
      base_mint = mint_a;
      quote_token = symbol_b;
      quote_mint = mint_b;
      inverted = false;
    } in
    let swapped : CanonicalPair = record {
      base_token = symbol_b;
      base_mint = mint_b;
      quote_token = symbol_a;
      quote_mint = mint_a;
      inverted = true;
    } in
    if mint_a == "" || mint_b == ""
    then err empty_mint
    else if beq_ℤ priority_a priority_b
    then (if str_le mint_a mint_b then ok kept else ok swapped)
    else if ltb_ℤ priority_b priority_a
    then ok swapped
    else ok kept

-- `(*CanonicalPair).Symbol`
unfoldable pub symbol : CanonicalPair → String
symbol p = text_append p.base_token (text_append "/" p.quote_token)

-- `RegisterToken` and `SetQuotePriority`
unfoldable pub register_token : String → String → Registry → Registry
register_token mint symbol reg = record reg { known_tokens = insert mint symbol reg.known_tokens }

unfoldable pub set_quote_priority : String → ℤ → Registry → Registry
set_quote_priority symbol priority reg = record reg {
  quote_priority = insert symbol priority reg.quote_priority;
}

abbrev stablecoins : List (String × Bool)
stablecoins =
    ("USDC", true)
    ∷ ("USDT", true)
    ∷ ("BUSD", true)
    ∷ ("DAI", true)
    ∷ ("UST", true)
    ∷ ("FRAX", true)
    ∷ []

-- `m[key]` of a map of Booleans
abbrev or_false : Option Bool → Bool
or_false none = false
or_false (some b) = b

-- `(*CanonicalPair).IsStablecoinPair`
unfoldable pub is_stablecoin_pair : CanonicalPair → Bool
is_stablecoin_pair p =
    or_false (lookup p.base_token stablecoins) && or_false (lookup p.quote_token stablecoins)
