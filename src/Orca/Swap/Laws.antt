-- ===== src/Orca/Swap/Laws.antt =====
-- A decoded Orca swap accounts for the user's balances, and its volumes belong to its assets.
use lp_indexer.Prelude.{
  ℕ, ◌+◌, ◌<◌, ◌≤◌, ◌≡◌, ◌⊎◌, Bool, true, false, String, List, ok, string_eq, if◌then◌else◌,
}
use lp_indexer.Prelude.Words.{u64_mod}
use lp_indexer.Amounts.{Floats, scale_amount}
use lp_indexer.Canonical.Metadata.{MintMetadataProvider, determine_base_quote}
use lp_indexer.Orca.Instruction.{at}
use lp_indexer.Orca.Swap.{WhirlpoolState, SwapEvent, Swap, BigFloats}

-- an amount leaves one balance and another amount comes to the other, where the balances moved so
abbrev pub Moved : ℕ → ℕ → ℕ → ℕ → ℕ → ℕ → Type 0
Moved in_pre in_post out_pre out_post amount_in amount_out =
    (in_post ≤ in_pre → in_pre < u64_mod → in_pre ≡ in_post + amount_in)
    × (out_pre ≤ out_post → out_post < u64_mod → out_post ≡ out_pre + amount_out)

abbrev pub Moves : Bool → List ℕ → List ℕ → ℕ → ℕ → Type 0
Moves true pre post amount_in amount_out =
    Moved (at pre 3) (at post 3) (at pre 5) (at post 5) amount_in amount_out
Moves false pre post amount_in amount_out =
    Moved (at pre 5) (at post 5) (at pre 3) (at post 3) amount_in amount_out

-- the amounts of the two tokens that a swap exchanges
abbrev pub amount_a : Bool → ℕ → ℕ → ℕ
amount_a a_to_b amount_in amount_out = if a_to_b then amount_in else amount_out

abbrev pub amount_b : Bool → ℕ → ℕ → ℕ
amount_b a_to_b amount_in amount_out = if a_to_b then amount_out else amount_in

module _ (fl : Floats) (big : BigFloats fl.Float) where
  -- The assets of an event are the pool's two mints, and each volume is the amount of its own asset,
  -- scaled by the decimals of that asset.
  pub record Accounts (swap : Swap) (pre : WhirlpoolState) (decimals_a decimals_b : ℕ)
      (e : SwapEvent fl.Float) : Type 0 where
    pub moves : Moves e.a_to_b swap.pre_balances swap.post_balances e.amount_in e.amount_out
    pub assets :
        (e.base_asset ≡ pre.token_mint_a)
          × (e.quote_asset ≡ pre.token_mint_b)
          × (e.volume_base
              ≡ scale_amount fl (amount_a e.a_to_b e.amount_in e.amount_out) decimals_a)
          × (e.volume_quote
              ≡ scale_amount fl (amount_b e.a_to_b e.amount_in e.amount_out) decimals_b)
        ⊎ (e.base_asset ≡ pre.token_mint_b)
          × (e.quote_asset ≡ pre.token_mint_a)
          × (e.volume_base
              ≡ scale_amount fl (amount_b e.a_to_b e.amount_in e.amount_out) decimals_b)
          × (e.volume_quote
              ≡ scale_amount fl (amount_a e.a_to_b e.amount_in e.amount_out) decimals_a)

  -- What an event has been decoded from.
  pub record DecodedFrom (provider : MintMetadataProvider) (swap : Swap) (pool : String)
      (pre : WhirlpoolState) (e : SwapEvent fl.Float) : Type 0 where
    pub decimals_a : ℕ
    pub decimals_b : ℕ
    pub has_decimals_a : provider.get_decimals pre.token_mint_a ≡ ok decimals_a
    pub has_decimals_b : provider.get_decimals pre.token_mint_b ≡ ok decimals_b
    pub in_pool : e.pool_address ≡ pool
    pub order :
        determine_base_quote pre.token_mint_a pre.token_mint_b provider
        ≡ ok (e.base_asset, e.quote_asset)
    pub accounts : Accounts swap pre decimals_a decimals_b e
