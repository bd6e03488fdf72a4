-- ===== src/Raydium/Swap/Direction.antt =====
-- The direction and the amounts of a swap, from the two vaults' balances.
use lp_indexer.Prelude.{◌+◌, ◌<◌, ◌≡◌, ◌⊎◌, true, false, ok, some, ◌^◌, arith, inl, ◌-◌, inr}
use lp_indexer.Raydium.Instruction.{SwapInstruction}
use lp_indexer.Raydium.Swap.{SwapContext, SwapEvent, parse_swap_event, base_event}

-- The balances of both vaults are `uint64`, and no balance moves by 2 ^ 63 or more.
pub record IsSmall (ctx : SwapContext) : Type 0 where
  pub pre_a : ctx.pre_token_a < 2 ^ 63
  pub post_a : ctx.post_token_a < 2 ^ 63
  pub pre_b : ctx.pre_token_b < 2 ^ 63
  pub post_b : ctx.post_token_b < 2 ^ 63

-- The vault of `A` takes `amount_in` in and the vault of `B` pays `amount_out`, or the other way
-- round, as the event's flag says; both amounts are positive.
pub record Moves (ctx : SwapContext) (e : SwapEvent) : Type 0 where
  pub some_in : 0 < e.amount_in
  pub some_out : 0 < e.amount_out
  pub vault_a :
      (e.is_base_input ≡ true) × (ctx.post_token_a ≡ ctx.pre_token_a + e.amount_in)
      ⊎ (e.is_base_input ≡ false) × (ctx.post_token_a + e.amount_out ≡ ctx.pre_token_a)
  pub vault_b :
      (e.is_base_input ≡ true) × (ctx.post_token_b + e.amount_out ≡ ctx.pre_token_b)
      ⊎ (e.is_base_input ≡ false) × (ctx.post_token_b ≡ ctx.pre_token_b + e.amount_in)

module _ (instr : SwapInstruction) (ctx : SwapContext) where
  -- For balances below 2 ^ 63, an event that `ParseSwapEvent` returns accounts for both vaults: one
  -- rises by exactly the amount in and the other falls by exactly the amount out, in the direction of
  -- the event's flag, and both amounts are positive.
  pub parse_swap_event-Moves :
      {e : SwapEvent} → IsSmall ctx → parse_swap_event (some instr) (some ctx) ≡ ok e → Moves ctx e
  unfolding parse_swap_event
  parse_swap_event-Moves small h = ground arith

  abbrev rising_a : SwapEvent
  rising_a = record (base_event instr ctx) {
    amount_in = ctx.post_token_a - ctx.pre_token_a;
    amount_out = ctx.pre_token_b - ctx.post_token_b;
    is_base_input = true;
  }

  abbrev rising_b : SwapEvent
  rising_b = record (base_event instr ctx) {
    amount_in = ctx.post_token_b - ctx.pre_token_b;
    amount_out = ctx.pre_token_a - ctx.post_token_a;
    is_base_input = false;
  }

  parse-rising_a :
      IsSmall ctx
      → ctx.pre_token_a < ctx.post_token_a
      → ctx.post_token_b < ctx.pre_token_b
      → parse_swap_event (some instr) (some ctx) ≡ ok rising_a
  unfolding parse_swap_event
  parse-rising_a small h k = ground arith

  parse-rising_b :
      IsSmall ctx
      → ctx.post_token_a < ctx.pre_token_a
      → ctx.pre_token_b < ctx.post_token_b
      → parse_swap_event (some instr) (some ctx) ≡ ok rising_b
  unfolding parse_swap_event
  parse-rising_b small h k = ground arith

  -- For balances below 2 ^ 63 `ParseSwapEvent` returns an event wherever one vault rises and the other
  -- falls, whatever the instruction's own flag says, and the event accounts for both vaults.
  pub parse_swap_event_total :
      IsSmall ctx
      → (ctx.pre_token_a < ctx.post_token_a) × (ctx.post_token_b < ctx.pre_token_b)
        ⊎ (ctx.post_token_a < ctx.pre_token_a) × (ctx.pre_token_b < ctx.post_token_b)
      → (e : SwapEvent) × (parse_swap_event (some instr) (some ctx) ≡ ok e) × Moves ctx e
  parse_swap_event_total small (inl (h, k)) =
      let p = parse-rising_a small h k in (rising_a, p, parse_swap_event-Moves small p)
  parse_swap_event_total small (inr (h, k)) =
      let p = parse-rising_b small h k in (rising_b, p, parse_swap_event-Moves small p)
