-- ===== src/Meteora/Amounts.antt =====
-- The swap that `DecodeSwapEvent` returns accounts for the two token balances.
use lp_indexer.Prelude.{
  ℕ, ◌+◌, ◌<◌, ◌≡◌, ◌⊎◌, true, false, String, some, List, [], ◌∷◌, ok, wrap_err, arith, inl, inr,
  Result-cases, ◌==◌, ◌||◌, nat_eq, string_eq,
}
use lp_indexer.Prelude.{>>=-eq-ok, wrap_err-eq-ok}
use lp_indexer.Meteora.Decoder.{input_lookup, output_lookup}
use text.Mathlib.TextEquality.{eq_iff}
use lp_indexer.Prelude.Bytes.{Bytes}
use lp_indexer.Canonical.Pair.{Registry, CanonicalPair, resolve_pair}
use lp_indexer.Meteora.Types.{PoolKind, dlmm, cpmm, SwapEvent, InstructionContext}
use lp_indexer.Meteora.Balances.{
  TokenBalanceDelta, outgoing, incoming, balance_for_account, decimals_for_mint,
}
use lp_indexer.Meteora.Logs.{apply_line, apply_log_metadata, tokenize}
use lp_indexer.Meteora.Decoder.{
  check_accounts, resolve_account, account_index, Sides, orient, new_event, finish_event,
  decode_pair, decode_balances, decode_swap_event,
}

-- Two events with the same transaction, pool, mints, decimals, amounts and direction.
pub record SameSwap (a b : SwapEvent) : Type 0 where
  pub signature : b.signature ≡ a.signature
  pub slot : b.slot ≡ a.slot
  pub timestamp : b.timestamp ≡ a.timestamp
  pub program_id : b.program_id ≡ a.program_id
  pub pool : b.pool ≡ a.pool
  pub base_mint : b.mint_base ≡ a.mint_base
  pub quote_mint : b.mint_quote ≡ a.mint_quote
  pub base_dec : b.dec_base ≡ a.dec_base
  pub quote_dec : b.dec_quote ≡ a.dec_quote
  pub base_amount : b.base_amount ≡ a.base_amount
  pub quote_amount : b.quote_amount ≡ a.quote_amount
  pub direction : b.base_decreased ≡ a.base_decreased

SameSwap-refl : (a : SwapEvent) → SameSwap a a
SameSwap-refl a = ground arith

SameSwap-trans : {a b c : SwapEvent} → SameSwap a b → SameSwap b c → SameSwap a c
SameSwap-trans h k = ground arith

apply_line-SameSwap :
    (kind : PoolKind) (tokens : List Bytes) (e : SwapEvent) → SameSwap e (apply_line kind tokens e)
unfolding apply_line
apply_line-SameSwap dlmm [] e = SameSwap-refl e
apply_line-SameSwap cpmm [] e = SameSwap-refl e
apply_line-SameSwap dlmm (tok ∷ tokens) e = ground arith
apply_line-SameSwap cpmm (tok ∷ tokens) e = ground arith

-- Whatever the log lines say, `applyLogMetadata` changes no more of an event than its fee and its
-- reserves: the transaction, the pool, the mints, the decimals, the amounts and the direction stay.
pub apply_log_metadata-SameSwap :
    (kind : PoolKind) (lines : List Bytes) (e : SwapEvent)
    → SameSwap e (apply_log_metadata kind lines e)
unfolding apply_log_metadata
apply_log_metadata-SameSwap kind [] e = SameSwap-refl e
apply_log_metadata-SameSwap kind (line ∷ lines) e =
    SameSwap-trans (apply_line-SameSwap kind (tokenize line) e)
      (apply_log_metadata-SameSwap kind lines (apply_line kind (tokenize line) e))

-- The swap of an event: the input account pays one amount and the output account receives the other,
-- the base's or the quote's as the direction says, and neither amount is 0.
pub record IsSwap (input output : TokenBalanceDelta) (e : SwapEvent) : Type 0 where
  pub some_base : 0 < e.base_amount
  pub some_quote : 0 < e.quote_amount
  pub sides :
      (e.base_decreased ≡ false)
        × (e.mint_base ≡ input.mint)
        × (e.mint_quote ≡ output.mint)
        × (input.pre ≡ input.post + e.base_amount)
        × (output.post ≡ output.pre + e.quote_amount)
      ⊎ (e.base_decreased ≡ true)
        × (e.mint_base ≡ output.mint)
        × (e.mint_quote ≡ input.mint)
        × (output.post ≡ output.pre + e.base_amount)
        × (input.pre ≡ input.post + e.quote_amount)

IsSwap-SameSwap :
    {input output : TokenBalanceDelta} {a b : SwapEvent}
    → IsSwap input output a
    → SameSwap a b
    → IsSwap input output b
IsSwap-SameSwap h s = ground arith

-- the legs of a resolved pair are the two mints
resolve_pair-legs :
    (reg : Registry) (a b : String) {p : CanonicalPair}
    → resolve_pair reg a b ≡ ok p
    → (p.base_mint ≡ a) × (p.quote_mint ≡ b) ⊎ (p.base_mint ≡ b) × (p.quote_mint ≡ a)
unfolding resolve_pair
resolve_pair-legs reg a b h = ground arith

finish_event-SameSwap :
    (ctx : InstructionContext) (sides : Sides) (a : SwapEvent) {e : SwapEvent}
    → finish_event ctx sides a ≡ ok e
    → SameSwap a e × ((sides.base_amount == 0 || sides.quote_amount == 0) ≡ false)
unfolding finish_event
finish_event-SameSwap ctx sides a h =
    let same = apply_log_metadata-SameSwap ctx.kind ctx.logs a in
    (ground (arith, same), ground arith)

module _ (ctx : InstructionContext) (pool : String) (input output : TokenBalanceDelta) where
  new_event-IsSwap :
      (p : CanonicalPair) (dec_b dec_q : ℕ)
      → (p.base_mint ≡ input.mint) × (p.quote_mint ≡ output.mint)
        ⊎ (p.base_mint ≡ output.mint) × (p.quote_mint ≡ input.mint)
      → (let s = orient p input output (outgoing input) (incoming output) in
          (s.base_amount == 0 || s.quote_amount == 0) ≡ false
          → IsSwap input output (new_event ctx pool p dec_b dec_q s))
  unfolding orient new_event outgoing incoming
  new_event-IsSwap p dec_b dec_q legs h =
      ground (arith, eq_iff p.base_mint input.mint, eq_iff p.quote_mint output.mint)

  decode_pair-IsSwap :
      (p : CanonicalPair) {e : SwapEvent}
      → (p.base_mint ≡ input.mint) × (p.quote_mint ≡ output.mint)
        ⊎ (p.base_mint ≡ output.mint) × (p.quote_mint ≡ input.mint)
      → decode_pair ctx pool input output p ≡ ok e
      → IsSwap input output e
  unfolding decode_pair
  decode_pair-IsSwap p legs h =
      let b = decimals_for_mint ctx p.base_mint (input ∷ output ∷ []) in
      let q = decimals_for_mint ctx p.quote_mint (input ∷ output ∷ []) in
      let sides = orient p input output (outgoing input) (incoming output) in
      let (same, sized) = finish_event-SameSwap ctx sides (new_event ctx pool p b q sides) h in
      IsSwap-SameSwap (new_event-IsSwap p b q legs sized) same

  decode_balances-IsSwap :
      (reg : Registry) {e : SwapEvent}
      → decode_balances reg ctx pool input output ≡ ok e
      → IsSwap input output e
  unfolding decode_balances
  decode_balances-IsSwap reg h = elim (Result-cases (resolve_pair reg input.mint output.mint)) [
    | inl (p, found) ↦
        decode_pair-IsSwap p (resolve_pair-legs reg input.mint output.mint found) (ground arith)
    | inr (x, failed) ↦ absurd (ground arith)
  ]

-- A swap event of `DecodeSwapEvent` accounts for the balances of the accounts at positions 2 and 3 of
-- the instruction: the first pays the amount of its mint and the second receives the amount of its
-- own, both are positive, the two mints are the event's base and quote, and the event says which is
-- which.
pub decode_swap_event-IsSwap :
    (reg : Registry) (ctx : InstructionContext) {e : SwapEvent}
    → decode_swap_event reg (some ctx) ≡ ok e
    → (input output : TokenBalanceDelta) × (balance_for_account ctx (account_index ctx 2)
        ≡ ok input)
      × (balance_for_account ctx (account_index ctx 3) ≡ ok output)
      × IsSwap input output e
unfolding decode_swap_event
decode_swap_event-IsSwap reg ctx h =
    let (_, checked, h1) = >>=-eq-ok (check_accounts ctx) _ h in
    let (pool, _, h2) = >>=-eq-ok (resolve_account ctx 1) _ h1 in
    let (input, found_in, h3) =
      >>=-eq-ok (wrap_err input_lookup (balance_for_account ctx (account_index ctx 2))) _ h2 in
    let (output, found_out, h4) =
      >>=-eq-ok (wrap_err output_lookup (balance_for_account ctx (account_index ctx 3))) _ h3 in
    (
      input,
      output,
      wrap_err-eq-ok input_lookup _ found_in,
      wrap_err-eq-ok output_lookup _ found_out,
      decode_balances-IsSwap ctx pool input output reg h4,
    )
