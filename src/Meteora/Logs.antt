-- ===== src/Meteora/Logs.antt =====
-- decoder/meteora/decoder.go, the log lines: fees and reserves that the program prints.
use lp_indexer.Prelude.{
  ℕ, Bool, true, false, Option, none, some, List, [], ◌∷◌, ◌++◌, map, ◌%◌, ◌^◌, ◌==◌, nat_eq, ◌&&◌,
  ◌||◌, not, if◌then◌else◌,
}
use lp_indexer.Prelude.Bytes.{
  Bytes, codes, has_prefix, trim_prefix, contains, fields, trim, to_lower, parse_uint, bytes_beq,
}
use lp_indexer.Meteora.Types.{PoolKind, dlmm, cpmm, SwapEvent}

-- the cutset " ,:"
abbrev in_cutset : ℕ → Bool
in_cutset c = c == b' ' || c == b',' || c == b':'

-- `tokenize`
unfoldable pub tokenize : Bytes → List Bytes
unfolding fields trim
tokenize line = map (trim in_cutset) (fields line)

-- the loop of `extractUint`, for the prefix `key + "="`
unfoldable pub extract_prefixed : Bytes → List Bytes → Option ℕ
extract_prefixed prefix [] = none
extract_prefixed prefix (tok ∷ tokens) =
    let later = extract_prefixed prefix tokens in
    if has_prefix tok prefix
    then (elim (parse_uint (trim_prefix tok prefix)) [ none ↦ later | some val ↦ some val ])
    else later

-- `extractUint`; an empty value is no number either, so that its `continue` needs no case
unfoldable pub extract_uint : List Bytes → Bytes → Option ℕ
unfolding extract_prefixed has_prefix trim_prefix parse_uint
extract_uint tokens key = extract_prefixed (key ++ codes "=") tokens

-- the variables of the loop of `extractReserves`
pub record Reserves : Type 0 where
  pub found : Bool
  pub base_val : ℕ
  pub quote_val : ℕ

-- one of the two tests `if strings.HasPrefix(tok, …)`: the value, or `none` where it is no number
abbrev pub read_value : Bytes → Bytes → ℕ → Option ℕ
read_value tok prefix old =
    if has_prefix tok prefix then parse_uint (trim_prefix tok prefix) else some old

abbrev set_values : Bool → Option ℕ → Option ℕ → Option Reserves
set_values found none quote = none
set_values found (some base) none = none
set_values found (some base) (some quote) =
    some (record { found = found; base_val = base; quote_val = quote })

-- one round of the loop; `none` is the `return 0, 0, false`
unfoldable pub reserve_token : Bytes → Bytes → Reserves → Option Reserves
reserve_token marker tok r =
    let lower = to_lower tok in
    if bytes_beq lower marker || contains lower marker
    then some (record r { found = true })
    else set_values r.found (read_value tok (codes "base=") r.base_val)
        (read_value tok (codes "quote=") r.quote_val)

unfoldable pub reserve_loop : Bytes → List Bytes → Reserves → Option Reserves
reserve_loop marker [] r = some r
reserve_loop marker (tok ∷ tokens) r = elim (reserve_token marker tok r) [
  | none ↦ none
  | some r' ↦ reserve_loop marker tokens r'
]

-- `extractReserves`
unfoldable pub extract_reserves : List Bytes → Bytes → Option (ℕ × ℕ)
unfolding reserve_loop reserve_token to_lower bytes_beq contains has_prefix trim_prefix parse_uint
extract_reserves tokens marker =
    elim (reserve_loop marker tokens (record { found = false; base_val = 0; quote_val = 0 })) [
      | none ↦ none
      | some r ↦
          if not r.found || r.base_val == 0 && r.quote_val == 0
          then none
          else some (r.base_val, r.quote_val)
    ]

abbrev set_fee : Option ℕ → SwapEvent → SwapEvent
set_fee none event = event
set_fee (some fee) event = record event { fee_bps = fee % 2 ^ 32 }

abbrev set_virtual : Option (ℕ × ℕ) → SwapEvent → SwapEvent
set_virtual none event = event
set_virtual (some (base, quote)) event = record event {
  virtual_reserves_base = base;
  virtual_reserves_quote = quote;
}

abbrev set_real : Option (ℕ × ℕ) → SwapEvent → SwapEvent
set_real none event = event
set_real (some (base, quote)) event = record event {
  real_reserves_base = base;
  real_reserves_quote = quote;
}

-- one round of the loop of `applyLogMetadata`, on the tokens of a line
unfoldable pub apply_line : PoolKind → List Bytes → SwapEvent → SwapEvent
apply_line kind [] event = event
apply_line dlmm (tok ∷ tokens) event =
    set_virtual (extract_reserves (tok ∷ tokens) (codes "virtual_reserves"))
      (set_fee (extract_uint (tok ∷ tokens) (codes "fee_bps")) event)
apply_line cpmm (tok ∷ tokens) event =
    set_real (extract_reserves (tok ∷ tokens) (codes "cpmm_reserves"))
      (set_fee (extract_uint (tok ∷ tokens) (codes "fee_bps")) event)

-- `applyLogMetadata`
unfoldable pub apply_log_metadata : PoolKind → List Bytes → SwapEvent → SwapEvent
apply_log_metadata kind [] event = event
apply_log_metadata kind (line ∷ lines) event =
    apply_log_metadata kind lines (apply_line kind (tokenize line) event)
