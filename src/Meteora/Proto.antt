-- ===== src/Meteora/Proto.antt =====
-- decoder/meteora/proto.go: the canonical event of a Meteora swap, and how it compares with the one that
-- ingestor/decoder/decoder.go builds.
use lp_indexer.Prelude.{
  ◌≡◌, ◌≢◌, refl, true, false, Option, none, some, ◌==◌, nat_eq, string_eq, if◌then◌else◌,
  Bool-cases, inl, inr,
}
use lp_indexer.Dex
use lp_indexer.Meteora.Types.{SwapEvent}
use lp_indexer.SwapDecoder.Swaps.{TxContext, convert_meteora_swap}

-- `ToProto`, of an event that is not nil
unfoldable pub proto_of : SwapEvent → Dex.SwapEvent
proto_of e =
    let msg : Dex.SwapEvent = record {
      chain_id = 501;
      slot = e.slot;
      sig = e.signature;
      index = 0;
      program_id =
          if e.program_id == ""
          then "cpamdpZCGKUy5JxQXB4dcpGPiikHawvSWAd6mEn1sGG"
          else e.program_id;
      pool_id = e.pool;
      mint_base = e.mint_base;
      mint_quote = e.mint_quote;
      dec_base = e.dec_base;
      dec_quote = e.dec_quote;
      base_in = 0;
      base_out = 0;
      quote_in = 0;
      quote_out = 0;
      sqrt_price_q64_pre = 0;
      sqrt_price_q64_post = 0;
      reserves_base = 0;
      reserves_quote = 0;
      fee_bps = e.fee_bps;
      provisional = true;
      is_undo = false;
    } in
    if e.base_decreased
    then record msg { base_out = e.base_amount; quote_in = e.quote_amount }
    else record msg { base_in = e.base_amount; quote_out = e.quote_amount }

-- `ToProto`
unfoldable pub to_proto : Option SwapEvent → Option Dex.SwapEvent
to_proto none = none
to_proto (some e) = some (proto_of e)

-- the decoder's event is that of `ToProto`, but for the index and the reserves
pub convert_meteora_swap-proto_of :
    (tx : TxContext) (e : SwapEvent)
    → e.slot ≡ tx.slot
    → e.signature ≡ tx.signature
    → e.program_id ≢ ""
    → let ev = convert_meteora_swap tx e.program_id e in
      record ev { index = 0; reserves_base = 0; reserves_quote = 0 } ≡ proto_of e
unfolding convert_meteora_swap proto_of
convert_meteora_swap-proto_of tx e slot sig named = elim (Bool-cases (e.program_id == "")) [
  | inl blank ↦ absurd (named ((string_eq.beq_iff e.program_id "").0 blank))
  | inr name ↦ elim (Bool-cases e.base_decreased) [
    | inl down ↦ simp (name, down, slot, sig) refl
    | inr up ↦ simp (name, up, slot, sig) refl
  ]
]
