-- ===== src/Orca/Proto.antt =====
-- decoder/orca_whirlpool/proto.go: the canonical event of an Orca swap, whose amounts are not filled in.
use lp_indexer.Prelude.{Option, none, some, true, false}
use lp_indexer.Dex
use lp_indexer.SwapDecoder.State.{whirlpool_program_id}
use lp_indexer.Orca.Swap.{SwapEvent}

-- `ToProto`
unfoldable pub to_proto : {Float : Type 0} → Option (SwapEvent Float) → Option Dex.SwapEvent
to_proto none = none
to_proto (some e) = some (record {
  chain_id = 501;
  slot = e.slot;
  sig = e.signature;
  index = 0;
  program_id = whirlpool_program_id;
  pool_id = e.pool_address;
  mint_base = e.base_asset;
  mint_quote = e.quote_asset;
  dec_base = 0;
  dec_quote = 0;
  base_in = 0;
  base_out = 0;
  quote_in = 0;
  quote_out = 0;
  sqrt_price_q64_pre = 0;
  sqrt_price_q64_post = 0;
  reserves_base = 0;
  reserves_quote = 0;
  fee_bps = 0;
  provisional = true;
  is_undo = false;
})
