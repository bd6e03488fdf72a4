-- ===== src/Tests/Ingest.antt =====
-- ingestor: a Raydium pool, its configuration, a swap in it, and the slot's end.
use lp_indexer.Prelude.{
  ℕ, zero, suc, ◌≡◌, ◌++◌, refl, true, false, String, List, [], ◌∷◌, Option, none, some, ok, length,
  All, string_eq, if◌then◌else◌, ◌==◌, nat_eq,
}
use lp_indexer.Prelude.Maps.{lookup, insert, erase, remove_if}
use lp_indexer.Prelude.Words.{le_word, le_bytes}
use lp_indexer.Prelude.Bytes.{Bytes, codes, parse_uint, to_lower}
use lp_indexer.Canonical.Pair.{initial}
use lp_indexer.Dex.{SwapEvent}
use lp_indexer.SlotCache
use lp_indexer.Yellowstone.{
  TokenBalance, TransactionInfo, Transaction, TransactionUpdate, AccountUpdate, SubscribeUpdate,
  transaction_update, slot_update, slot_finalized,
}
use lp_indexer.Raydium.Instruction
use lp_indexer.Raydium.Instruction.{SwapInstruction, read_instruction, parse_swap_instruction}
use lp_indexer.Raydium.Instruction.RoundTrip
use lp_indexer.Raydium.Swap.{parse_swap_event}
use lp_indexer.Pools.Raydium.{
  pool_state_discriminator, amm_config_discriminator, equal_discriminator, has_pool_discriminator,
  has_amm_config_discriminator, decode_raydium_pool, decode_amm_config,
}
use lp_indexer.Meteora.Types.{program_kinds, program_kind_for_id}
use lp_indexer.TxMeta.{convert_meta, convert_info, convert_tx_meta}
use lp_indexer.SwapDecoder.State
use lp_indexer.SwapDecoder.State.{
  classify, index_pool, index_config, set_pool_fees, index_account, handle_raydium_account,
  handle_owned, handle_info, handle_account,
}
use lp_indexer.SwapDecoder.Fees.{handle_accounts, handle_accounts-fees}
use lp_indexer.SwapDecoder.Vaults.{
  parse_amount, pre_loop, post_loop, owner_loop, extract_vault_balances, find_pool, matching,
  ordered, two_vaults, resolve_pool,
}
use lp_indexer.SwapDecoder.Swaps.{convert_raydium_swap, raydium_swap_of, build_raydium_swap}
use lp_indexer.SwapDecoder.Decode.{
  Env, encode_signature, lookup_slot_timestamp, build_swap, build_at, decode_loop, decode_message,
  decode_info, decode_transaction,
}
use lp_indexer.SwapDecoder.Events.{IsOf, decode_transaction-IsOf}
use lp_indexer.Processor.State.{
  new_processor, publish, record_swap, count_swap, append_pending, pending_at,
}
use lp_indexer.Processor.Slots.{
  settle_loop, finalize_slot, publish_block_head_status, publish_status, on_status, handle_slot,
}
use lp_indexer.Processor.Updates.{
  event_loop, publish_events, on_decoded, handle_transaction, handle_update,
}
use lp_indexer.Prelude.Decimal.{to_decimal, decimal_loop}
use lp_indexer.Publisher.{program_segment, clean, subject, msg_id}
use lp_indexer.Publisher.Ids.{SharesId, decode_transaction-SharesId}
use lp_indexer.Processor.State.{Processor, swap_published, publish_final_failed}
use lp_indexer.Processor.Slots.{final}
use lp_indexer.Processor.Settled.{SettlesSlot, finalize_slot-Settles}
use lp_indexer.Processor.Log.{Justify}
use lp_indexer.Processor.Safety.Updates.{run_updates, run_updates-Justify}

-- the addresses of the test, by their first byte
abbrev encode : Bytes → String
encode [] = ""
encode (b ∷ _) =
    if b == 1
    then Instruction.program_id
    else if b == 2
    then "pool"
    else if b == 3
    then "vault_a"
    else if b == 4
    then "vault_b"
    else "config"

abbrev zeros : ℕ → Bytes
zeros zero = []
zeros (suc n) = 0 ∷ zeros n

abbrev account : Bytes → Bytes → Option AccountUpdate
account key payload = some (record {
  slot = 7;
  account = some (record { owner = 1 ∷ []; pubkey = key; payload = payload });
})

-- a pool of the configuration, and the configuration with its fee of 25 basis points
abbrev pool_update : Option AccountUpdate
pool_update = account (2 ∷ []) (pool_state_discriminator ++ zeros 33)

abbrev config_update : Option AccountUpdate
config_update = account (9 ∷ []) (amm_config_discriminator ++ zeros 39 ++ 196 ∷ 9 ∷ 0 ∷ 0 ∷ [])

accounts : Unit {0}
unfolding State.new SlotCache.new le_word lookup insert equal_discriminator has_pool_discriminator
    has_amm_config_discriminator decode_raydium_pool decode_amm_config classify index_pool
    index_config set_pool_fees index_account handle_raydium_account handle_owned handle_info
    handle_account handle_accounts
accounts = tt

handle_accounts-fees_example :
    lookup "pool"
      (handle_accounts encode (pool_update ∷ config_update ∷ []) (State.new none)).pool_fees
    ≡ some 25
unfolding accounts
handle_accounts-fees_example =
    handle_accounts-fees encode (pool_update ∷ config_update ∷ []) none "pool" "config" 25 refl refl

abbrev balance : ℕ → String → Bytes → TokenBalance
balance index mint amount = record {
  account_index = index;
  mint = mint;
  owner = "pool";
  ui_token_amount = some (record { amount = amount; decimals = 6 });
}

abbrev instruction : SwapInstruction
instruction = record {
  discriminator = zeros 8;
  amount = 10;
  other_amount_threshold = 0;
  sqrt_price_limit_low = 0;
  sqrt_price_limit_high = 0;
  is_base_input = true;
}

abbrev transaction : Transaction
transaction = record {
  signatures = (2 ∷ []) ∷ [];
  message = some (record {
    account_keys = (1 ∷ []) ∷ (2 ∷ []) ∷ (3 ∷ []) ∷ (4 ∷ []) ∷ [];
    instructions =
        record {
          program_id_index = 0;
          accounts = 1 ∷ 2 ∷ 3 ∷ [];
          payload = RoundTrip.encode instruction;
        }
        ∷ [];
  });
}

abbrev info : TransactionInfo
info = record {
  signature = 2 ∷ [];
  transaction = some transaction;
  meta = some (record {
    failed = false;
    compute_units_consumed = 0;
    pre_token_balances = balance 2 "a" (codes "100") ∷ balance 3 "b" (codes "50") ∷ [];
    post_token_balances = balance 2 "a" (codes "110") ∷ balance 3 "b" (codes "45") ∷ [];
    log_messages = [];
  });
  index = 3;
}

abbrev pub update : TransactionUpdate
update = record { slot = 7; transaction = some info }

abbrev pub env : Env
env = record { encode = encode; registry = initial; kinds = program_kinds; visit = λ l. l }

abbrev pub event : SwapEvent
event = record {
  chain_id = 501;
  slot = 7;
  sig = "pool";
  index = 3;
  program_id = Instruction.program_id;
  pool_id = "pool";
  mint_base = "a";
  mint_quote = "b";
  dec_base = 6;
  dec_quote = 6;
  base_in = 10;
  base_out = 0;
  quote_in = 0;
  quote_out = 5;
  sqrt_price_q64_pre = 0;
  sqrt_price_q64_post = 0;
  reserves_base = 0;
  reserves_quote = 0;
  fee_bps = 0;
  provisional = true;
  is_undo = false;
}

decoding : Unit {0}
unfolding State.new SlotCache.new SlotCache.get RoundTrip.encode le_word le_bytes lookup insert
    parse_uint read_instruction parse_swap_instruction parse_swap_event parse_amount pre_loop
    post_loop owner_loop extract_vault_balances find_pool matching ordered two_vaults resolve_pool
    convert_raydium_swap raydium_swap_of build_raydium_swap encode_signature lookup_slot_timestamp
    build_swap build_at decode_loop decode_message decode_info decode_transaction
decoding = tt

pub decoded : decode_transaction env (State.new none) (some update) ≡ ok (event ∷ [])
unfolding decoding
decoded = refl

decode_transaction-IsOf_example : All (IsOf 7 "pool" 3) (event ∷ [])
unfolding encode_signature
decode_transaction-IsOf_example =
    decode_transaction-IsOf env (State.new none) update info transaction refl refl decoded

abbrev updates : List SubscribeUpdate
updates =
    transaction_update (some update)
    ∷ slot_update (some (record { slot = 7; status = slot_finalized }))
    ∷ []

unfoldable pub processing : Unit {0}
unfolding decoding erase remove_if convert_meta convert_info convert_tx_meta new_processor publish
    record_swap count_swap program_kind_for_id append_pending pending_at settle_loop finalize_slot
    publish_block_head_status publish_status on_status handle_slot event_loop publish_events
    on_decoded handle_transaction handle_update run_updates
processing = tt

-- the metadata, the provisional swap and the final one
three_published :
    (length (run_updates env (λ n m. true) updates (new_processor none)).log ≡ 3)
    × (pending_at 7 (run_updates env (λ n m. true) updates (new_processor none)) ≡ [])
unfolding processing
three_published = (refl, refl)

run_updates-Justify_example :
    Justify [] (run_updates env (λ n m. true) updates (new_processor none)).log
run_updates-Justify_example = run_updates-Justify env (λ n m. true) none updates

publishing : Unit {0}
unfolding to_decimal decimal_loop program_segment clean to_lower lookup subject msg_id
publishing = tt

published_swap :
    (subject (codes "dex.sol") (swap_published event) ≡ codes "dex.sol.raydium.swap")
    × (msg_id (swap_published event) ≡ codes "501:7:pool:3")
unfolding publishing
published_swap = (refl, refl)

decode_transaction-SharesId_example : All (SharesId (msg_id (swap_published event))) (event ∷ [])
decode_transaction-SharesId_example =
    decode_transaction-SharesId env (State.new none) update info transaction event [] refl refl
      decoded

abbrev waiting : Processor
waiting = record (new_processor none) { pending = (7, event ∷ event ∷ []) ∷ [] }

-- a publisher that refuses the second publication
finalize_slot-Settles_example :
    SettlesSlot final publish_final_failed 7 waiting
      (finalize_slot program_kinds (λ n m. n == 0) 7 waiting)
finalize_slot-Settles_example = finalize_slot-Settles program_kinds (λ n m. n == 0) 7 waiting
