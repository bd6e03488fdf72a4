-- ===== src/SwapDecoder/Events.antt =====
-- What the events of one transaction have in common, and what their amounts say.
use lp_indexer.Prelude.{
  ℕ, ◌%◌, ◌^◌, ◌≡◌, refl, true, false, String, Option, none, some, List, [], ◌∷◌, Result, ok,
  >>=-eq-ok, wrap_err, wrap_err-eq-ok, nat_eq, string_eq, get_elem?, arith, All, All-append, inl,
  inr, Option-cases, ◌∙◌, ap,
}
use lp_indexer.Prelude.{ok-injective, ◌∙◌, ap}
use mathlib.Core.Path.{subst}
use lp_indexer.Prelude.Maps.{lookup}
use lp_indexer.SwapDecoder.Swaps.{fee_or_zero}
use lp_indexer.Dex.{SwapEvent}
use lp_indexer.Raydium.Swap
use lp_indexer.Raydium.Instruction.{parse_swap_instruction}
use lp_indexer.Raydium.Swap.{parse_swap_event}
use lp_indexer.Meteora.Types
use lp_indexer.Meteora.Types.{PoolKind, program_kind_for_id}
use lp_indexer.Meteora.Decoder.{decode_swap_event}
use lp_indexer.Pools.Orca.{OrcaPoolInfo}
use lp_indexer.Yellowstone.{
  CompiledInstruction, TransactionStatusMeta, Transaction, TransactionInfo, TransactionUpdate,
}
use lp_indexer.SwapDecoder.State.{Decoder}
use lp_indexer.SwapDecoder.Vaults.{VaultBalance, resolve_pool}
use lp_indexer.SwapDecoder.Swaps.{
  TxContext, orca_of_vaults, orca_of_pool, orca_of_address, orca_of_index, raydium_instruction,
  raydium_swap, meteora_swap, convert_raydium_swap, raydium_swap_of, build_raydium_swap, orca_event,
  orca_amounts, build_orca_swap, convert_meteora_swap, build_meteora_swap, instruction_context,
  swap_context,
}
use lp_indexer.SwapDecoder.Decode.{
  Env, DecodeError, build_other, build_swap, build_at, add_event, decode_loop, decode_message,
  decode_info, decode_transaction, encode_signature, tx_context,
}

-- The fields by which an event is known downstream, and its life cycle's flags: as in any event of
-- the transaction with this slot, signature and index.
pub record IsOf (slot : ℕ) (sig : String) (index : ℕ) (e : SwapEvent) : Type 0 where
  pub chain : e.chain_id ≡ 501
  pub at_slot : e.slot ≡ slot
  pub signed : e.sig ≡ sig
  pub at_index : e.index ≡ index % 2 ^ 32
  pub is_provisional : e.provisional ≡ true
  pub is_no_undo : e.is_undo ≡ false

abbrev IsOfTx : TxContext → SwapEvent → Type 0
IsOfTx tx = IsOf tx.slot tx.signature tx.index

convert_raydium_swap-IsOf :
    (tx : TxContext) (ev : Swap.SwapEvent) (fee : ℕ) → IsOfTx tx (convert_raydium_swap tx ev fee)
unfolding convert_raydium_swap
convert_raydium_swap-IsOf tx ev fee = ground arith

convert_meteora_swap-IsOf :
    (tx : TxContext) (program : String) (ev : Types.SwapEvent)
    → IsOfTx tx (convert_meteora_swap tx program ev)
unfolding convert_meteora_swap
convert_meteora_swap-IsOf tx program ev = ground arith

module _ (tx : TxContext) {e : SwapEvent} where
  orca_event-IsOf :
      (pool : String) (info : OrcaPoolInfo) (a b : VaultBalance)
      → orca_event tx pool info a b ≡ some e
      → IsOfTx tx e
  unfolding orca_event orca_amounts
  orca_event-IsOf pool info a b h = ground arith

  orca_of_vaults-IsOf :
      (pool : String) (info : OrcaPoolInfo) (vs : Option VaultBalance × Option VaultBalance)
      → orca_of_vaults tx pool info vs ≡ some e
      → IsOfTx tx e
  orca_of_vaults-IsOf pool info (some a, some b) h = orca_event-IsOf pool info a b h
  orca_of_vaults-IsOf pool info (some a, none) h = absurd (ground arith)
  orca_of_vaults-IsOf pool info (none, b) h = absurd (ground arith)

  orca_of_pool-IsOf :
      (pool : String) (info : Option OrcaPoolInfo)
      → orca_of_pool tx pool info ≡ some e
      → IsOfTx tx e
  orca_of_pool-IsOf pool none h = absurd (ground arith)
  orca_of_pool-IsOf pool (some info) h = orca_of_vaults-IsOf pool info _ h

  orca_of_address-IsOf :
      (d : Decoder) (addr : Option String) → orca_of_address d tx addr ≡ some e → IsOfTx tx e
  orca_of_address-IsOf d none h = absurd (ground arith)
  orca_of_address-IsOf d (some pool) h = orca_of_pool-IsOf pool _ h

  orca_of_index-IsOf :
      (d : Decoder) (idx : Option ℕ) → orca_of_index d tx idx ≡ some e → IsOfTx tx e
  orca_of_index-IsOf d none h = absurd (ground arith)
  orca_of_index-IsOf d (some idx) h = orca_of_address-IsOf d _ h

  module _ (d : Decoder) (instr : CompiledInstruction) where
    build_orca_swap-IsOf : build_orca_swap d tx instr ≡ ok (some e) → IsOfTx tx e
    unfolding build_orca_swap
    build_orca_swap-IsOf h = orca_of_index-IsOf d (get_elem? instr.accounts 2) (cc)

    raydium_swap_of-IsOf :
        (pool : String) (a b : VaultBalance)
        → raydium_swap_of d tx instr.payload pool a b ≡ ok (some e)
        → IsOfTx tx e
    unfolding raydium_swap_of
    raydium_swap_of-IsOf pool a b h =
        let (instruction, _, h1) =
          >>=-eq-ok (wrap_err raydium_instruction (parse_swap_instruction instr.payload)) _ h in
        let ctx = some (swap_context tx pool a b) in
        let (event, _, h2) =
          >>=-eq-ok (wrap_err raydium_swap (parse_swap_event (some instruction) ctx)) _ h1 in
        let fee = fee_or_zero (lookup pool d.pool_fees) in
        ground (arith, h2, convert_raydium_swap-IsOf tx event fee)

    build_raydium_swap-IsOf : build_raydium_swap d tx instr ≡ ok (some e) → IsOfTx tx e
    unfolding build_raydium_swap
    build_raydium_swap-IsOf h = elim (Option-cases (resolve_pool instr tx.accounts tx.vaults)) [
      | inl missing ↦ absurd (ground arith)
      | inr ((pool, a, b), found) ↦ raydium_swap_of-IsOf pool a b (ground arith)
    ]

    module _ (env : Env) (meta : TransactionStatusMeta) (program : String) where
      build_other-IsOf :
          (kind : Option PoolKind)
          → build_other env d tx meta instr program kind ≡ ok (some e)
          → IsOfTx tx e
      unfolding build_other build_meteora_swap
      build_other-IsOf none h = absurd (ground arith)
      build_other-IsOf (some kind) h =
          let ctx = instruction_context tx instr meta program kind in
          let (event, _, h1) =
            >>=-eq-ok (wrap_err meteora_swap (decode_swap_event env.registry (some ctx))) _ h in
          ground (arith, h1, convert_meteora_swap-IsOf tx program event)

      build_swap-IsOf : build_swap env d tx meta instr program ≡ ok (some e) → IsOfTx tx e
      unfolding build_swap
      build_swap-IsOf h = ground (
        arith,
        build_raydium_swap-IsOf,
        build_orca_swap-IsOf,
        build_other-IsOf (program_kind_for_id env.kinds program),
      )

module _ (env : Env) (d : Decoder) (tx : TxContext) (meta : TransactionStatusMeta) where
  build_at-IsOf :
      (instr : CompiledInstruction) (program : Option String) {e : SwapEvent}
      → build_at env d tx meta instr program ≡ ok (some e)
      → IsOfTx tx e
  unfolding build_at
  build_at-IsOf instr none h = absurd (ground arith)
  build_at-IsOf instr (some program) h =
      build_swap-IsOf tx d instr env meta program (wrap_err-eq-ok _ _ h)

  add_event-IsOf :
      (ev : Option SwapEvent) (events : List SwapEvent)
      → ((e : SwapEvent) → ev ≡ some e → IsOfTx tx e)
      → All (IsOfTx tx) events
      → All (IsOfTx tx) (add_event env d ev events)
  add_event-IsOf none events h all = all
  add_event-IsOf (some ev) events h all = All-append _ events (ev ∷ []) all (h ev refl, tt)

  decode_loop-IsOf :
      (instrs : List CompiledInstruction) (events : List SwapEvent) {out : List SwapEvent}
      → All (IsOfTx tx) events
      → decode_loop env d tx meta instrs events ≡ ok out
      → All (IsOfTx tx) out
  unfolding decode_loop
  decode_loop-IsOf [] events all h = subst (All (IsOfTx tx)) (ok-injective h) all
  decode_loop-IsOf (instr ∷ rest) events all h =
      let at = get_elem? tx.accounts instr.program_id_index in
      let (ev, built, h1) = >>=-eq-ok (build_at env d tx meta instr at) _ h in
      decode_loop-IsOf rest (add_event env d ev events)
        (add_event-IsOf ev events (λ e is. build_at-IsOf instr at (built ∙ ap ok is)) all) h1

module _ (env : Env) (d : Decoder) (slot index : ℕ) (tx : Transaction) where
  abbrev IsOfUpdate : SwapEvent → Type 0
  IsOfUpdate = IsOf slot (encode_signature env.encode tx.signatures) index

  none-IsOf :
      {events : List SwapEvent}
      → ◌≡◌ {A = Result DecodeError (List SwapEvent)} (ok []) (ok events)
      → All IsOfUpdate events
  none-IsOf h = subst (All IsOfUpdate) (ok-injective h) tt

  decode_message-IsOf :
      (meta : Option TransactionStatusMeta) {events : List SwapEvent}
      → decode_message env d slot index meta (some tx) ≡ ok events
      → All IsOfUpdate events
  unfolding decode_message
  decode_message-IsOf none h = none-IsOf h
  decode_message-IsOf (some meta) h = elim (Option-cases tx.message) [
    | inl missing ↦ none-IsOf (ground arith)
    | inr (message, found) ↦
        decode_loop-IsOf env d (tx_context env d slot index meta tx.signatures message) meta
          message.instructions [] tt (ground arith)
  ]

-- All the events that `DecodeTransaction` returns for a transaction carry its slot, its first
-- signature and its index (as a `uint32`), which are all that a message id is made of; and each is
-- provisional and no undo.
pub decode_transaction-IsOf :
    (env : Env) (d : Decoder) (update : TransactionUpdate) (info : TransactionInfo)
    (tx : Transaction) {events : List SwapEvent}
    → update.transaction ≡ some info
    → info.transaction ≡ some tx
    → decode_transaction env d (some update) ≡ ok events
    → All (IsOf update.slot (encode_signature env.encode tx.signatures) info.index) events
unfolding decode_transaction decode_info decode_message
decode_transaction-IsOf env d update info tx has_info has_tx h =
    let read : decode_info env d update.slot update.transaction ≡ ok _ = h in
    let inner : decode_message env d update.slot info.index info.meta info.transaction ≡ ok _ =
      rw has_info at read in
    decode_message-IsOf env d update.slot info.index tx info.meta (rw has_tx at inner)

abbrev pub IsProvisional : SwapEvent → Type 0
IsProvisional e = (e.provisional ≡ true) × (e.is_undo ≡ false)

IsOf-IsProvisional :
    (slot : ℕ) (sig : String) (index : ℕ) (events : List SwapEvent)
    → All (IsOf slot sig index) events
    → All IsProvisional events
IsOf-IsProvisional slot sig index [] all = tt
IsOf-IsProvisional slot sig index (e ∷ events) all =
    ((all.0.is_provisional, all.0.is_no_undo), IsOf-IsProvisional slot sig index events all.1)

module _ (env : Env) (d : Decoder) (slot : ℕ) where
  nothing-IsProvisional :
      {events : List SwapEvent}
      → ◌≡◌ {A = Result DecodeError (List SwapEvent)} (ok []) (ok events)
      → All IsProvisional events
  nothing-IsProvisional h = subst (All IsProvisional) (ok-injective h) tt

  decode_message-IsProvisional :
      (index : ℕ) (meta : Option TransactionStatusMeta) (tx : Option Transaction)
      {events : List SwapEvent}
      → decode_message env d slot index meta tx ≡ ok events
      → All IsProvisional events
  unfolding decode_message
  decode_message-IsProvisional index none tx h = nothing-IsProvisional h
  decode_message-IsProvisional index (some meta) none h = nothing-IsProvisional h
  decode_message-IsProvisional index (some meta) (some tx) {events} h =
      IsOf-IsProvisional slot (encode_signature env.encode tx.signatures) index events
        (decode_message-IsOf env d slot index tx (some meta) h)

  decode_info-IsProvisional :
      (info : Option TransactionInfo) {events : List SwapEvent}
      → decode_info env d slot info ≡ ok events
      → All IsProvisional events
  unfolding decode_info
  decode_info-IsProvisional none h = nothing-IsProvisional h
  decode_info-IsProvisional (some info) h =
      decode_message-IsProvisional info.index info.meta info.transaction h

pub decode_transaction-IsProvisional :
    (env : Env) (d : Decoder) (update : Option TransactionUpdate) {events : List SwapEvent}
    → decode_transaction env d update ≡ ok events
    → All IsProvisional events
unfolding decode_transaction
decode_transaction-IsProvisional env d none h = nothing-IsProvisional env d 0 h
decode_transaction-IsProvisional env d (some update) h =
    decode_info-IsProvisional env d update.slot update.transaction h
