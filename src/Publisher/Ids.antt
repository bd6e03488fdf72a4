-- ===== src/Publisher/Ids.antt =====
-- Which swaps share a message id.
use lp_indexer.Prelude.{ℕ, ◌≡◌, refl, String, some, List, [], ◌∷◌, ok, All}
use lp_indexer.Prelude.Bytes.{Bytes, codes}
use lp_indexer.Prelude.Decimal.{
  to_decimal, to_decimal-injective, to_decimal-NoColon, NoColon, append-colon-injective,
}
use lp_indexer.Dex.{SwapEvent}
use lp_indexer.Yellowstone.{TransactionInfo, Transaction, TransactionUpdate}
use lp_indexer.SwapDecoder.State.{Decoder}
use lp_indexer.SwapDecoder.Decode.{Env, decode_transaction}
use lp_indexer.SwapDecoder.Events.{IsOf, decode_transaction-IsOf}
use lp_indexer.Processor.State.{swap_published}
use lp_indexer.Processor.Slots.{final, undo}
use lp_indexer.Publisher.{msg_id}

-- Two swaps whose signatures hold no colon have the same message id only where their slots, their
-- signatures and their indices are the same.
pub msg_id-injective :
    (a b : SwapEvent)
    → NoColon (codes a.sig)
    → NoColon (codes b.sig)
    → msg_id (swap_published a) ≡ msg_id (swap_published b)
    → (a.slot ≡ b.slot) × (codes a.sig ≡ codes b.sig) × (a.index ≡ b.index)
unfolding msg_id
msg_id-injective a b na nb h =
    let (_, tail) =
      append-colon-injective (codes "501") (codes "501") _ _ (refl, (refl, (refl, tt)))
        (refl, (refl, (refl, tt))) h in
    let (slots, tail') =
      append-colon-injective (to_decimal a.slot) (to_decimal b.slot) _ _ (to_decimal-NoColon a.slot)
        (to_decimal-NoColon b.slot) tail in
    let (sigs, indices) = append-colon-injective (codes a.sig) (codes b.sig) _ _ na nb tail' in
    (to_decimal-injective a.slot b.slot slots, sigs, to_decimal-injective a.index b.index indices)

-- A swap has this message id in each of its three forms.
pub record SharesId (id : Bytes) (e : SwapEvent) : Type 0 where
  pub provisional : msg_id (swap_published e) ≡ id
  pub finalized : msg_id (swap_published (final e)) ≡ id
  pub undone : msg_id (swap_published (undo e)) ≡ id

IsOf-SharesId :
    (slot : ℕ) (sig : String) (index : ℕ) (a e : SwapEvent)
    → IsOf slot sig index a
    → IsOf slot sig index e
    → SharesId (msg_id (swap_published a)) e
unfolding msg_id
IsOf-SharesId slot sig index a e is_a is_e =
    let same : msg_id (swap_published e) ≡ msg_id (swap_published a) =
      rw (is_a.at_slot, is_a.signed, is_a.at_index, is_e.at_slot, is_e.signed, is_e.at_index)
        refl in
    record { provisional = same; finalized = same; undone = same }

All-SharesId :
    (slot : ℕ) (sig : String) (index : ℕ) (a : SwapEvent) (events : List SwapEvent)
    → IsOf slot sig index a
    → All (IsOf slot sig index) events
    → All (SharesId (msg_id (swap_published a))) events
All-SharesId slot sig index a [] is_a all = tt
All-SharesId slot sig index a (e ∷ events) is_a all =
    (IsOf-SharesId slot sig index a e is_a all.0, All-SharesId slot sig index a events is_a all.1)

-- All the swaps decoded from one transaction, in their provisional, their final and their undone form,
-- have the message id of the first of them.
pub decode_transaction-SharesId :
    (env : Env) (d : Decoder) (update : TransactionUpdate) (info : TransactionInfo)
    (tx : Transaction) (e : SwapEvent) (events : List SwapEvent)
    → update.transaction ≡ some info
    → info.transaction ≡ some tx
    → decode_transaction env d (some update) ≡ ok (e ∷ events)
    → All (SharesId (msg_id (swap_published e))) (e ∷ events)
decode_transaction-SharesId env d update info tx e events has_info has_tx h =
    let all = decode_transaction-IsOf env d update info tx has_info has_tx h in
    All-SharesId _ _ _ e (e ∷ events) all.0 all
