-- ===== src/TxMeta.antt =====
-- ingestor/common/txmeta.go: the canonical metadata of a transaction. `encode` is `base58.Encode`.
use lp_indexer.Prelude.{ℕ, not, String, Option, none, some}
use lp_indexer.Prelude.Bytes.{Bytes}
use lp_indexer.Dex.{TxMeta}
use lp_indexer.Yellowstone.{TransactionStatusMeta, TransactionInfo, TransactionUpdate}

module _ (encode : Bytes → String) where
  unfoldable pub convert_meta : ℕ → Bytes → Option TransactionStatusMeta → Option TxMeta
  convert_meta slot signature none = none
  convert_meta slot signature (some meta) = some (record {
    chain_id = 501;
    slot = slot;
    sig = encode signature;
    success = not meta.failed;
    cu_used = meta.compute_units_consumed;
    cu_price = 0;
    log_msgs = meta.log_messages;
  })

  unfoldable pub convert_info : ℕ → Option TransactionInfo → Option TxMeta
  unfolding convert_meta
  convert_info slot none = none
  convert_info slot (some info) = convert_meta slot info.signature info.meta

  -- `ConvertTxMeta`; nil is `none`
  unfoldable pub convert_tx_meta : Option TransactionUpdate → Option TxMeta
  unfolding convert_info
  convert_tx_meta none = none
  convert_tx_meta (some tx) = convert_info tx.slot tx.transaction
