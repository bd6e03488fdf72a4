-- ===== src/Publisher.antt =====
-- sinks/nats/publisher.go: the subject and the message id of each publication. The texts are lists of
-- ASCII bytes; the connection, the marshalling and the timeout are the NATS client's.
pub mod Ids
pub mod Settings
pub mod Outputs
pub mod Routes
use lp_indexer.Prelude.{
  ℕ, Bool, true, false, String, Option, none, some, List, [], ◌∷◌, ◌++◌, take, ltb, ◌==◌, ◌||◌,
  nat_eq, string_eq, length, if◌then◌else◌,
}
use lp_indexer.Prelude.Bytes.{Bytes, codes, to_lower}
use lp_indexer.Prelude.Decimal.{to_decimal}
use lp_indexer.Prelude.Maps.{lookup}
use lp_indexer.Dex.{SwapEvent, BlockHead, TxMeta}
use lp_indexer.Processor.State.{Publication, swap_published, head_published, meta_published}

-- `programSubjectAliases`
abbrev pub program_subject_aliases : List (String × Bytes)
program_subject_aliases =
    ("CAMMCzo5YL8w4VFF8KVHrK22GGUsp5VTaW7grrKgrWqK", codes "raydium")
    ∷ ("whirLbMiicVdio4qvUfM5KAg6Ct8VwpYzGff3uctyCc", codes "orca")
    ∷ ("METoRa111111111111111111111111111111111111111", codes "meteora")
    ∷ []

-- the closure of `strings.Map`, which drops the characters that a subject may not hold
abbrev pub is_reserved : ℕ → Bool
is_reserved c = c == b'.' || c == b' ' || c == b'*' || c == b'>'

unfoldable pub clean : Bytes → Bytes
clean [] = []
clean (c ∷ s) = if is_reserved c then clean s else c ∷ clean s

-- `if len(cleaned) > 16 { cleaned = cleaned[:16] }`
abbrev cut_16 : Bytes → Bytes
cut_16 s = if ltb 16 (length s) then take 16 s else s

abbrev alias_or : Bytes → Option Bytes → Bytes
alias_or s none = s
alias_or s (some alias) = alias

-- `programSegment`
unfoldable pub program_segment : String → Bytes
unfolding clean to_lower lookup
program_segment program_id =
    if program_id == ""
    then codes "unknown"
    else alias_or (to_lower (cut_16 (clean (codes program_id))))
        (lookup program_id program_subject_aliases)

-- the subjects of `PublishSwap`, `PublishBlockHead` and `PublishTxMeta`
unfoldable pub subject : Bytes → Publication → Bytes
unfolding program_segment
subject root (swap_published e) =
    root ++ (codes "." ++ (program_segment e.program_id ++ codes ".swap"))
subject root (head_published head) = root ++ codes ".blocks.head"
subject root (meta_published meta) = root ++ codes ".tx.meta"

-- their message ids, under which JetStream drops what it has seen
unfoldable pub msg_id : Publication → Bytes
msg_id (swap_published e) =
    codes "501" ++ b':' ∷ (to_decimal e.slot ++ b':' ∷ (codes e.sig ++ b':' ∷ to_decimal e.index))
msg_id (head_published head) = codes "501" ++ b':' ∷ to_decimal head.slot
msg_id (meta_published meta) = codes "501" ++ b':' ∷ (to_decimal meta.slot ++ b':' ∷ codes meta.sig)
