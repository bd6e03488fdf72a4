-- ===== src/Processor/Log.antt =====
-- The publisher's log: what has been published, and which publications an earlier one justifies.
use lp_indexer.Prelude.{◌≡◌, refl, true, false, ◌⊎◌, inl, inr, List, [], ◌∷◌, ◌++◌}
use mathlib.Core.List.{append_assoc, append-nil}
use mathlib.Core.Path.{subst, sym}
use lp_indexer.Dex.{SwapEvent}
use lp_indexer.Processor.State.{Publication, swap_published, head_published, meta_published}

abbrev pub Sent : Publication → List Publication → Type 0
Sent m [] = ⊥
Sent m (x ∷ log) = (x ≡ m) ⊎ Sent m log

pub Sent-append_left :
    (m : Publication) (log more : List Publication) → Sent m log → Sent m (log ++ more)
Sent-append_left m [] more h = elim h [ ]
Sent-append_left m (x ∷ log) more (inl e) = inl e
Sent-append_left m (x ∷ log) more (inr h) = inr (Sent-append_left m log more h)

pub Sent-last : (m : Publication) (log : List Publication) → Sent m (log ++ m ∷ [])
Sent-last m [] = inl refl
Sent-last m (x ∷ log) = inr (Sent-last m log)

-- the provisional event that a final or an undo event settles
abbrev pub provisional_of : SwapEvent → SwapEvent
provisional_of e = record e { provisional = true; is_undo = false }

-- A swap is provisional and no undo, or settles a provisional one that has been published.
abbrev pub Justified : List Publication → Publication → Type 0
Justified log (swap_published e) =
    (e.provisional ≡ true) × (e.is_undo ≡ false)
    ⊎ (e.provisional ≡ false) × Sent (swap_published (provisional_of e)) log
Justified log (head_published head) = Unit
Justified log (meta_published meta) = Unit

-- Each publication of `rest` is justified by `seen` and by what stands before it in `rest`.
abbrev pub Justify : List Publication → List Publication → Type 0
Justify seen [] = Unit
Justify seen (m ∷ rest) = Justified seen m × Justify (seen ++ m ∷ []) rest

pub Justify-append :
    (seen log : List Publication) (m : Publication)
    → Justify seen log
    → Justified (seen ++ log) m
    → Justify seen (log ++ m ∷ [])
Justify-append seen [] m all h = (subst (λ l. Justified l m) (append-nil seen) h, tt)
Justify-append seen (x ∷ log) m all h = (
  all.0,
  Justify-append (seen ++ x ∷ []) log m all.1
      (subst (λ l. Justified l m) (sym (append_assoc seen (x ∷ []) log)) h),
)
