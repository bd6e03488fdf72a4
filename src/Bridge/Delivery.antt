-- ===== src/Bridge/Delivery.antt =====
-- The bridge forwards every message that it acknowledges, in order.
pub mod Loop
use mathlib.Core.List.{append_assoc, append-nil}
use mathlib.Core.Path.{sym, ap, ◌∙◌, subst}
use lp_indexer.Prelude.{
  ℕ, zero, suc, ◌+◌, ◌<◌, ◌≤◌, ◌≡◌, refl, ◌⊎◌, inl, inr, Bool, true, false, Option, none, some,
  List, [], ◌∷◌, ◌++◌, arith, length, take, length-append, Bool-cases, Option-cases, if◌then◌else◌,
}
use lp_indexer.Prelude.Bytes.{Bytes}
use lp_indexer.Bridge.Service.{
  Msg, Service, ServiceError, canceled, publish_failed, unexpected_stream, ack_failed,
  drop_ack_failed, fetch_failed, stream_of, Net, Round, context_done, timeout, fetch_error, batch,
  PublishResult, failed, accepted, ack_message, drop_message, confirm, on_published, forward_to,
  forward, forward_all, consume_loop, and_then, is_other,
}

module _ (net : Net) where
  abbrev copy : Msg → Option Bytes → List Msg
  copy msg none = []
  copy msg (some mapped) = record msg { subject = mapped } ∷ []

  -- what the target should hold of some messages: each that the mapper does not drop, with the
  -- subject mapped and all else kept
  abbrev pub copies : List Msg → List Msg
  copies [] = []
  copies (msg ∷ msgs) = copy msg (net.mapper msg.subject) ++ copies msgs

  pub copies-append : (a b : List Msg) → copies (a ++ b) ≡ copies a ++ copies b
  copies-append [] b = refl
  copies-append (msg ∷ a) b =
      ap (λ l. copy msg (net.mapper msg.subject) ++ l) (copies-append a b)
      ∙ sym (append_assoc (copy msg (net.mapper msg.subject)) (copies a) (copies b))

  -- All messages are acknowledged and their copies are at the target, in order; or the run stopped
  -- with an error at a message that is not acknowledged, all before it acknowledged and copied.
  pub record Stopped (msgs : List Msg) (s : Service) (r : Option ServiceError × Service)
      : Type 0 where
    pub count : ℕ
    pub within : count ≤ length msgs
    pub error : ServiceError
    pub returned : r.0 ≡ some error
    pub acked : r.1.acked ≡ s.acked ++ take count msgs
    pub log :
        (r.1.log ≡ s.log ++ copies (take count msgs))
        ⊎ count < length msgs × (r.1.log ≡ s.log ++ copies (take (suc count) msgs))

  pub record Done (msgs : List Msg) (s : Service) (r : Option ServiceError × Service) : Type 0 where
    pub returned : r.0 ≡ none
    pub acked : r.1.acked ≡ s.acked ++ msgs
    pub log : r.1.log ≡ s.log ++ copies msgs

  abbrev pub Progress : List Msg → Service → Option ServiceError × Service → Type 0
  Progress msgs s r = Done msgs s r ⊎ Stopped msgs s r

  drop_message-Progress :
      (msg : Msg) (s : Service)
      → net.mapper msg.subject ≡ none
      → Progress (msg ∷ []) s (drop_message net msg s)
  unfolding drop_message ack_message
  drop_message-Progress msg s none_left = elim (Bool-cases (net.ack s.acks msg)) [
    | inl acked ↦ rw acked (
        inl (record { returned = refl; acked = refl; log = rw none_left (sym (append-nil s.log)) }))
    | inr refused ↦ rw refused (
        inr (record {
          count = 0;
          within = omega arith;
          error = drop_ack_failed;
          returned = refl;
          acked = sym (append-nil s.acked);
          log = inl (sym (append-nil s.log));
        }))
  ]

  confirm-Progress :
      (msg : Msg) (mapped : Bytes) (s s' : Service)
      → net.mapper msg.subject ≡ some mapped
      → s'.log ≡ s.log ++ record msg { subject = mapped } ∷ []
      → s'.acked ≡ s.acked
      → Progress (msg ∷ []) s (confirm net msg mapped s')
  unfolding confirm ack_message
  confirm-Progress msg mapped s s' maps stored kept = elim (Bool-cases (net.ack s'.acks msg)) [
    | inl acked ↦ rw acked (
        inl
          (record { returned = refl; acked = ap (λ l. l ++ msg ∷ []) kept; log = rw maps stored }))
    | inr refused ↦ rw refused (
        inr (record {
          count = 0;
          within = omega arith;
          error = ack_failed;
          returned = refl;
          acked = kept ∙ sym (append-nil s.acked);
          log = inr (omega arith, rw maps stored);
        }))
  ]

  on_published-Progress :
      (msg : Msg) (mapped : Bytes) (result : PublishResult) (s : Service)
      → net.mapper msg.subject ≡ some mapped
      → Progress (msg ∷ []) s (on_published net msg mapped result s)
  unfolding on_published
  on_published-Progress msg mapped (failed is_canceled) s maps = inr (record {
    count = 0;
    within = omega arith;
    error = if is_canceled then canceled else publish_failed mapped;
    returned = refl;
    acked = sym (append-nil s.acked);
    log = inl (sym (append-nil s.log));
  })
  on_published-Progress msg mapped (accepted stream) s maps =
      elim (Bool-cases (is_other net.target_stream stream)) [
        | inl other ↦ rw other (
            inr (record {
              count = 0;
              within = omega arith;
              error = unexpected_stream mapped (stream_of stream);
              returned = refl;
              acked = sym (append-nil s.acked);
              log = inr (omega arith, rw maps refl);
            }))
        | inr same ↦ rw same (confirm-Progress msg mapped s _ maps refl refl)
      ]

  pub forward-Progress : (msg : Msg) (s : Service) → Progress (msg ∷ []) s (forward net msg s)
  unfolding forward forward_to
  forward-Progress msg s = elim (Option-cases (net.mapper msg.subject)) [
    | inl none_left ↦ rw none_left (drop_message-Progress msg s none_left)
    | inr (mapped, maps) ↦ rw maps (
        on_published-Progress msg mapped (net.publish s.published (record msg { subject = mapped }))
          s maps)
  ]
