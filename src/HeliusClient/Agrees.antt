-- ===== src/HeliusClient/Agrees.antt =====
-- The Helius client sends what the processor of the Geyser service publishes of the same updates.
use mathlib.Core.List.{append_assoc}
use mathlib.Core.Path.{sym, ap, ◌∙◌}
use lp_indexer.Prelude.{ℕ, ◌≡◌, refl, Bool, Option, none, some, List, [], ◌∷◌, ◌++◌, map}
use lp_indexer.Yellowstone.{SubscribeUpdate}
use lp_indexer.SwapDecoder.Decode.{Env}
use lp_indexer.Processor.State.{Processor}
use lp_indexer.Processor.Updates.{handle_update}
use lp_indexer.HeliusClient.Updates.{
  publication, always, taken, Follows, IsDecodable, nothing-Follows, update-Follows,
}
use lp_indexer.Processor.Safety.Updates.{run_updates}
use lp_indexer.Stream.Helius.{extract_slot}
use lp_indexer.HeliusClient.{
  Event, stream_update, report_result, on_update, beat, event_loop, Update, Client, ClientError,
  handle_subscribe_update,
}

map-append : (a b : List Update) → map publication (a ++ b) ≡ map publication a ++ map publication b
map-append [] b = refl
map-append (u ∷ a) b = ap (λ l. publication u ∷ l) (map-append a b)

Follows-then :
    (c c' c'' : Client) (p p' p'' : Processor)
    → Follows c c' p p'
    → Follows c' c'' p' p''
    → Follows c c'' p p''
Follows-then c c' c'' p p' p'' first rest = record {
  decoders = rest.decoders;
  new = first.new ++ rest.new;
  sent = rest.sent ∙ ap (λ l. l ++ rest.new) first.sent ∙ append_assoc c.sent first.new rest.new;
  log =
      rest.log
      ∙ ap (λ l. l ++ map publication rest.new) first.log
      ∙ append_assoc p.log (map publication first.new) (map publication rest.new)
      ∙ ap (λ l. p.log ++ l) (sym (map-append first.new rest.new));
}

-- the events of some updates at their times, and the updates
abbrev pub timed : List (ℕ × SubscribeUpdate) → List Event
timed updates = map (λ t. stream_update t.0 t.1) updates

abbrev pub untimed : List (ℕ × SubscribeUpdate) → List SubscribeUpdate
untimed updates = map (λ t. t.1) updates

module _ (env : Env) (has_room : ℕ → Bool) where
  -- the result of an update reported to the channel of errors
  report_result-Follows :
      (room : Bool) (c : Client) (p p' : Processor) (r : Option ClientError × Client)
      → Follows c r.1 p p'
      → Follows c (report_result env taken room r) p p'
  report_result-Follows room c p p' (none, c') f = f
  report_result-Follows room c p p' (some e, c') f = record {
    decoders = f.decoders;
    new = f.new;
    sent = f.sent;
    log = f.log;
  }

  on_update-Follows :
      (now : ℕ) (u : SubscribeUpdate) (c : Client) (p : Processor)
      → c.decoder ≡ p.decoder
      → IsDecodable env p.decoder u
      → Follows c (on_update env taken has_room now u c) p (handle_update env always u p).1
  unfolding on_update
  on_update-Follows now u c p same h =
      let beating = record c { health = beat env taken now (extract_slot u) c.health } in
      let f = update-Follows env u beating p same h in
      report_result-Follows (has_room c.tried) c p (handle_update env always u p).1
        (handle_subscribe_update env taken u beating)
        (record { decoders = f.decoders; new = f.new; sent = f.sent; log = f.log })

  -- each update is no status of a slot and can be decoded when its turn comes
  abbrev pub AllDecodable : Processor → List (ℕ × SubscribeUpdate) → Type 0
  AllDecodable p [] = Unit
  AllDecodable p ((now, u) ∷ rest) =
      IsDecodable env p.decoder u × AllDecodable (handle_update env always u p).1 rest

  -- For updates that hold no slot's status and can be decoded, with the same decoder at the start: the
  -- Helius client whose sends all find a reader sends exactly the block heads, transactions' metadata and
  -- swaps that the processor with a publisher that accepts all publishes, in the same order, and both
  -- have the same decoder after.
  pub event_loop-run_updates :
      (updates : List (ℕ × SubscribeUpdate)) (c : Client) (p : Processor)
      → c.decoder ≡ p.decoder
      → AllDecodable p updates
      → Follows c
          (event_loop env taken has_room (timed updates) c).1
          p
          (run_updates env always (untimed updates) p)
  unfolding event_loop run_updates
  event_loop-run_updates [] c p same h = nothing-Follows env c p same
  event_loop-run_updates ((now, u) ∷ rest) c p same (h, more) =
      let first = on_update-Follows now u c p same h in
      let c' = on_update env taken has_room now u c in
      let p' = (handle_update env always u p).1 in
      Follows-then c c' (event_loop env taken has_room (timed rest) c').1 p p'
        (run_updates env always (untimed rest) p') first
        (event_loop-run_updates rest c' p' first.decoders more)
