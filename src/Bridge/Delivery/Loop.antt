-- ===== src/Bridge/Delivery/Loop.antt =====
-- The runs of `consumeLoop` put together from those of `forward`.
use mathlib.Core.List.{append_assoc, append-nil}
use mathlib.Core.Path.{sym, ap, ◌∙◌, subst}
use lp_indexer.Prelude.{take-first, take-past, if◌then◌else◌}
use lp_indexer.Prelude.{
  suc, ◌+◌, ◌≡◌, refl, inl, inr, Option, none, some, List, [], ◌∷◌, ◌++◌, arith, length, take,
  length-append,
}
use lp_indexer.Bridge.Service.{
  Msg, Service, ServiceError, canceled, fetch_failed, Net, Round, context_done, timeout,
  fetch_error, batch, forward, forward_all, consume_loop, and_then,
}
use lp_indexer.Bridge.Delivery.{copies, copies-append, Stopped, Done, Progress, forward-Progress}

module _ (net : Net) where
  -- a run that stops in the first messages stops in all of them
  Stopped-first :
      (a b : List Msg) (s : Service) (r : Option ServiceError × Service)
      → Stopped net a s r
      → Stopped net (a ++ b) s r
  Stopped-first a b s r h = record {
    count = h.count;
    within = omega (arith, h.within, length-append a b);
    error = h.error;
    returned = h.returned;
    acked = rw (take-first h.count a b h.within) h.acked;
    log = elim h.log [
      | inl e ↦ inl (rw (take-first h.count a b h.within) e)
      | inr (less, e) ↦
          inr (omega (arith, length-append a b), rw (take-first (suc h.count) a b (omega arith)) e)
    ];
  }

  -- a list of copies after those of the first messages
  after_first :
      (a more : List Msg) (log log' log'' : List Msg)
      → log' ≡ log ++ copies net a
      → log'' ≡ log' ++ copies net more
      → log'' ≡ log ++ copies net (a ++ more)
  after_first a more log log' log'' e k =
      k
      ∙ ap (λ l. l ++ copies net more) e
      ∙ append_assoc log (copies net a) (copies net more)
      ∙ ap (λ l. log ++ l) (sym (copies-append net a more))

  Done-then :
      (a b : List Msg) (s s' : Service) (r : Option ServiceError × Service)
      → Done net a s (none, s')
      → Progress net b s' r
      → Progress net (a ++ b) s r
  Done-then a b s s' r first (inl h) = inl (record {
    returned = h.returned;
    acked = h.acked ∙ ap (λ l. l ++ b) first.acked ∙ append_assoc s.acked a b;
    log = after_first a b s.log s'.log r.1.log first.log h.log;
  })
  Done-then a b s s' r first (inr h) = inr (record {
    count = length a + h.count;
    within = omega (arith, h.within, length-append a b);
    error = h.error;
    returned = h.returned;
    acked = rw (take-past h.count (length a + h.count) a b refl) (
        h.acked
        ∙ ap (λ l. l ++ take h.count b) first.acked
        ∙ append_assoc s.acked a (take h.count b));
    log = elim h.log [
      | inl e ↦ inl (
          rw (take-past h.count (length a + h.count) a b refl)
            (after_first a (take h.count b) s.log s'.log r.1.log first.log e))
      | inr (less, e) ↦ inr (
        omega (arith, length-append a b),
        subst (λ l. r.1.log ≡ s.log ++ copies net l)
            (sym (take-past (suc h.count) (suc (length a + h.count)) a b (omega arith)))
            (after_first a (take (suc h.count) b) s.log s'.log r.1.log first.log e),
      )
    ];
  })

  and_then-Progress :
      (a b : List Msg) (s : Service) (r : Option ServiceError × Service)
      (next : Service → Option ServiceError × Service)
      → Progress net a s r
      → ((s' : Service) → Progress net b s' (next s'))
      → Progress net (a ++ b) s (and_then net r next)
  and_then-Progress a b s (none, s') next (inl first) rest =
      Done-then a b s s' (next s') first (rest s')
  and_then-Progress a b s (none, s') next (inr stop) rest = absurd (ground (arith, stop.returned))
  and_then-Progress a b s (some e, s') next (inl first) rest =
      absurd (ground (arith, first.returned))
  and_then-Progress a b s (some e, s') next (inr stop) rest =
      inr (Stopped-first a b s (some e, s') stop)

  nothing-Done : (s : Service) → Done net [] s (none, s)
  nothing-Done s = record {
    returned = refl;
    acked = sym (append-nil s.acked);
    log = sym (append-nil s.log);
  }

  forward_all-Progress :
      (msgs : List Msg) (s : Service) → Progress net msgs s (forward_all net msgs s)
  unfolding forward_all
  forward_all-Progress [] s = inl (nothing-Done s)
  forward_all-Progress (msg ∷ msgs) s =
      and_then-Progress (msg ∷ []) msgs s (forward net msg s) (forward_all net msgs)
        (forward-Progress net msg s) (forward_all-Progress msgs)

  -- the messages that the rounds fetch
  abbrev pub fetched : List Round → List Msg
  fetched [] = []
  fetched (context_done ∷ rounds) = fetched rounds
  fetched (timeout ∷ rounds) = fetched rounds
  fetched (fetch_error is_done ∷ rounds) = fetched rounds
  fetched (batch msgs ∷ rounds) = msgs ++ fetched rounds

  stops : (msgs : List Msg) (e : ServiceError) (s : Service) → Progress net msgs s (some e, s)
  stops msgs e s = inr (record {
    count = 0;
    within = omega arith;
    error = e;
    returned = refl;
    acked = sym (append-nil s.acked);
    log = inl (sym (append-nil s.log));
  })

  -- Whatever the rounds of `consumeLoop` fetch, and whichever publications and acknowledgements fail:
  -- either all the messages fetched are acknowledged and the target's stream has grown by exactly their
  -- copies in order, or the loop has ended with an error after a first part of them, all of which are
  -- acknowledged and copied in order, and at most the copy of the next, unacknowledged message. A copy
  -- has the mapped subject and all else of its message; a message that the mapper drops has none.
  pub consume_loop-Progress :
      (rounds : List Round) (s : Service)
      → Progress net (fetched rounds) s (consume_loop net rounds s)
  unfolding consume_loop
  consume_loop-Progress [] s = inl (nothing-Done s)
  consume_loop-Progress (context_done ∷ rounds) s = stops (fetched rounds) canceled s
  consume_loop-Progress (timeout ∷ rounds) s = consume_loop-Progress rounds s
  consume_loop-Progress (fetch_error is_done ∷ rounds) s =
      stops (fetched rounds) (if is_done then canceled else fetch_failed) s
  consume_loop-Progress (batch msgs ∷ rounds) s =
      and_then-Progress msgs (fetched rounds) s (forward_all net msgs s) (consume_loop net rounds)
        (forward_all-Progress msgs s) (consume_loop-Progress rounds)
