-- ===== src/Audit/Lossless.antt =====
-- No event is lost in silence between backend/saz/audit/event_bus.py and a client.
use saz.Prelude.{
  ℕ, ◌≤◌, String, ◌≡◌, refl, ◌∙◌, sym, ap, Bool, true, false, not, ◌&&◌, ◌||◌, List, [], ◌∷◌, ◌++◌,
  map, length, length-append, leb, keep, ◌==◌, string_eq, nat_eq, if◌then◌else◌, arith, if-holds,
  Bool-cases, inl, inr, ◌⊎◌,
}
use mathlib.Core.Path.{subst}
use saz.Audit.{
  BusEvent, Subscription, put_nowait, offer, publish, Message, gap, live, Stream, announced,
  sent_next, next, Happening, published, round, deliver, happen, stream, subscribed,
}

-- Each subscription meets all the events in their order, whatever other subscriptions there are:
-- publishing to all is delivering to each.
pub publish-each :
    (events : List BusEvent) (subscriptions : List Subscription)
    → publish events subscriptions ≡ map (deliver events) subscriptions
unfolding publish deliver
publish-each [] subscriptions = map_same subscriptions
  where
    map_same : (xs : List Subscription) → xs ≡ map (deliver []) xs
    map_same [] = refl
    map_same (x ∷ xs) = ap (λ ys. x ∷ ys) (map_same xs)
publish-each (e ∷ events) subscriptions =
    publish-each events (map (offer e) subscriptions) ∙ map_map subscriptions
  where
    map_map :
        (xs : List Subscription)
        → map (deliver events) (map (offer e) xs) ≡ map (deliver (e ∷ events)) xs
    map_map [] = refl
    map_map (x ∷ xs) = ap (λ ys. deliver events (offer e x) ∷ ys) (map_map xs)

append_assoc : (xs ys zs : List BusEvent) → (xs ++ ys) ++ zs ≡ xs ++ (ys ++ zs)
append_assoc [] ys zs = refl
append_assoc (x ∷ xs) ys zs = ap (λ l. x ∷ l) (append_assoc xs ys zs)

append_nil : (xs : List BusEvent) → xs ++ [] ≡ xs
append_nil [] = refl
append_nil (x ∷ xs) = ap (λ l. x ∷ l) (append_nil xs)

-- The events of the run, in the order of their publication.
abbrev pub of_run : String → List BusEvent → List BusEvent
of_run run_id events = keep (λ e. run_id == e.run_id) events

abbrev pub expected : String → List Happening → List BusEvent
expected run_id [] = []
expected run_id (published events ∷ hs) = of_run run_id events ++ expected run_id hs
expected run_id (round ∷ hs) = expected run_id hs

-- What the client was sent of events, and whether it was told of a gap.
abbrev pub live_events : List Message → List BusEvent
live_events [] = []
live_events (gap ∷ ms) = live_events ms
live_events (live e ∷ ms) = e ∷ live_events ms

abbrev pub has_gap : List Message → Bool
has_gap [] = false
has_gap (gap ∷ ms) = true
has_gap (live e ∷ ms) = has_gap ms

-- The client was or will be told of a gap.
abbrev pub is_gapped : Stream → Bool
is_gapped st = st.subscription.dropped || has_gap st.sent

abbrev pub is_nonempty : List BusEvent → Bool
is_nonempty [] = false
is_nonempty (e ∷ es) = true

-- `past` are the events of the run that were published so far. The queue is within its bound, a
-- drop leaves something in the queue behind which it is announced, and without a gap everything
-- was sent or waits.
pub record IsLossless (past : List BusEvent) (st : Stream) : Type 0 where
  pub bounded :
      (st.subscription.maxsize ≡ 0) ⊎ (length st.subscription.queue ≤ st.subscription.maxsize)
  pub waiting : st.subscription.dropped ≡ true → is_nonempty st.subscription.queue ≡ true
  pub complete : is_gapped st ≡ false → live_events st.sent ++ st.subscription.queue ≡ past

nonempty_of_length :
    (n : ℕ) (q : List BusEvent) → (not (n == 0) && leb n (length q)) ≡ true → is_nonempty q ≡ true
nonempty_of_length n [] h = ground (arith, h)
nonempty_of_length n (e ∷ q) h = refl

nonempty-append : (q : List BusEvent) (e : BusEvent) → is_nonempty (q ++ e ∷ []) ≡ true
nonempty-append [] e = refl
nonempty-append (d ∷ q) e = refl

put_nowait-IsLossless :
    (past : List BusEvent) (st : Stream) (e : BusEvent)
    → IsLossless past st
    → IsLossless (past ++ e ∷ []) (record st { subscription = put_nowait e st.subscription })
put_nowait-IsLossless past st e i =
    let sub = st.subscription in
    if-holds (λ (x : Subscription). IsLossless (past ++ e ∷ []) (record st { subscription = x }))
      (not (sub.maxsize == 0) && leb sub.maxsize (length sub.queue)) _ _
      (λ full. record {
        bounded = i.bounded;
        waiting = λ d. nonempty_of_length sub.maxsize sub.queue full;
        complete = λ g. ground (arith, g);
      })
      (λ free. record {
        bounded = ground (arith, i.bounded, free, length-append sub.queue (e ∷ []));
        waiting = λ d. nonempty-append sub.queue e;
        complete = λ g.
            sym (append_assoc (live_events st.sent) sub.queue (e ∷ []))
            ∙ ap (λ l. l ++ e ∷ []) (i.complete g);
      })

offer-IsLossless :
    (past : List BusEvent) (st : Stream) (e : BusEvent)
    → IsLossless past st
    → IsLossless
        (past ++ (if st.subscription.run_id == e.run_id then e ∷ [] else []))
        (record st { subscription = offer e st.subscription })
offer-IsLossless past st e i = by_run (st.subscription.run_id == e.run_id)
  where
    by_run :
        (b : Bool)
        → IsLossless (past ++ (if b then e ∷ [] else [])) (record st {
          subscription = if b then put_nowait e st.subscription else st.subscription;
        })
    by_run true = put_nowait-IsLossless past st e i
    by_run false = record {
      bounded = i.bounded;
      waiting = i.waiting;
      complete = λ g. i.complete g ∙ sym (append_nil past);
    }

live_events-append :
    (xs ys : List Message) → live_events (xs ++ ys) ≡ live_events xs ++ live_events ys
live_events-append [] ys = refl
live_events-append (gap ∷ xs) ys = live_events-append xs ys
live_events-append (live e ∷ xs) ys = ap (λ l. e ∷ l) (live_events-append xs ys)

has_gap-append : (xs ys : List Message) → has_gap (xs ++ ys) ≡ (has_gap xs || has_gap ys)
has_gap-append [] ys = refl
has_gap-append (gap ∷ xs) ys = refl
has_gap-append (live e ∷ xs) ys = has_gap-append xs ys

sent_next-IsLossless :
    (past queue : List BusEvent) (st : Stream)
    → st.subscription.queue ≡ queue
    → IsLossless past st
    → IsLossless past (sent_next queue st)
sent_next-IsLossless past [] st q i = i
sent_next-IsLossless past (e ∷ queue) st q i = record {
  bounded = ground (arith, i.bounded, ap length q);
  waiting = λ d. ground (arith, d);
  complete = by_drop st.subscription.dropped refl;
}
  where
    by_drop :
        (d : Bool)
        → st.subscription.dropped ≡ d
        → has_gap (st.sent ++ announced d e) ≡ false
        → live_events (st.sent ++ announced d e) ++ queue ≡ past
    by_drop true d g = ground (arith, has_gap-append st.sent (announced true e), g)
    by_drop false d g =
        ap (λ l. l ++ queue) (live_events-append st.sent (live e ∷ []))
        ∙ append_assoc (live_events st.sent) (e ∷ []) queue
        ∙ ap (λ l. live_events st.sent ++ l) (sym q)
        ∙ i.complete (ground (arith, d, g, has_gap-append st.sent (announced false e)))

next-IsLossless :
    (past : List BusEvent) (st : Stream) → IsLossless past st → IsLossless past (next st)
next-IsLossless past st i = sent_next-IsLossless past st.subscription.queue st refl i

offer-run_id : (e : BusEvent) (s : Subscription) → (offer e s).run_id ≡ s.run_id
offer-run_id e s =
    if-holds (λ (x : Subscription). x.run_id ≡ s.run_id) (s.run_id == e.run_id) _ _
      (λ m.
        if-holds (λ (x : Subscription). x.run_id ≡ s.run_id)
          (not (s.maxsize == 0) && leb s.maxsize (length s.queue)) _ _ (λ full. refl)
          (λ free. refl))
      (λ m. refl)

deliver-run_id : (events : List BusEvent) (s : Subscription) → (deliver events s).run_id ≡ s.run_id
unfolding deliver
deliver-run_id [] s = refl
deliver-run_id (e ∷ events) s = deliver-run_id events (offer e s) ∙ offer-run_id e s

of_run-cons :
    (r : String) (e : BusEvent) (events : List BusEvent)
    → (if r == e.run_id then e ∷ [] else []) ++ of_run r events ≡ of_run r (e ∷ events)
of_run-cons r e events = by_run (r == e.run_id)
  where
    by_run :
        (b : Bool)
        → (if b then e ∷ [] else []) ++ of_run r events
          ≡ (if b then e ∷ of_run r events else of_run r events)
    by_run true = refl
    by_run false = refl

deliver-IsLossless :
    (r : String) (past events : List BusEvent) (st : Stream)
    → st.subscription.run_id ≡ r
    → IsLossless past st
    → IsLossless
        (past ++ of_run r events)
        (record st { subscription = deliver events st.subscription })
unfolding deliver
deliver-IsLossless r past [] st k i = subst (λ p. IsLossless p st) (sym (append_nil past)) i
deliver-IsLossless r past (e ∷ events) st k i =
    let mine = if st.subscription.run_id == e.run_id then e ∷ [] else [] in
    subst (λ p. IsLossless p (record st { subscription = deliver (e ∷ events) st.subscription }))
      (append_assoc past mine (of_run r events)
        ∙ ap (λ l. past ++ l)
            (ap (λ q. (if q == e.run_id then e ∷ [] else []) ++ of_run r events) k
              ∙ of_run-cons r e events))
      (deliver-IsLossless r (past ++ mine) events
        (record st { subscription = offer e st.subscription }) (offer-run_id e st.subscription ∙ k)
        (offer-IsLossless past st e i))

sent_next-run_id :
    (queue : List BusEvent) (st : Stream)
    → (sent_next queue st).subscription.run_id ≡ st.subscription.run_id
sent_next-run_id [] st = refl
sent_next-run_id (e ∷ queue) st = refl

stream-IsLossless :
    (r : String) (past : List BusEvent) (hs : List Happening) (st : Stream)
    → st.subscription.run_id ≡ r
    → IsLossless past st
    → IsLossless (past ++ expected r hs) (stream hs st)
unfolding stream
stream-IsLossless r past [] st k i = subst (λ p. IsLossless p st) (sym (append_nil past)) i
stream-IsLossless r past (published events ∷ hs) st k i =
    subst (λ p. IsLossless p (stream (published events ∷ hs) st))
      (append_assoc past (of_run r events) (expected r hs))
      (stream-IsLossless r (past ++ of_run r events) hs (happen (published events) st)
        (deliver-run_id events st.subscription ∙ k) (deliver-IsLossless r past events st k i))
stream-IsLossless r past (round ∷ hs) st k i =
    stream-IsLossless r past hs (next st) (sent_next-run_id st.subscription.queue st ∙ k)
      (next-IsLossless past st i)

-- The same, with the cases as alternatives.
abbrev pub LosesNothing : List BusEvent → Stream → Type 0
LosesNothing past st =
    ((st.subscription.maxsize ≡ 0) ⊎ (length st.subscription.queue ≤ st.subscription.maxsize))
    × ((st.subscription.dropped ≡ false) ⊎ (is_nonempty st.subscription.queue ≡ true))
    × ((is_gapped st ≡ true) ⊎ (live_events st.sent ++ st.subscription.queue ≡ past))

IsLossless-LosesNothing :
    (past : List BusEvent) (st : Stream) → IsLossless past st → LosesNothing past st
IsLossless-LosesNothing past st i = (
  i.bounded,
  elim (Bool-cases st.subscription.dropped) [ inl e ↦ inr (i.waiting e) | inr e ↦ inl e ],
  elim (Bool-cases (is_gapped st)) [ inl e ↦ inl e | inr e ↦ inr (i.complete e) ],
)

-- No event is lost in silence. However events are published while a client watches a run, and
-- however slowly its loop goes: its queue stays within its size, if it has one; there is no drop
-- that is still to be announced, or an event waits in the queue, before which it will be; and the
-- client was told of a gap or is going to be, or else what it was sent and what waits are all the
-- events that were published for the run, in their order.
pub no_silent_loss :
    (r : String) (maxsize : ℕ) (hs : List Happening)
    → LosesNothing (expected r hs) (stream hs (subscribed r maxsize))
no_silent_loss r maxsize hs =
    IsLossless-LosesNothing (expected r hs) (stream hs (subscribed r maxsize)) (
      stream-IsLossless r [] hs (subscribed r maxsize) refl (record {
        bounded = inr (omega arith);
        waiting = λ d. ground (arith, d);
        complete = λ g. refl;
      }))
