-- ===== src/Audit/Received.antt =====
-- What `publish` of backend/saz/audit/event_bus.py puts into the queues of its subscriptions.
use saz.Prelude.{
  ℕ, zero, suc, ◌-◌, String, ◌≡◌, refl, sym, ap, ◌∙◌, Bool, true, false, ◌||◌, List, [], ◌∷◌, ◌++◌,
  map, length, length-append, take, keep, ltb, leb, ◌==◌, string_eq, nat_eq, if◌then◌else◌, arith,
  not, ◌&&◌, if-holds, Bool-cases, inl, inr,
}
use saz.Audit.{BusEvent, Subscription, put_nowait, offer, publish, deliver}
use saz.Audit.Lossless.{publish-each}

-- The events of the run that is watched.
abbrev pub watched : String → List BusEvent → List BusEvent
watched run_id events = keep (λ e. run_id == e.run_id) events

-- How many of so many events still fit into the queue.
abbrev pub room : Subscription → ℕ → ℕ
room s n = if s.maxsize == 0 then n else s.maxsize - length s.queue

-- The subscription, when so many of the events have come into its queue.
abbrev pub queued : ℕ → List BusEvent → Subscription → Subscription
queued k mine s = record s {
  queue = s.queue ++ take k mine;
  dropped = s.dropped || ltb k (length mine);
}

-- The subscription, behind the events: those of its run that fit stand in its queue, in their order,
-- and it is marked if any did not fit.
abbrev pub received : List BusEvent → Subscription → Subscription
received events s = let mine = watched s.run_id events in queued (room s (length mine)) mine s

append-nil : (xs : List BusEvent) → xs ≡ xs ++ []
append-nil [] = refl
append-nil (x ∷ xs) = ap (◌∷◌ x) (append-nil xs)

append-one :
    (xs : List BusEvent) (y : BusEvent) (zs : List BusEvent) → (xs ++ y ∷ []) ++ zs ≡ xs ++ y ∷ zs
append-one [] y zs = refl
append-one (x ∷ xs) y zs = ap (◌∷◌ x) (append-one xs y zs)

take-nil : (n : ℕ) → take {A = BusEvent} n [] ≡ []
take-nil zero = refl
take-nil (suc n) = refl

or-false : (b : Bool) → (b || false) ≡ b
or-false true = refl
or-false false = refl

or-true : (b : Bool) → (b || true) ≡ true
or-true true = refl
or-true false = refl

ltb-zero : (n : ℕ) → ltb n 0 ≡ false
ltb-zero n = ground arith

ltb-suc : (k n : ℕ) → ltb (suc k) (suc n) ≡ ltb k n
ltb-suc k n = ground arith

ltb-positive : (n : ℕ) → ltb 0 (suc n) ≡ true
ltb-positive n = ground arith

queued-none : (k : ℕ) (s : Subscription) → queued k [] s ≡ s
queued-none k s =
    ap (λ (p : List BusEvent × Bool). record s { queue = p.0; dropped = p.1 })
      (λ i. (
        (ap (λ (l : List BusEvent). s.queue ++ l) (take-nil k) ∙ sym (append-nil s.queue)) i,
        (ap (λ (b : Bool). s.dropped || b) (ltb-zero k) ∙ or-false s.dropped) i,
      ))

queued-fits :
    (k : ℕ) (e : BusEvent) (mine : List BusEvent) (s : Subscription)
    → queued k mine (record s { queue = s.queue ++ e ∷ [] }) ≡ queued (suc k) (e ∷ mine) s
queued-fits k e mine s =
    ap (λ (p : List BusEvent × Bool). record s { queue = p.0; dropped = s.dropped || p.1 })
      (λ i. (append-one s.queue e (take k mine) i, sym (ltb-suc k (length mine)) i))

queued-full :
    (e : BusEvent) (mine : List BusEvent) (s : Subscription)
    → queued zero mine (record s { dropped = true }) ≡ queued zero (e ∷ mine) s
queued-full e mine s =
    ap (λ (b : Bool). record s { queue = s.queue ++ []; dropped = b })
      (sym (ap (λ (b : Bool). s.dropped || b) (ltb-positive (length mine)) ∙ or-true s.dropped))

put_nowait-queued :
    (e : BusEvent) (s : Subscription) (mine : List BusEvent)
    → (let t = put_nowait e s in queued (room t (length mine)) mine t)
      ≡ queued (room s (suc (length mine))) (e ∷ mine) s
put_nowait-queued e s mine =
    if-holds
      (λ (t : Subscription).
        queued (room t (length mine)) mine t ≡ queued (room s (suc (length mine))) (e ∷ mine) s)
      (not (s.maxsize == 0) && leb s.maxsize (length s.queue)) _ _
      (λ full.
        ap (λ k. queued k mine (record s { dropped = true })) (no_room (length mine) full)
        ∙ queued-full e mine s
        ∙ ap (λ k. queued k (e ∷ mine) s) (sym (no_room (suc (length mine)) full)))
      (λ fits.
        queued-fits (room (record s { queue = s.queue ++ e ∷ [] }) (length mine)) e mine s
        ∙ ap (λ k. queued k (e ∷ mine) s) (some_room fits))
  where
    no_room :
        (n : ℕ) → (not (s.maxsize == 0) && leb s.maxsize (length s.queue)) ≡ true → room s n ≡ zero
    no_room n full = ground (arith, full)

    some_room :
        (not (s.maxsize == 0) && leb s.maxsize (length s.queue)) ≡ false
        → suc (room (record s { queue = s.queue ++ e ∷ [] }) (length mine))
          ≡ room s (suc (length mine))
    some_room fits = ground (arith, fits, length-append s.queue (e ∷ []))

deliver-received :
    (events : List BusEvent) (s : Subscription) → deliver events s ≡ received events s
unfolding deliver
deliver-received [] s = sym (queued-none (room s 0) s)
deliver-received (e ∷ events) s = elim (Bool-cases (s.run_id == e.run_id)) [
  | inl mine ↦
      deliver-received events (offer e s)
      ∙ ap (received events) (ap (λ b. if b then put_nowait e s else s) mine)
      ∙ ap
          (λ (r : String).
            let m = watched r events in
            queued (room (put_nowait e s) (length m)) m (put_nowait e s))
          (same_run e s)
      ∙ put_nowait-queued e s (watched s.run_id events)
      ∙ ap
          (λ (b : Bool).
            let m = (if b then e ∷ watched s.run_id events else watched s.run_id events) in
            queued (room s (length m)) m s)
          (sym mine)
  | inr other ↦
      deliver-received events (offer e s)
      ∙ ap (received events) (ap (λ b. if b then put_nowait e s else s) other)
      ∙ ap
          (λ (b : Bool).
            let m = (if b then e ∷ watched s.run_id events else watched s.run_id events) in
            queued (room s (length m)) m s)
          (sym other)
]
  where
    same_run : (e : BusEvent) (s : Subscription) → (put_nowait e s).run_id ≡ s.run_id
    same_run e s = ground arith

map-deliver :
    (events : List BusEvent) (ss : List Subscription)
    → map (deliver events) ss ≡ map (received events) ss
map-deliver events [] = refl
map-deliver events (s ∷ ss) =
    ap (λ (p : Subscription × List Subscription). p.0 ∷ p.1)
      (λ i. (deliver-received events s i, map-deliver events ss i))

-- Publishing puts into the queue of every subscription the events of the run that it watches, in
-- their order, as many as fit, marks it exactly if some did not fit or it was marked before, and
-- changes nothing else; a subscription without a bound gets them all.
pub publish-received :
    (events : List BusEvent) (subscriptions : List Subscription)
    → publish events subscriptions ≡ map (received events) subscriptions
publish-received events subscriptions =
    publish-each events subscriptions ∙ map-deliver events subscriptions
