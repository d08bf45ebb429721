-- ===== src/Audit.antt =====
-- backend/saz/audit/event_bus.py and the loop of backend/saz/api/routes/stream.py: how the events of a
-- run come to a client that watches it. The snapshot of stored events, the pings and the closing of
-- a connection are left out; of an event its id and run are kept.
pub mod Lossless
pub mod Received
pub mod Sanitizer
pub mod Events
pub mod EventRepository
pub mod Calls
pub mod Reviews
pub mod Emitter
mod Tests
use saz.Prelude.{
  ℕ, zero, suc, String, Bool, true, false, not, ◌&&◌, List, [], ◌∷◌, ◌++◌, map, length, leb, ◌==◌,
  string_eq, nat_eq, if◌then◌else◌,
}

pub record BusEvent : Type 0 where
  pub id : String
  pub run_id : String

-- A `maxsize` of 0 is none.
pub record Subscription : Type 0 where
  pub run_id : String
  pub maxsize : ℕ
  pub queue : List BusEvent
  pub dropped : Bool

-- `put_nowait`, with the handler of `QueueFull`
abbrev pub put_nowait : BusEvent → Subscription → Subscription
put_nowait e s =
    if not (s.maxsize == 0) && leb s.maxsize (length s.queue)
    then record s { dropped = true }
    else record s { queue = s.queue ++ e ∷ [] }

abbrev pub offer : BusEvent → Subscription → Subscription
offer e s = if s.run_id == e.run_id then put_nowait e s else s

-- `publish`: every event goes to all subscriptions before the next.
unfoldable pub publish : List BusEvent → List Subscription → List Subscription
publish [] subscriptions = subscriptions
publish (e ∷ events) subscriptions = publish events (map (offer e) subscriptions)

-- What a client is sent.
pub data Message : Type 0 where
  gap : Message
  live : BusEvent → Message

pub record Stream : Type 0 where
  pub subscription : Subscription
  pub sent : List Message

abbrev pub announced : Bool → BusEvent → List Message
announced true e = gap ∷ live e ∷ []
announced false e = live e ∷ []

-- A round of the loop. On an empty queue it waits.
abbrev pub sent_next : List BusEvent → Stream → Stream
sent_next [] st = st
sent_next (e ∷ queue) st = record {
  subscription = record (st.subscription) { queue = queue; dropped = false };
  sent = st.sent ++ announced st.subscription.dropped e;
}

abbrev pub next : Stream → Stream
next st = sent_next st.subscription.queue st

-- What happens to a stream: events that are published, and rounds of its loop.
pub data Happening : Type 0 where
  published : List BusEvent → Happening
  round : Happening

-- The events, as one subscription meets them.
unfoldable pub deliver : List BusEvent → Subscription → Subscription
deliver [] s = s
deliver (e ∷ events) s = deliver events (offer e s)

abbrev pub happen : Happening → Stream → Stream
happen (published events) st = record st { subscription = deliver events st.subscription }
happen round st = next st

unfoldable pub stream : List Happening → Stream → Stream
unfolding deliver
stream [] st = st
stream (h ∷ hs) st = stream hs (happen h st)

-- `subscribe`, with a queue of the size
abbrev pub subscribed : String → ℕ → Stream
subscribed run_id maxsize = record {
  subscription = record { run_id = run_id; maxsize = maxsize; queue = []; dropped = false };
  sent = [];
}
