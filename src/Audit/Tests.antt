-- ===== src/Audit/Tests.antt =====
-- A client with a queue of one event that is too slow for three.
use saz.Prelude.{String, ◌≡◌, refl, List, [], ◌∷◌, map}
use saz.Audit.{
  BusEvent, Subscription, gap, live, Happening, published, round, publish, stream, subscribed,
}
use saz.Audit.Lossless.{LosesNothing, expected, no_silent_loss}
use saz.Audit.Received.{received, publish-received}

abbrev event : String → String → BusEvent
event id run_id = record { id = id; run_id = run_id }

abbrev happenings : List Happening
happenings =
    published (event "a" "r1" ∷ event "b" "r2" ∷ event "c" "r1" ∷ [])
    ∷ round
    ∷ published (event "d" "r1" ∷ [])
    ∷ round
    ∷ []

gap_is_sent :
    (stream happenings (subscribed "r1" 1)).sent
    ≡ gap ∷ live (event "a" "r1") ∷ live (event "d" "r1") ∷ []
unfolding stream
gap_is_sent = refl

no_silent_loss_example :
    LosesNothing (expected "r1" happenings) (stream happenings (subscribed "r1" 1))
no_silent_loss_example = no_silent_loss "r1" 1 happenings

abbrev both : List Subscription
both = (subscribed "r1" 1).subscription ∷ (subscribed "r2" 1).subscription ∷ []

publish-received_example :
    publish (event "a" "r1" ∷ event "b" "r2" ∷ event "c" "r1" ∷ []) both
    ≡ map (received (event "a" "r1" ∷ event "b" "r2" ∷ event "c" "r1" ∷ [])) both
publish-received_example =
    publish-received (event "a" "r1" ∷ event "b" "r2" ∷ event "c" "r1" ∷ []) both
