-- ===== src/Requeue/Lossless.antt =====
-- No dead letter is lost by requeue.py.
use pdd_bridge_agent.Prelude.{Bool, true, false, Option, none, some, List, String, ◌≡◌}
use pdd_bridge_agent.Dict
use pdd_bridge_agent.Dict.{Dict}
use pdd_bridge_agent.Dict.Laws
use pdd_bridge_agent.Requeue.{Event, Ack, Upload, acks, accepted, Outcome, Result, by_id, accepts}

abbrev is_accepted : Option Outcome → Bool
is_accepted none = false
is_accepted (some o) = elim o.kind [ accepted ↦ true | _ ↦ false ]

module _ (upload_events : List Event → Upload) where
  -- The center has answered an upload with an ack that accepts the event.
  abbrev pub AcceptedByCenter : String → Type 0
  AcceptedByCenter id =
      (events : List Event) × (xs : List Ack) × (a : Ack) × (upload_events events ≡ acks xs)
      × (Dict.get (by_id xs) id ≡ some a)
      × (accepts a ≡ true)

  -- What counts as accepted was accepted by the center.
  abbrev Honest : Result → Type 0
  Honest r = (id : String) → is_accepted (Dict.get r.outcomes id) ≡ true → AcceptedByCenter id
