-- ===== src/Tests/Ledger.antt =====
-- A ledger of two events, and the dead letter of one of them.
use pdd_bridge_agent.Prelude.{false, none, List, [], ◌∷◌, String}
use pdd_bridge_agent.Dict
use pdd_bridge_agent.Ledger.{Row}
use pdd_bridge_agent.Requeue.{Dead, Event, Upload, acks}

abbrev row : String → String → Row
row id state = record {
  at = 5;
  event_id = id;
  state = state;
  account = "cs_1:2";
  buyer_id = "7";
  content_head = "hi";
  detail = "";
}

abbrev rows : List Row
rows =
    row "e1" "captured"
    ∷ row "e2" "captured"
    ∷ row "e1" "center_accepted"
    ∷ row "e2" "center_refused"
    ∷ []

abbrev dead : String → String → Dead
dead id reason = record {
  event_id = id;
  is_diagnostic = false;
  content = "hi";
  refused_reason = reason;
  requeued_at = none;
}

abbrev letters : List Dead
letters =
    dead "e1" "invalid_message" ∷ dead "e2" "unsupported_role" ∷ dead "e1" "invalid_message" ∷ []

abbrev center : List Event → Upload
center events = acks (
    record { event_id = "e1"; status = "accepted"; reason = ""; error_code = ""; committed = false }
    ∷ [])

abbrev picked : List Dead
picked = dead "e1" "invalid_message" ∷ []
