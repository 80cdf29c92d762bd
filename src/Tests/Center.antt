-- ===== src/Tests/Center.antt =====
-- One event on the WebSocket channel, and what the connection does.
use pdd_bridge_agent.Prelude.{
  true, false, none, some, List, [], ◌∷◌, String, some_of, map, ◌≡◌, ◌⊎◌, ◌↔◌, inl, inr, refl,
  str_eq,
}
use pdd_bridge_agent.Json.{
  Value, Fields, end, field, text, num, null, truthy, to_text, text_or_empty, or_value,
}
use pdd_bridge_agent.Json
use pdd_bridge_agent.Dict
use pdd_bridge_agent.Text.{strip}
use pdd_bridge_agent.Upload.{answered, end_flush, stays, find_sent}
use pdd_bridge_agent.Upload.Batches.{Every}
use pdd_bridge_agent.Upload.Queue.{is_dead}
use pdd_bridge_agent.Tests.Upload.{event, uploader}
use pdd_bridge_agent.Center.{
  Frame, Numbers, Size, Row, Result, id_of, ack_row_for, new_batch, batch_on_ack, by_id, begin_send,
  finish_send, on_ack, build_event_frame, captured_ms, payload_of, put_frames, own_all, disown_all,
  find_batch, rows_of, take_ack,
}
use pdd_bridge_agent.Center.Link.{Attempt, lost, sleeps, start}
use pdd_bridge_agent.Center.Backoff.{sleeps_double, powers}
use pdd_bridge_agent.Center.Acks.{left_is_accounted, ack_of, accepts}
use pdd_bridge_agent.Center.Batches.{done_exact, acks_in, IsComplete}
use pdd_bridge_agent.Center.Answers.{
  Step, begins, acks, reports, drains, links, step, run, new_channel, answer-IsBacked, IsBacked,
}

abbrev message : Fields
message = field "event_id" (text "e1") (
    field "account" (text "cs_1_2") (
      field "buyer_id" (text "b")
        (field "shop_name" (text "Shop") (field "agent_id" (text "a") end))))

abbrev numbers : Numbers
numbers = record { int_of = λ v. some 5; millis_of = λ v. 0 }

abbrev size : Size
size f = some 100

abbrev unopened : Attempt
unopened = record { opened = false; greeting = lost; inflight = none; ends = false }

abbrev silent : Attempt
silent = record { opened = true; greeting = lost; inflight = none; ends = false }

sleeps_double_example :
    sleeps (unopened ∷ silent ∷ unopened ∷ []) start ≡ powers 0 (unopened ∷ silent ∷ unopened ∷ [])
sleeps_double_example =
    sleeps_double (unopened ∷ silent ∷ unopened ∷ []) (inl refl, (inr refl, (inl refl, tt)))

-- Seven attempts that fail
backoff_runs :
    sleeps (unopened ∷ unopened ∷ unopened ∷ unopened ∷ unopened ∷ unopened ∷ unopened ∷ []) start
    ≡ 1 ∷ 2 ∷ 4 ∷ 8 ∷ 16 ∷ 32 ∷ 60 ∷ []
unfolding sleeps start
backoff_runs = refl

-- An event with an account and a buyer that the center could not store is sent again.
retry_runs : (ack_row_for message "rejected" "PERSISTENCE_UNAVAILABLE").retryable ≡ true
unfolding ack_row_for text_or_empty truthy to_text strip Json.get
retry_runs = refl

abbrev malformed : List Row
malformed = ack_row_for message "rejected" "MALFORMED_FRAME" ∷ []

left_is_accounted_example :
    (some_of (accepts "e1") malformed ≡ true)
    ⊎ (is_dead 1
          (end_flush true 7
            (answered (map ack_of malformed))
            (event 1 "e1" ∷ [])
            uploader).dead_letters
        ≡ true)
left_is_accounted_example =
    left_is_accounted 7 malformed (event 1 "e1" ∷ []) uploader (event 1 "e1")
      ((message, "rejected", "MALFORMED_FRAME", refl), tt) (quiet, tt) refl found left
  where
    quiet :
        str_eq (ack_of (ack_row_for message "rejected" "MALFORMED_FRAME")).reason "plugin_send_echo"
        ≡ false
    quiet = unfold ack_row_for in refl

    found : find_sent "e1" (event 1 "e1" ∷ []) ≡ some (event 1 "e1")
    found = unfold find_sent in refl

    left : stays (answered (map ack_of malformed)) (event 1 "e1" ∷ []) (event 1 "e1") ≡ false
    left = unfold ack_row_for id_of text_or_empty truthy to_text or_value Json.get in refl

abbrev row : Row
row = ack_row_for message "accepted" ""

done_exact_example :
    let b = acks_in (("other", row) ∷ ("e1", row) ∷ []) (new_batch 0 (message ∷ [])) in
    (b.done ≡ true) ↔ IsComplete b
done_exact_example = done_exact 0 message [] (("other", row) ∷ ("e1", row) ∷ [])

abbrev steps : List Step
steps = links true ∷ begins numbers size 0 (message ∷ []) ∷ acks "e1" "accepted" "" ∷ []

answer-IsBacked_example : Every (IsBacked steps 0) (finish_send 0 (run steps new_channel)).1
answer-IsBacked_example = answer-IsBacked steps 0

answer_runs :
    map (λ (r : Row). r.status) (finish_send 0 (run steps new_channel)).1 ≡ "accepted" ∷ []
unfolding finish_send find_batch rows_of disown_all run step new_channel begin_send put_frames
    own_all new_batch by_id on_ack take_ack batch_on_ack ack_row_for build_event_frame captured_ms
    payload_of Dict.get Dict.put Dict.remove Dict.contains id_of text_or_empty truthy to_text
    or_value Json.get
answer_runs = refl

abbrev result : String → Result
result id = record { event_id = id; status = "processed"; error_code = ""; processed_at_ms = 9 }

abbrev results : List Step
results = reports (result "e1") ∷ reports (result "e2") ∷ drains 1 ∷ reports (result "e3") ∷ []

abbrev frame : Frame
frame = record {
  event_id = "e1";
  sequence = 1;
  account = "cs_1_2";
  buyer_id = "b";
  role = "";
  content = null;
  msg_id = "";
  captured_at_ms = 0;
  payload = field "shop_name" (text "Shop") end;
}
