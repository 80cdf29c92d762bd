-- ===== src/Tests/Commands.antt =====
-- One command, delivered twice, sent, and taken over by the center.
use pdd_bridge_agent.Prelude.{
  suc, ◌≤◌, true, false, none, some, List, [], ◌∷◌, ◌++◌, ◌≡◌, ◌↔◌, refl, take, ◌-◌, member,
  if◌then◌else◌,
}
use pdd_bridge_agent.Text.{is_blank, strip, lower_is}
use pdd_bridge_agent.Json
use pdd_bridge_agent.Json.{Value, Fields, end, field, text, bool}
use pdd_bridge_agent.Journal
use pdd_bridge_agent.Journal.{
  Journal, missing, open_journal, stored, started, entry, command_id, write_failed, image, returns,
}
use pdd_bridge_agent.Dict
use pdd_bridge_agent.Timing.{Stamp, number, takeover_expired, epoch_seconds}
use pdd_bridge_agent.Commands.Channel.{World, Agent, dict, field_of}
use pdd_bridge_agent.Commands.Verdicts.{only_question_marks}
use pdd_bridge_agent.Commands.Dispatch.{dispatch, type_of, expired}
use pdd_bridge_agent.Commands.Conclusion.{final_result}
use pdd_bridge_agent.Commands.Steps.{
  Step, step, retry, deliver, work, answer, restart, run, boot, acknowledged,
}
use pdd_bridge_agent.Commands.Bounded.{count_sent, count_settled}
use pdd_bridge_agent.Commands.Outcomes.{
  sends_exactly, delivered_is_reported, failed_start_is_ignored,
}

abbrev world : World
world = record {
  now = 1000000;
  tolerance = 5000;
  parent_max_age = 300000;
  write = true;
  read_stamp = λ v. number 999000;
  parent_time = λ account buyer id. 0;
  trim = λ n ids. if member "c1" ids then "c1" ∷ take (n - 1) ids else take n ids;
  has_source = false;
  has_open_chat = false;
  workbench = false;
  answer = dict (field "ok" (bool true) (field "real_send" (bool true) end));
}

abbrev hello : Fields
hello = field "id" (text "c1") (
    field "account" (text "cs_1:2") (field "buyer_id" (text "7") (field "content" (text "hi") end)))

-- It is delivered to two threads and sent, the process restarts before the answer, and it is delivered again.
abbrev sent_and_restarted : List Step
sent_and_restarted =
    deliver world hello
    ∷ deliver world hello
    ∷ work world 0
    ∷ work world 0
    ∷ work world 0
    ∷ restart world
    ∷ deliver world hello
    ∷ work world 0
    ∷ work world 0
    ∷ work world 0
    ∷ []

sent_once : count_sent "c1" (run sent_and_restarted (boot world missing [])).effects ≡ 1
unfolding count_sent run boot strip pdd_bridge_agent.Commands.Steps.step
    pdd_bridge_agent.Commands.Admission.receive pdd_bridge_agent.Commands.Admission.look_up
    pdd_bridge_agent.Commands.Admission.start_command pdd_bridge_agent.Journal.command_id
    pdd_bridge_agent.Json.text_or_empty pdd_bridge_agent.Json.or_value pdd_bridge_agent.Json.get
    pdd_bridge_agent.Journal.get pdd_bridge_agent.Dict.get pdd_bridge_agent.Journal.open_journal
    pdd_bridge_agent.Journal.start pdd_bridge_agent.Commands.Dispatch.dispatch
    pdd_bridge_agent.Timing.takeover_expired pdd_bridge_agent.Json.is_true
    pdd_bridge_agent.Json.dict_or_empty pdd_bridge_agent.Timing.epoch_seconds
    pdd_bridge_agent.Journal.load_records pdd_bridge_agent.Journal.image
    pdd_bridge_agent.Commands.Admission.claim pdd_bridge_agent.Commands.Conclusion.conclude
    pdd_bridge_agent.Commands.Dispatch.expired pdd_bridge_agent.Commands.Channel.field_of
    pdd_bridge_agent.Commands.Conclusion.final_result
    pdd_bridge_agent.Commands.Dispatch.note_self_send
    pdd_bridge_agent.Commands.Verdicts.only_question_marks
    pdd_bridge_agent.Commands.Admission.report pdd_bridge_agent.Commands.Conclusion.report_all
    pdd_bridge_agent.Commands.Conclusion.result_for_ack
    pdd_bridge_agent.Commands.Conclusion.retry_results pdd_bridge_agent.Commands.Dispatch.send
    pdd_bridge_agent.Commands.Verdicts.sent_text_key pdd_bridge_agent.Commands.Dispatch.type_of
    pdd_bridge_agent.Commands.Steps.pick pdd_bridge_agent.Commands.Steps.send_command_result
    pdd_bridge_agent.Dict.put pdd_bridge_agent.Dict.remove pdd_bridge_agent.Journal.blank_entry
    pdd_bridge_agent.Journal.fresh pdd_bridge_agent.Journal.indeterminate_result
    pdd_bridge_agent.Journal.load_one pdd_bridge_agent.Journal.pending_in
    pdd_bridge_agent.Journal.pending_results pdd_bridge_agent.Journal.persist
    pdd_bridge_agent.Journal.recover pdd_bridge_agent.Journal.remove
    pdd_bridge_agent.Journal.start_id pdd_bridge_agent.Journal.started
    pdd_bridge_agent.Journal.store_result pdd_bridge_agent.Journal.with_result
    pdd_bridge_agent.Json.contains pdd_bridge_agent.Json.put pdd_bridge_agent.Json.set_default
    pdd_bridge_agent.Json.to_text pdd_bridge_agent.Json.truthy pdd_bridge_agent.Text.is_space
    pdd_bridge_agent.Text.lower_is pdd_bridge_agent.Text.lstrip pdd_bridge_agent.Text.rstrip
    pdd_bridge_agent.Text.rstrip_cons pdd_bridge_agent.Timing.command_expired
sent_once = refl

abbrev start : Agent
start = boot world missing []

abbrev once : Agent
once = step (deliver world hello) start

abbrev again : Agent
again = step (restart world) (
    step (work world 0)
      (step (work world 0) (step (work world 0) (step (deliver world hello) once))))

-- Where the center has taken the result over and the process has been restarted, it may be sent once more.
abbrev settled_and_restarted : List Step
settled_and_restarted =
    deliver world hello
    ∷ work world 0
    ∷ work world 0
    ∷ work world 0
    ∷ work world 0
    ∷ answer world (acknowledged true)
    ∷ restart world
    ∷ deliver world hello
    ∷ work world 0
    ∷ work world 0
    ∷ work world 0
    ∷ []

settled_then_sent :
    (count_sent "c1" (run settled_and_restarted (boot world missing [])).effects ≡ 2)
    × (count_settled "c1" (run settled_and_restarted (boot world missing [])).effects ≡ 1)
unfolding count_sent count_settled run boot strip pdd_bridge_agent.Commands.Steps.step
    pdd_bridge_agent.Commands.Admission.receive pdd_bridge_agent.Commands.Admission.look_up
    pdd_bridge_agent.Commands.Admission.start_command pdd_bridge_agent.Journal.command_id
    pdd_bridge_agent.Json.text_or_empty pdd_bridge_agent.Json.or_value pdd_bridge_agent.Json.get
    pdd_bridge_agent.Journal.get pdd_bridge_agent.Dict.get pdd_bridge_agent.Journal.open_journal
    pdd_bridge_agent.Journal.start pdd_bridge_agent.Commands.Dispatch.dispatch
    pdd_bridge_agent.Timing.takeover_expired pdd_bridge_agent.Json.is_true
    pdd_bridge_agent.Json.dict_or_empty pdd_bridge_agent.Timing.epoch_seconds
    pdd_bridge_agent.Journal.load_records pdd_bridge_agent.Journal.image
    pdd_bridge_agent.Commands.Admission.claim pdd_bridge_agent.Commands.Conclusion.conclude
    pdd_bridge_agent.Commands.Dispatch.expired pdd_bridge_agent.Commands.Channel.field_of
    pdd_bridge_agent.Commands.Conclusion.final_result
    pdd_bridge_agent.Commands.Dispatch.note_self_send
    pdd_bridge_agent.Commands.Verdicts.only_question_marks
    pdd_bridge_agent.Commands.Admission.report pdd_bridge_agent.Commands.Conclusion.report_all
    pdd_bridge_agent.Commands.Conclusion.result_for_ack
    pdd_bridge_agent.Commands.Conclusion.retry_results pdd_bridge_agent.Commands.Dispatch.send
    pdd_bridge_agent.Commands.Verdicts.sent_text_key pdd_bridge_agent.Commands.Dispatch.type_of
    pdd_bridge_agent.Commands.Steps.pick pdd_bridge_agent.Commands.Steps.send_command_result
    pdd_bridge_agent.Dict.put pdd_bridge_agent.Dict.remove pdd_bridge_agent.Journal.blank_entry
    pdd_bridge_agent.Journal.fresh pdd_bridge_agent.Journal.indeterminate_result
    pdd_bridge_agent.Journal.load_one pdd_bridge_agent.Journal.pending_in
    pdd_bridge_agent.Journal.pending_results pdd_bridge_agent.Journal.persist
    pdd_bridge_agent.Journal.recover pdd_bridge_agent.Journal.remove
    pdd_bridge_agent.Journal.start_id pdd_bridge_agent.Journal.started
    pdd_bridge_agent.Journal.store_result pdd_bridge_agent.Journal.with_result
    pdd_bridge_agent.Json.contains pdd_bridge_agent.Json.put pdd_bridge_agent.Json.set_default
    pdd_bridge_agent.Json.to_text pdd_bridge_agent.Json.truthy pdd_bridge_agent.Text.is_space
    pdd_bridge_agent.Text.lower_is pdd_bridge_agent.Text.lstrip pdd_bridge_agent.Text.rstrip
    pdd_bridge_agent.Text.rstrip_cons pdd_bridge_agent.Timing.command_expired
settled_then_sent = (refl, refl)

abbrev not_known : Fields
not_known = field "status" (text "INDETERMINATE") (field "ok" (bool true) end)

abbrev pub agent : Agent
agent = boot world missing []

sends_exactly_example :
    ((count_sent "c1" (dispatch world "c1" hello agent).0.effects
        ≡ suc (count_sent "c1" agent.effects))
      ↔ ((type_of hello ≡ "send_text")
          × (expired world hello ≡ false)
          × (only_question_marks (field_of hello "content") ≡ false)))
    × (count_sent "c1" (dispatch world "c1" hello agent).0.effects
        ≤ suc (count_sent "c1" agent.effects))
sends_exactly_example = sends_exactly world "c1" hello agent

abbrev started_journal : Journal
started_journal = record (open_journal true 1000000 missing) {
  records = ("c1", started 1000000 hello) ∷ [];
  disk = stored (("c1", entry (started 1000000 hello)) ∷ []);
}

hello_named : is_blank (command_id hello) ≡ false
unfolding command_id strip Json.text_or_empty Json.or_value Json.get
hello_named = refl

nothing_there : Journal.get agent.journal (command_id hello) ≡ none
unfolding boot Journal.get open_journal Dict.get
nothing_there = refl

hello_starts : Journal.start true 1000000 hello agent.journal ≡ returns (started_journal, true)
unfolding boot Journal.start strip command_id Json.text_or_empty Json.or_value Json.get open_journal
    Dict.put image
hello_starts = refl

hello_result :
    (dispatch world (command_id hello) hello agent).1
    ≡ some (field "ok" (bool true) (field "real_send" (bool true) end))
unfolding dispatch expired type_of field_of strip Json.to_text Json.or_value Json.get
    takeover_expired Json.is_true Json.dict_or_empty epoch_seconds Json.text_or_empty
hello_result = refl

delivered_is_reported_example :
    (run
      (deliver world hello ∷ work world 0 ∷ work world 0 ∷ work world 0 ∷ work world 0 ∷ [])
      agent).report_queue
    ≡ agent.report_queue
      ++ (
        command_id hello,
        final_result hello (field "ok" (bool true) (field "real_send" (bool true) end)),
      )
        ∷ []
unfolding boot
delivered_is_reported_example =
    delivered_is_reported world world world hello
      (field "ok" (bool true) (field "real_send" (bool true) end)) agent started_journal hello_named
      refl refl nothing_there hello_starts refl hello_result

abbrev no_disk : World
no_disk = record world { write = false }

abbrev unwritten_journal : Journal
unwritten_journal = record (open_journal true 1000000 missing) { last_error = write_failed }

hello_fails : Journal.start false 1000000 hello agent.journal ≡ returns (unwritten_journal, false)
unfolding boot Journal.start strip command_id Json.text_or_empty Json.or_value Json.get open_journal
    Dict.put Dict.get Dict.remove
hello_fails = refl

abbrev after_failure : Agent
after_failure = run (deliver no_disk hello ∷ work no_disk 0 ∷ work no_disk 0 ∷ []) agent

failed_start_is_ignored_example :
    (after_failure.running ≡ agent.running)
    × (after_failure.effects ≡ agent.effects)
    × (step (deliver world hello) (run (retry ∷ []) after_failure) ≡ run (retry ∷ []) after_failure)
failed_start_is_ignored_example =
    failed_start_is_ignored no_disk world (retry ∷ []) hello agent unwritten_journal hello_named
      (unfold boot in refl) (unfold boot in refl) nothing_there hello_fails (unfold boot in λ h. h)
      (tt, tt) (tt, tt)
