-- ===== src/Commands/Outcomes.antt =====
-- What one command of the channel of bridge/agent.py leads to.
use pdd_bridge_agent.Prelude.{
  suc, ◌+◌, ◌≤◌, Bool, true, false, not, ◌&&◌, Option, none, some, List, [], ◌∷◌, ◌++◌, String,
  str_eq, if◌then◌else◌, member, ◌≡◌, ◌≢◌, ◌↔◌, refl, ap, ◌∙◌, arith, eq_iff, eq_refl, ne_of_str_eq,
  Bool-cases, inl, inr, or_left,
}
use pdd_bridge_agent.Text.{is_blank, lower_is}
use pdd_bridge_agent.Json
use pdd_bridge_agent.Json.{Value, Fields, bool, text}
use pdd_bridge_agent.Json.Laws
use pdd_bridge_agent.Journal
use pdd_bridge_agent.Journal.{Journal, Entry, returns, Outcome, value_error}
use pdd_bridge_agent.Commands.Channel.{
  Agent, World, Running, claimed, looked, admitted, performed, field_of, journal_error,
}
use pdd_bridge_agent.Commands.Admission.{
  claim, cut_claims, receive, look_up, start_command, admit_started, report,
}
use pdd_bridge_agent.Commands.Single.{KeepsClaim}
use pdd_bridge_agent.Commands.Claims.{IsLater, run-claimed}
use pdd_bridge_agent.Commands.AtMostOnce.{KeepsClaims}
use pdd_bridge_agent.Upload.Batches.{Every}
use pdd_bridge_agent.Commands.Verdicts.{only_question_marks}
use pdd_bridge_agent.Commands.Dispatch.{type_of, expired, dispatch, send, note_self_send}
use pdd_bridge_agent.Commands.Conclusion.{final_result, result_for_ack, conclude, stored_result}
use pdd_bridge_agent.Commands.Steps.{Step, deliver, work, step, run, pick, perform, dispatched}
use pdd_bridge_agent.Commands.Bounded.{count_sent}

-- A result of a send whose outcome is not known, in whatever case its status is written, is never
-- reported as done: `ok` is false, it is marked uncertain, and it is not to be tried again.
pub uncertain_never_ok :
    (cmd result : Fields)
    → lower_is (Json.text_or_empty (Json.get result "status")) "indeterminate" ≡ true
    → (Json.get (final_result cmd result) "ok" ≡ bool false)
      × (Json.get (final_result cmd result) "delivery_uncertain" ≡ bool true)
      × (Json.get (final_result cmd result) "retryable" ≡ bool false)
      × (Json.get (final_result cmd result) "status" ≡ Json.get result "status")
unfolding final_result result_for_ack
uncertain_never_ok cmd result h =
    let token : Value = text (Json.text_or_empty (Json.get cmd "lease_token")) in
    let r1 : Fields = Json.put result "ok" (bool false) in
    let r2 : Fields = Json.put r1 "delivery_uncertain" (bool true) in
    let r3 : Fields = Json.put r2 "retryable" (bool false) in
    let marked : final_result cmd result ≡ Json.set_default r3 "command_lease_token" token = rw h in
    let kept : (k : String)
        → "command_lease_token" ≢ k
        → Json.get (final_result cmd result) k ≡ Json.get r3 k =
      λ k ne.
        ap (λ (r : Fields). Json.get r k) marked
        ∙ Laws.get-set_default_ne r3 "command_lease_token" k token ne in
    (
      kept "ok" (ne_of_str_eq "command_lease_token" "ok" refl)
          ∙ Laws.get-put r2 "retryable" "ok" (bool false)
          ∙ Laws.get-put r1 "delivery_uncertain" "ok" (bool true)
          ∙ Laws.get-put result "ok" "ok" (bool false),
      kept "delivery_uncertain" (ne_of_str_eq "command_lease_token" "delivery_uncertain" refl)
          ∙ Laws.get-put r2 "retryable" "delivery_uncertain" (bool false)
          ∙ Laws.get-put r1 "delivery_uncertain" "delivery_uncertain" (bool true),
      kept "retryable" (ne_of_str_eq "command_lease_token" "retryable" refl)
          ∙ Laws.get-put r2 "retryable" "retryable" (bool false),
      kept "status" (ne_of_str_eq "command_lease_token" "status" refl)
          ∙ Laws.get-put r2 "retryable" "status" (bool false)
          ∙ Laws.get-put r1 "delivery_uncertain" "status" (bool true)
          ∙ Laws.get-put result "ok" "status" (bool false),
    )

abbrev is_send : World → Fields → Bool
is_send w cmd =
    str_eq (type_of cmd) "send_text"
    && not (expired w cmd)
    && not (only_question_marks (field_of cmd "content"))

send-counted :
    (w : World) (id : String) (cmd : Fields) (a : Agent)
    → count_sent id (send w id cmd a).0.effects ≡ suc (count_sent id a.effects)
unfolding send count_sent note_self_send
send-counted w id cmd a = ground (arith, eq_refl id)

dispatch-counted :
    (w : World) (id : String) (cmd : Fields) (a : Agent)
    → count_sent id (dispatch w id cmd a).0.effects
      ≡ (if is_send w cmd then suc (count_sent id a.effects) else count_sent id a.effects)
unfolding dispatch count_sent
dispatch-counted w id cmd a = elim (Bool-cases (str_eq (type_of cmd) "send_text")) [
  | inl e ↦ rw ((eq_iff (type_of cmd) "send_text").0 e) (ground (arith, send-counted w id cmd a))
  | inr n ↦ ground arith
]

-- A message goes to the platform exactly for a text command that has not expired and is not question
-- marks alone, and then once.
pub sends_exactly :
    (w : World) (id : String) (cmd : Fields) (a : Agent)
    → ((count_sent id (dispatch w id cmd a).0.effects ≡ suc (count_sent id a.effects)) ↔ (
        (type_of cmd ≡ "send_text")
        × (expired w cmd ≡ false)
        × (only_question_marks (field_of cmd "content") ≡ false)))
      × (count_sent id (dispatch w id cmd a).0.effects ≤ suc (count_sent id a.effects))
sends_exactly w id cmd a =
    let counted = dispatch-counted w id cmd a in
    (ground (arith, counted, eq_iff (type_of cmd) "send_text"), ground (arith, counted))

-- A new command between its first steps: it is claimed, and counted
abbrev taken_in : World → Fields → Running → Agent → Agent
taken_in w cmd r a = record a {
  claimed = cut_claims w (Journal.command_id cmd ∷ a.claimed);
  received = a.received + 1;
  running = r ∷ a.running;
}

receive-new :
    (w : World) (cmd : Fields) (a : Agent)
    → is_blank (Journal.command_id cmd) ≡ false
    → member (Journal.command_id cmd) a.claimed ≡ false
    → member (Journal.command_id cmd) a.done ≡ false
    → receive w cmd a ≡ taken_in w cmd (claimed cmd) a
unfolding receive claim
receive-new w cmd a named c d = rw (named, c, d) refl

look_up-new :
    (w : World) (cmd : Fields) (a : Agent)
    → member (Journal.command_id cmd) a.done ≡ false
    → Journal.get a.journal (Journal.command_id cmd) ≡ none
    → step (work w 0) (taken_in w cmd (claimed cmd) a) ≡ taken_in w cmd (looked cmd) a
unfolding step pick look_up
look_up-new w cmd a d g = rw (g, d) refl

-- The claim of a new command and its look into the journal
looked_first :
    (w : World) (cmd : Fields) (a : Agent)
    → is_blank (Journal.command_id cmd) ≡ false
    → member (Journal.command_id cmd) a.claimed ≡ false
    → member (Journal.command_id cmd) a.done ≡ false
    → Journal.get a.journal (Journal.command_id cmd) ≡ none
    → run (deliver w cmd ∷ work w 0 ∷ work w 0 ∷ []) a
      ≡ admit_started cmd
          (record (taken_in w cmd (looked cmd) a) { running = a.running })
          (Journal.start w.write w.now cmd a.journal)
unfolding run step pick start_command
looked_first w cmd a named c d g =
    ap (λ (b : Agent). step (work w 0) (step (work w 0) b)) (receive-new w cmd a named c d)
    ∙ ap (λ (b : Agent). step (work w 0) b) (look_up-new w cmd a d g)

-- The queue of reports and the workers are as they were.
abbrev SameQueue : Agent → Agent × Option Fields → Type 0
SameQueue a r =
    (r.0.report_pending ≡ a.report_pending)
    × (r.0.report_queue ≡ a.report_queue)
    × (r.0.running ≡ a.running)

send-SameQueue :
    (w : World) (id : String) (cmd : Fields) (a : Agent) → SameQueue a (send w id cmd a)
unfolding send note_self_send
send-SameQueue w id cmd a = (ground arith, ground arith, ground arith)

dispatch-SameQueue :
    (w : World) (id : String) (cmd : Fields) (a : Agent) → SameQueue a (dispatch w id cmd a)
unfolding dispatch
dispatch-SameQueue w id cmd a =
    let sent_same = send-SameQueue w id cmd a in
    (ground (arith, sent_same.0), ground (arith, sent_same.1), ground (arith, sent_same.2))

-- The result of a dispatch does not depend on the agent.
dispatch-result :
    (w : World) (id : String) (cmd : Fields) (a b : Agent)
    → (dispatch w id cmd a).1 ≡ (dispatch w id cmd b).1
unfolding dispatch send
dispatch-result w id cmd a b = ground arith

dispatched_next :
    (id : String) (cmd result : Fields) (d : Agent × Option Fields)
    → d.1 ≡ some result
    → ((dispatched id cmd d).running ≡ performed id (final_result cmd result) ∷ d.0.running)
      × ((dispatched id cmd d).report_pending ≡ d.0.report_pending)
      × ((dispatched id cmd d).report_queue ≡ d.0.report_queue)
dispatched_next id cmd result d e = (ground arith, ground arith, ground arith)

stored_result-queue :
    (a : Agent) (o : Outcome (Journal × Bool))
    → ((stored_result a o).report_queue ≡ a.report_queue)
      × ((stored_result a o).report_pending ≡ a.report_pending)
stored_result-queue a o = (ground arith, ground arith)

conclude-queue :
    (w : World) (id : String) (result : Fields) (a : Agent)
    → is_blank id ≡ false
    → member id a.report_pending ≡ false
    → (conclude w id result a).report_queue ≡ a.report_queue ++ (id, result) ∷ []
unfolding conclude report
conclude-queue w id result a named new =
    let (queue, pending) =
      stored_result-queue a (Journal.store_result w.write w.now id result a.journal) in
    ground (arith, queue, pending)

-- The steps of a command that was admitted
worked_is_reported :
    (w' w'' : World) (cmd result : Fields) (a a1 : Agent)
    → is_blank (Journal.command_id cmd) ≡ false
    → member (Journal.command_id cmd) a.report_pending ≡ false
    → (dispatch w' (Journal.command_id cmd) cmd a).1 ≡ some result
    → a1.running ≡ admitted cmd ∷ a.running
    → a1.report_pending ≡ a.report_pending
    → a1.report_queue ≡ a.report_queue
    → (step (work w'' 0) (step (work w' 0) a1)).report_queue
      ≡ a.report_queue ++ (Journal.command_id cmd, final_result cmd result) ∷ []
unfolding step pick
worked_is_reported w' w'' cmd result a a1 named new e running1 pending1 queue1 =
    let id : String = Journal.command_id cmd in
    let b1 : Agent = record a1 { running = a.running } in
    let r : Agent × Option Fields = dispatch w' id cmd b1 in
    let (kept_pending, kept_queue, kept_running) = dispatch-SameQueue w' id cmd b1 in
    let a2 : Agent = dispatched id cmd r in
    let (running2, pending2, queue2) =
      dispatched_next id cmd result r (dispatch-result w' id cmd b1 a ∙ e) in
    let worked : perform w' (pick 0 a1.running) a1 ≡ a2 =
      ap (λ (rs : List Running). perform w' (pick 0 rs) a1) running1 in
    let b2 : Agent = record a2 { running = r.0.running } in
    let concluded : perform w'' (pick 0 a2.running) a2
        ≡ conclude w'' id (final_result cmd result) b2 =
      ap (λ (rs : List Running). perform w'' (pick 0 rs) a2) running2 in
    ap (λ (x : Agent). (perform w'' (pick 0 x.running) x).report_queue) worked
    ∙ ap (λ (x : Agent). x.report_queue) concluded
    ∙ conclude-queue w'' id (final_result cmd result) b2 named
        (ap (member id) (pending2 ∙ kept_pending ∙ pending1) ∙ new)
    ∙ ap (λ (q : List (String × Fields)). q ++ (id, final_result cmd result) ∷ [])
        (queue2 ∙ kept_queue ∙ queue1)

-- A delivery of what is claimed
refused_again :
    (w : World) (cmd : Fields) (a : Agent)
    → is_blank (Journal.command_id cmd) ≡ false
    → member (Journal.command_id cmd) a.claimed ≡ true
    → step (deliver w cmd) a ≡ a
unfolding step receive claim
refused_again w cmd a named h = rw (named, h) refl

-- A command that is new to the agent, whose start is written, of which no report is queued and whose
-- dispatch has a result, is executed and ends in the queue of reports with that result, made ready,
-- whether or not the result can be written to the journal.
pub delivered_is_reported :
    (w w' w'' : World) (cmd result : Fields) (a : Agent) (j : Journal)
    → is_blank (Journal.command_id cmd) ≡ false
    → member (Journal.command_id cmd) a.claimed ≡ false
    → member (Journal.command_id cmd) a.done ≡ false
    → Journal.get a.journal (Journal.command_id cmd) ≡ none
    → Journal.start w.write w.now cmd a.journal ≡ returns (j, true)
    → member (Journal.command_id cmd) a.report_pending ≡ false
    → (dispatch w' (Journal.command_id cmd) cmd a).1 ≡ some result
    → (run (deliver w cmd ∷ work w 0 ∷ work w 0 ∷ work w' 0 ∷ work w'' 0 ∷ []) a).report_queue
      ≡ a.report_queue ++ (Journal.command_id cmd, final_result cmd result) ∷ []
delivered_is_reported w w' w'' cmd result a j named c d g s new e =
    let a1 : Agent = record (taken_in w cmd (admitted cmd) a) { journal = j } in
    let first : run (deliver w cmd ∷ work w 0 ∷ work w 0 ∷ []) a ≡ a1 =
      looked_first w cmd a named c d g
      ∙ ap (admit_started cmd (record (taken_in w cmd (looked cmd) a) { running = a.running })) s in
    unfold run in
    ap (λ (x : Agent). (step (work w'' 0) (step (work w' 0) x)).report_queue) (unfold run in first)
    ∙ worked_is_reported w' w'' cmd result a a1 named new e refl refl refl

-- A new command whose start could not be written to the journal is not executed, and it stays claimed: as long as
-- the process runs and no cut of the claimed set drops its id, a later delivery of it changes nothing at all,
-- whatever has happened in between.
pub failed_start_is_ignored :
    (w w' : World) (later : List Step) (cmd : Fields) (a : Agent) (j : Journal)
    → is_blank (Journal.command_id cmd) ≡ false
    → member (Journal.command_id cmd) a.claimed ≡ false
    → member (Journal.command_id cmd) a.done ≡ false
    → Journal.get a.journal (Journal.command_id cmd) ≡ none
    → Journal.start w.write w.now cmd a.journal ≡ returns (j, false)
    → KeepsClaim (Journal.command_id cmd) (deliver w cmd) a
    → Every IsLater later
    → KeepsClaims (Journal.command_id cmd) later (run (deliver w cmd ∷ work w 0 ∷ work w 0 ∷ []) a)
    → let a' = run (deliver w cmd ∷ work w 0 ∷ work w 0 ∷ []) a in
      (a'.running ≡ a.running)
      × (a'.effects ≡ a.effects)
      × (step (deliver w' cmd) (run later a') ≡ run later a')
failed_start_is_ignored w w' later cmd a j named c d g s k l ks =
    let id : String = Journal.command_id cmd in
    let a1 : Agent = record (taken_in w cmd (looked cmd) a) {
      running = a.running;
      journal = j;
      last_error = journal_error j.last_error;
    } in
    let a' : Agent = run (deliver w cmd ∷ work w 0 ∷ work w 0 ∷ []) a in
    let first : a' ≡ a1 =
      looked_first w cmd a named c d g
      ∙ ap (admit_started cmd (record (taken_in w cmd (looked cmd) a) { running = a.running })) s in
    let self : member id (id ∷ a.claimed) ≡ true = or_left (str_eq id id) _ (eq_refl id) in
    let held : member id a'.claimed ≡ true =
      ap (λ (x : Agent). member id x.claimed) first ∙ k self in
    (
      ap (λ (x : Agent). x.running) first,
      ap (λ (x : Agent). x.effects) first,
      refused_again w' cmd (run later a') named (run-claimed id later a' l ks held),
    )
