-- ===== src/Commands/Claims.antt =====
-- A claim of bridge/agent.py stays as long as the process runs and no cut of the set drops it.
use pdd_bridge_agent.Prelude.{
  Bool, true, false, ◌||◌, Option, none, some, List, [], ◌∷◌, String, str_eq, member, if◌then◌else◌,
  ◌≡◌, refl, ap, ◌∙◌, if_ind, or_right,
}
use pdd_bridge_agent.Text.{is_blank}
use pdd_bridge_agent.Json.{Fields}
use pdd_bridge_agent.Journal
use pdd_bridge_agent.Journal.{Journal, Entry, State, result_pending, Outcome, value_error, returns}
use pdd_bridge_agent.Upload.Batches.{Every}
use pdd_bridge_agent.Commands.Channel.{Agent, World, Running, claimed, looked, admitted, performed}
use pdd_bridge_agent.Commands.Admission.{
  claim, cut_claims, receive, take_claimed, look_up, look_found, start_command, admit_started,
  report, result_or_empty,
}
use pdd_bridge_agent.Commands.Dispatch.{dispatch}
use pdd_bridge_agent.Commands.Conclusion.{conclude, stored_result, report_all, retry_results}
use pdd_bridge_agent.Commands.Steps.{
  Step, deliver, work, answer, retry, restart, step, run, pick, perform, dispatched, report_turn,
  send_command_result, refused_result, committed_result, finished, Reply, failure, acknowledged,
  unacknowledged, no_dict, clear_error, bound_done, gone,
}
use pdd_bridge_agent.Commands.BoundedWork.{dispatch-claimed}
use pdd_bridge_agent.Commands.Single.{KeepsClaim}
use pdd_bridge_agent.Commands.AtMostOnce.{KeepsClaims}

report-claimed :
    (id : String) (result : Fields) (a : Agent) → (report id result a).claimed ≡ a.claimed
unfolding report
report-claimed id result a =
    if_ind (λ (b : Agent). b.claimed ≡ a.claimed) (is_blank id || member id a.report_pending) _ _
      (λ e. refl) (λ e. refl)

all-claimed : (rows : List (String × Fields)) (a : Agent) → (report_all rows a).claimed ≡ a.claimed
unfolding report_all
all-claimed [] a = refl
all-claimed ((id, result) ∷ rest) a =
    if_ind (λ (b : Agent). b.claimed ≡ a.claimed) (is_blank id) _ _ (λ e. refl)
      (λ e. all-claimed rest (report id result a) ∙ report-claimed id result a)

refused-claimed :
    (w : World) (id : String) (over : Bool) (a : Agent)
    → (refused_result w id over a).claimed ≡ a.claimed
refused-claimed w id true a = refl
refused-claimed w id false a = refl

cleared-claimed : (removed : Bool) (a : Agent) → (clear_error removed a).claimed ≡ a.claimed
cleared-claimed true a = refl
cleared-claimed false a = refl

committed-claimed :
    (w : World) (id : String) (over : Bool) (a : Agent)
    → (committed_result w id over a).claimed ≡ a.claimed
committed-claimed w id true a =
    cleared-claimed (finished w id a).1 (bound_done w (finished w id a).0)
committed-claimed w id false a = refl

turn-claimed :
    (w : World) (reply : Reply) (queue : List (String × Fields)) (a : Agent)
    → (report_turn w reply queue a).claimed ≡ a.claimed
turn-claimed w reply [] a = refl
turn-claimed w reply ((id, result) ∷ rest) a = at reply
  where
    at :
        (r : Reply)
        → (send_command_result w r id (record a { report_queue = rest })).claimed ≡ a.claimed
    at (failure status stale) =
        unfold send_command_result in
        refused-claimed w id (gone status stale) (record a { report_queue = rest })
    at (acknowledged over) =
        unfold send_command_result in committed-claimed w id over (record a { report_queue = rest })
    at (unacknowledged ok) =
        unfold send_command_result in committed-claimed w id ok (record a { report_queue = rest })
    at no_dict = unfold send_command_result in refl

looked-claimed :
    (id : String) (cmd : Fields) (a : Agent) (o : Option Entry)
    → (look_found id cmd a o).claimed ≡ a.claimed
looked-claimed id cmd a none =
    if_ind (λ (b : Agent). b.claimed ≡ a.claimed) (member id a.done) _ _ (λ e. refl) (λ e. refl)
looked-claimed id cmd a (some e) = at e.state
  where
    branch : State → Agent
    branch result_pending = report id (result_or_empty e.result) a
    branch _ = a

    at : (t : State) → (branch t).claimed ≡ a.claimed
    at result_pending = report-claimed id (result_or_empty e.result) a
    at _ = refl

started-claimed :
    (cmd : Fields) (a : Agent) (o : Outcome (Journal × Bool))
    → (admit_started cmd a o).claimed ≡ a.claimed
started-claimed cmd a value_error = refl
started-claimed cmd a (returns (j, true)) = refl
started-claimed cmd a (returns (j, false)) = refl

stored-claimed :
    (a : Agent) (o : Outcome (Journal × Bool)) → (stored_result a o).claimed ≡ a.claimed
stored-claimed a value_error = refl
stored-claimed a (returns (j, true)) = refl
stored-claimed a (returns (j, false)) = refl

dispatched-claimed :
    (id : String) (cmd : Fields) (d : Agent × Option Fields)
    → (dispatched id cmd d).claimed ≡ d.0.claimed
dispatched-claimed id cmd (a, none) = refl
dispatched-claimed id cmd (a, some result) = refl

perform-claimed :
    (w : World) (o : Option (Running × List Running)) (a : Agent)
    → (perform w o a).claimed ≡ a.claimed
unfolding look_up start_command conclude
perform-claimed w none a = refl
perform-claimed w (some (claimed cmd, rest)) a =
    looked-claimed (Journal.command_id cmd) cmd (record a { running = rest })
      (Journal.get a.journal (Journal.command_id cmd))
perform-claimed w (some (looked cmd, rest)) a =
    started-claimed cmd (record a { running = rest }) (Journal.start w.write w.now cmd a.journal)
perform-claimed w (some (performed id result, rest)) a =
    let b : Agent = record a { running = rest } in
    let o = Journal.store_result w.write w.now id result a.journal in
    report-claimed id result (stored_result b o) ∙ stored-claimed b o
perform-claimed w (some (admitted cmd, rest)) a =
    let b : Agent = record a { running = rest } in
    let id : String = Journal.command_id cmd in
    dispatched-claimed id cmd (dispatch w id cmd b) ∙ dispatch-claimed w id cmd b

-- A later step of the process, which is not a restart
abbrev pub IsLater : Step → Type 0
IsLater (restart w) = ⊥
IsLater _ = Unit

received-claimed :
    (id : String) (w : World) (cmd : Fields) (a : Agent)
    → KeepsClaim id (deliver w cmd) a
    → member id a.claimed ≡ true
    → member id (receive w cmd a).claimed ≡ true
unfolding receive claim
received-claimed id w cmd a k h =
    let P = λ (b : Agent). member id b.claimed ≡ true in
    if_ind P (is_blank (Journal.command_id cmd)) _ _ (λ e. h)
      (λ e.
        at (member (Journal.command_id cmd) a.claimed || member (Journal.command_id cmd) a.done))
  where
    at :
        (b : Bool)
        → member id
            (take_claimed cmd (
              if b then (a, false) else (
                record a { claimed = cut_claims w (Journal.command_id cmd ∷ a.claimed) },
                true,
              ))).claimed
          ≡ true
    at true = h
    at false = k (or_right (str_eq (Journal.command_id cmd) id) _ h)

claimed_stays :
    (id : String) (s : Step) (a : Agent)
    → IsLater s
    → KeepsClaim id s a
    → member id a.claimed ≡ true
    → member id (step s a).claimed ≡ true
unfolding step retry_results
claimed_stays id (deliver w cmd) a l k h = received-claimed id w cmd a k h
claimed_stays id (work w n) a l k h = ap (member id) (perform-claimed w (pick n a.running) a) ∙ h
claimed_stays id (answer w reply) a l k h =
    ap (member id) (turn-claimed w reply a.report_queue a) ∙ h
claimed_stays id retry a l k h =
    ap (member id) (all-claimed (Journal.pending_results a.journal) a) ∙ h
claimed_stays id (restart w) a l k h = absurd l

pub run-claimed :
    (id : String) (later : List Step) (a : Agent)
    → Every IsLater later
    → KeepsClaims id later a
    → member id a.claimed ≡ true
    → member id (run later a).claimed ≡ true
unfolding run
run-claimed id [] a l k h = h
run-claimed id (s ∷ rest) a l k h =
    run-claimed id rest (step s a) l.1 k.1 (claimed_stays id s a l.0 k.0 h)
