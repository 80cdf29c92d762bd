-- ===== src/Commands/Steps.antt =====
-- The steps of the command channel: deliveries, the steps of the workers, the report thread, and a
-- restart of the process at any point between them.
use pdd_bridge_agent.Prelude.{
  ℕ, zero, suc, Bool, true, false, ◌&&◌, ◌||◌, Option, none, some, List, [], ◌∷◌, String, str_eq,
  ltb, nat_eq, if◌then◌else◌, length, keep, not,
}
use pdd_bridge_agent.Text.{strip}
use pdd_bridge_agent.Json.{Fields}
use pdd_bridge_agent.Journal
use pdd_bridge_agent.Journal.{Journal, clear, open_journal, File}
use pdd_bridge_agent.Commands.Channel.{
  Agent, World, Running, claimed, looked, admitted, performed, Effect, settled, no_error,
  report_error, pull_error, journal_error, note,
}
use pdd_bridge_agent.Commands.Admission.{receive, look_up, start_command}
use pdd_bridge_agent.Commands.Dispatch.{dispatch}
use pdd_bridge_agent.Commands.Conclusion.{final_result, conclude, retry_results}

-- What the center answers to a result: an HTTP error with its status, and whether its
-- `command_ack` is a dict that says `retryable: False`; or a body with a `command_ack` and its
-- `committed`; or a body without one (a missing, empty or other `command_ack`) and its `ok`; or no
-- dict.
pub data Reply : Type 0 where
  failure : Option ℕ → Bool → Reply
  acknowledged : Bool → Reply
  unacknowledged : Bool → Reply
  no_dict : Reply

abbrev status_is : Option ℕ → ℕ → Bool
status_is none n = false
status_is (some m) n = nat_eq m n

-- Whether the center will not take the result any more: 404, 410, or a lease that is stale.
abbrev pub gone : Option ℕ → Bool → Bool
gone status stale = status_is status 404 || status_is status 410 || (status_is status 409 && stale)

-- The record goes and the id counts as done.
abbrev pub finished : World → String → Agent → Agent × Bool
finished w id a =
    let (j, removed) = Journal.remove w.write id a.journal in
    (note (settled (strip id)) (record a { journal = j; done = id ∷ a.done }), removed)

-- `_commands_done` is bounded at 5000 and cut down to 2000.
abbrev pub bound_done : World → Agent → Agent
bound_done w a = record a { done = if ltb 5000 (length a.done) then w.trim 2000 a.done else a.done }

abbrev pub clear_error : Bool → Agent → Agent
clear_error false a = record a { last_error = journal_error a.journal.last_error }
clear_error true a = record a {
  last_error = elim a.last_error [ pull_error ↦ pull_error | _ ↦ no_error ];
}

abbrev pub refused_result : World → String → Bool → Agent → Agent
refused_result w id false a = record a { last_error = report_error }
refused_result w id true a =
    let (a', removed) = finished w id a in
    record a' { last_error = if removed then no_error else journal_error a'.journal.last_error }

abbrev pub committed_result : World → String → Bool → Agent → Agent
committed_result w id false a = record a { last_error = report_error }
committed_result w id true a =
    let (a', removed) = finished w id a in clear_error removed (bound_done w a')

-- `_send_command_result`, on what the center answered
unfoldable pub send_command_result : World → Reply → String → Agent → Agent
send_command_result w (failure status stale) id a = refused_result w id (gone status stale) a
send_command_result w (acknowledged committed) id a = committed_result w id committed a
send_command_result w (unacknowledged ok) id a = committed_result w id ok a
send_command_result w no_dict id a = committed_result w id false a

-- One turn of the report thread: the oldest queued result is sent, and its id may be queued again.
abbrev pub report_turn : World → Reply → List (String × Fields) → Agent → Agent
report_turn w reply [] a = a
report_turn w reply ((id, result) ∷ rest) a =
    let a' = send_command_result w reply id (record a { report_queue = rest }) in
    record a' { report_pending = keep (λ s. not (str_eq s id)) a'.report_pending }

abbrev pub dispatched : String → Fields → Agent × Option Fields → Agent
dispatched id cmd (a, none) = a
dispatched id cmd (a, some result) = record a {
  running = performed id (final_result cmd result) ∷ a.running;
}

abbrev pub perform : World → Option (Running × List Running) → Agent → Agent
perform w none a = a
perform w (some (performed id result, rest)) a = conclude w id result (record a { running = rest })
perform w (some (claimed cmd, rest)) a = look_up cmd (record a { running = rest })
perform w (some (looked cmd, rest)) a = start_command w cmd (record a { running = rest })
perform w (some (admitted cmd, rest)) a =
    let id = Journal.command_id cmd in
    dispatched id cmd (dispatch w id cmd (record a { running = rest }))

-- The command at a position, and the others
unfoldable pub pick : ℕ → List Running → Option (Running × List Running)
pick n [] = none
pick zero (x ∷ xs) = some (x, xs)
pick (suc n) (x ∷ xs) =
    let rest = pick n xs in elim rest [ none ↦ none | some (y, ys) ↦ some (y, x ∷ ys) ]

pub data Step : Type 0 where
  deliver : World → Fields → Step
  work : World → ℕ → Step
  answer : World → Reply → Step
  retry : Step
  restart : World → Step

-- A new process: the journal is read from its file, and nothing else of the agent is kept. The
-- effects are no part of the agent: they are what the world has seen.
unfoldable pub boot : World → File → List Effect → Agent
boot w file effects =
    let journal = open_journal w.write w.now file in
    record {
      journal = journal;
      claimed = [];
      done = [];
      last_error = journal_error journal.last_error;
      received = 0;
      no_id = 0;
      sent_ok = 0;
      self_sends = [];
      report_queue = [];
      report_pending = [];
      running = [];
      effects = effects;
    }

unfoldable pub step : Step → Agent → Agent
unfolding pick send_command_result boot
step (deliver w cmd) a = receive w cmd a
step (work w n) a = perform w (pick n a.running) a
step (answer w reply) a = report_turn w reply a.report_queue a
step retry a = retry_results a
step (restart w) a = boot w a.journal.disk a.effects

unfoldable pub run : List Step → Agent → Agent
run [] a = a
run (s ∷ rest) a = run rest (step s a)
