-- ===== src/Commands/Admission.antt =====
-- `_execute_command` of bridge/agent.py up to the journal, in three parts, since each holds a lock of its own and
-- other threads come between them: `_claim_command`, what the journal already has, and `start`; and
-- `_report_command_result`.
use pdd_bridge_agent.Prelude.{
  ◌+◌, Bool, true, false, ◌||◌, Option, none, some, List, [], ◌∷◌, ◌++◌, String, ltb, if◌then◌else◌,
  length, member,
}
use pdd_bridge_agent.Text.{is_blank}
use pdd_bridge_agent.Json.{Fields, end}
use pdd_bridge_agent.Journal
use pdd_bridge_agent.Journal.{
  Journal, Entry, State, result_pending, returns, value_error, LastError, clear, load_failed,
  write_failed, Outcome, File, open_journal,
}
use pdd_bridge_agent.Commands.Channel.{Agent, World, journal_error, claimed, looked, admitted}

-- The claimed set is bounded at 2000 and cut down to 1000.
abbrev pub cut_claims : World → List String → List String
cut_claims w ids = if ltb 2000 (length ids) then w.trim 1000 ids else ids

-- `_claim_command`
unfoldable pub claim : World → String → Agent → Agent × Bool
claim w id a =
    if member id a.claimed || member id a.done
    then (a, false)
    else (record a { claimed = cut_claims w (id ∷ a.claimed) }, true)

-- `_report_command_result`: queued once, until the worker has handled it
unfoldable pub report : String → Fields → Agent → Agent
report id result a = if is_blank id || member id a.report_pending then a else record a {
  report_queue = a.report_queue ++ (id, result) ∷ [];
  report_pending = id ∷ a.report_pending;
}

-- `dict(existing.get("result") or {})`
abbrev pub result_or_empty : Option Fields → Fields
result_or_empty none = end
result_or_empty (some r) = r

-- The branch on a record that the journal already has.
abbrev pub replay : String → Entry → Agent → Agent
replay id e a = elim e.state [ result_pending ↦ report id (result_or_empty e.result) a | _ ↦ a ]

abbrev pub take_claimed : Fields → Agent × Bool → Agent
take_claimed cmd (a, false) = a
take_claimed cmd (a, true) = record a {
  received = a.received + 1;
  running = claimed cmd ∷ a.running;
}

-- `_execute_command` as far as the claim
unfoldable pub receive : World → Fields → Agent → Agent
unfolding claim
receive w cmd a =
    let id = Journal.command_id cmd in
    if is_blank id then record a { no_id = a.no_id + 1 } else take_claimed cmd (claim w id a)

abbrev pub look_found : String → Fields → Agent → Option Entry → Agent
look_found id cmd a (some e) = replay id e a
look_found id cmd a none =
    if member id a.done then a else record a { running = looked cmd ∷ a.running }

-- What the journal has of a claimed command, up to the test on `_commands_done`
unfoldable pub look_up : Fields → Agent → Agent
unfolding report
look_up cmd a =
    look_found (Journal.command_id cmd) cmd a (Journal.get a.journal (Journal.command_id cmd))

abbrev pub admit_started : Fields → Agent → Outcome (Journal × Bool) → Agent
admit_started cmd a value_error = a
admit_started cmd a (returns (j, true)) = record a {
  journal = j;
  running = admitted cmd ∷ a.running;
}
admit_started cmd a (returns (j, false)) = record a {
  journal = j;
  last_error = journal_error j.last_error;
}

-- The start in the journal, without which the command is not executed
unfoldable pub start_command : World → Fields → Agent → Agent
start_command w cmd a = admit_started cmd a (Journal.start w.write w.now cmd a.journal)
