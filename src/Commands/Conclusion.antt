-- ===== src/Commands/Conclusion.antt =====
-- The end of `_execute_command` of bridge/agent.py: the result is made ready, journaled and queued; and
-- `_retry_command_results`.
use pdd_bridge_agent.Prelude.{Bool, true, false, List, [], ◌∷◌, String, if◌then◌else◌}
use pdd_bridge_agent.Text.{is_blank, lower_is}
use pdd_bridge_agent.Json
use pdd_bridge_agent.Json.{Value, Fields, end, field, null, bool, num, text, obj, other}
use pdd_bridge_agent.Journal
use pdd_bridge_agent.Journal.{
  Journal, Entry, State, result_pending, returns, value_error, LastError, clear, load_failed,
  write_failed, Outcome, File, open_journal,
}
use pdd_bridge_agent.Commands.Channel.{Agent, World, journal_error}
use pdd_bridge_agent.Commands.Admission.{report}

-- `_command_result_for_ack`
unfoldable pub result_for_ack : Fields → Fields
result_for_ack result =
    if lower_is (Json.text_or_empty (Json.get result "status")) "indeterminate"
    then Json.put (Json.put (Json.put result "ok" (bool false)) "delivery_uncertain" (bool true))
        "retryable" (bool false)
    else result

-- What is stored and reported: never an unverified send as done, and with the command's lease.
unfoldable pub final_result : Fields → Fields → Fields
unfolding result_for_ack
final_result cmd result =
    Json.set_default (result_for_ack result) "command_lease_token"
      (text (Json.text_or_empty (Json.get cmd "lease_token")))

abbrev pub stored_result : Agent → Outcome (Journal × Bool) → Agent
stored_result a value_error = a
stored_result a (returns (j, true)) = record a { journal = j }
stored_result a (returns (j, false)) = record a {
  journal = j;
  last_error = journal_error j.last_error;
}

-- The end of `_execute_command`: the result is journaled, then reported whether or not that worked.
unfoldable pub conclude : World → String → Fields → Agent → Agent
unfolding report
conclude w id result a =
    report id result (stored_result a (Journal.store_result w.write w.now id result a.journal))

-- `_retry_command_results`: each pending result is queued again; a blank id ends the loop.
unfoldable pub report_all : List (String × Fields) → Agent → Agent
report_all [] a = a
report_all ((id, result) ∷ rest) a = if is_blank id then a else report_all rest (report id result a)

unfoldable pub retry_results : Agent → Agent
unfolding report_all
retry_results a = report_all (Journal.pending_results a.journal) a
