-- ===== src/Tests/Journal.antt =====
-- A journal of one command.
use pdd_bridge_agent.Prelude.{true, none, some, [], ◌∷◌, String, ◌≡◌, ◌≢◌, refl}
use pdd_bridge_agent.Text.{strip}
use pdd_bridge_agent.Dict
use pdd_bridge_agent.Json
use pdd_bridge_agent.Json.{Value, Fields, end, field, text, bool}
use pdd_bridge_agent.Journal
use pdd_bridge_agent.Journal.{
  Entry, State, result_pending, Journal, missing, broken, stored, returns, open_journal, started,
  command_id, indeterminate_result, with_result, pending_results, entry, image,
}
use pdd_bridge_agent.Journal.Invariants.{IsDurable, Op, run, run-IsDurable, open-IsDurable}
use pdd_bridge_agent.Journal.Recovery.{crash_after_start, result_survives_crash, recovered}

abbrev hello : Fields
hello = field "id" (text "c1") end

abbrev done : Fields
done = field "ok" (bool true) end

abbrev empty : Journal
empty = open_journal true 1 missing

abbrev running : Journal
running = record empty {
  records = ("c1", started 2 hello) ∷ [];
  disk = stored (("c1", entry (started 2 hello)) ∷ []);
}

abbrev finished : Journal
finished = record empty {
  records = ("c1", with_result 2 done none) ∷ [];
  disk = stored (("c1", entry (with_result 2 done none)) ∷ []);
}

run-IsDurable_example :
    IsDurable (run (Op.start true 2 hello ∷ Op.restart true 3 ∷ []) (open_journal true 1 missing))
run-IsDurable_example =
    run-IsDurable (Op.start true 2 hello ∷ Op.restart true 3 ∷ []) true 1 missing

started_there : Journal.start true 2 hello empty ≡ returns (running, true)
unfolding Journal.start strip command_id Json.text_or_empty Json.or_value Json.get open_journal
    Dict.put image
started_there = refl

crash_after_start_example :
    (Journal.get (open_journal true 5 running.disk) (command_id hello)
      ≡ some (record (started 2 hello) {
        state = result_pending;
        result = some indeterminate_result;
        recovered_at = some 5;
      }))
    × ((k : String)
        → command_id hello ≢ k
        → Dict.get (open_journal true 5 running.disk).records k
          ≡ recovered 5 (Dict.get empty.records k))
crash_after_start_example =
    crash_after_start true true 2 5 hello empty running (open-IsDurable true 1 missing)
      started_there

stored_there : Journal.store_result true 2 "c1" done empty ≡ returns (finished, true)
unfolding Journal.store_result strip Dict.put open_journal image Dict.get
stored_there = refl

result_survives_crash_example :
    Journal.get (open_journal true 5 finished.disk) "c1"
    ≡ some (with_result 2 done (Journal.get empty "c1"))
result_survives_crash_example =
    result_survives_crash true true 2 5 "c1" done empty finished (open-IsDurable true 1 missing)
      stored_there

abbrev one_running : Journal.File
one_running = stored (("c1", entry (started 2 hello)) ∷ [])
