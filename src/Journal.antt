-- ===== src/Journal.antt =====
-- The command journal of bridge/command_journal.py: the records in memory, the file on disk, and
-- every method. Whether a write of the file succeeds is an argument: the temporary file is
-- replaced in one step, so a failed write leaves the old file.
pub mod Loading
pub mod Invariants
pub mod Recovery
pub mod Results
pub mod Presence
use pdd_bridge_agent.Prelude.{
  ℕ, suc, Bool, true, false, Option, none, some, List, [], ◌∷◌, String, if◌then◌else◌, ◌||◌,
}
use pdd_bridge_agent.Text.{strip, is_blank, or_text}
use pdd_bridge_agent.Dict
use pdd_bridge_agent.Dict.{Dict}
use pdd_bridge_agent.Json.{Value, Fields, end, field, bool, text, null}
use pdd_bridge_agent.Json

-- `record["state"]`; `unknown` is any other value that a file may hold.
pub data State : Type 0 where
  executing result_pending unknown : State

-- One record. A field is `none` where the key is missing, and `result` also where its value is
-- no dict, which is all that the code asks of it. Times are ticks of `time.time()`.
pub record Entry : Type 0 where
  pub state : State
  pub command : Option Fields
  pub started_at : Option ℕ
  pub result : Option Fields
  pub result_at : Option ℕ
  pub recovered_at : Option ℕ

-- `self.last_error`, by its prefix
pub data LastError : Type 0 where
  clear load_failed write_failed : LastError

-- What stands in the file under one id: a dict, or something else.
pub data Raw : Type 0 where
  entry : Entry → Raw
  not_dict : Raw

-- The file: not there; not readable or no JSON; JSON that is no dict; a dict whose `records` is
-- no dict; a dict of records.
pub data File : Type 0 where
  missing broken no_object bad_records : File
  stored : List (String × Raw) → File

pub record Journal : Type 0 where
  pub records : Dict Entry
  pub load_ok : Bool
  pub last_error : LastError
  pub disk : File

-- What `json.dumps` writes of the records.
unfoldable pub image : Dict Entry → List (String × Raw)
image [] = []
image ((k, e) ∷ d) = (k, entry e) ∷ image d

-- `_persist_locked`: the flag says whether the write succeeds.
unfoldable pub persist : Bool → Journal → Journal × Bool
persist true j = (record j { last_error = clear; disk = stored (image j.records) }, true)
persist false j = (record j { last_error = write_failed }, false)

unfoldable pub indeterminate_result : Fields
indeterminate_result = field "ok" (bool false) (
    field "status" (text "indeterminate") (
      field "error" (text "agent restarted during command execution") (
        field "error_user" (text "桥接在发送过程中重启，结果未知；为避免重复发送，请人工核对会话")
          (field "real_send" null (field "via" (text "command_recovery") end)))))

-- A record that was executing when the process ended gets the indeterminate result.
unfoldable pub recover : ℕ → Entry → Entry
recover now e = elim e.state [
  | executing ↦ record e {
    state = result_pending;
    result = some indeterminate_result;
    recovered_at = some now;
  }
  | _ ↦ e
]

abbrev pub was_executing : State → Bool
was_executing executing = true
was_executing _ = false

-- One turn of the loop of `_load`, on the records so far and `changed`.
unfoldable pub load_one : ℕ → String × Raw → Dict Entry × Bool → Dict Entry × Bool
load_one now (k, not_dict) s = s
load_one now (k, entry e) s =
    if is_blank (strip k) then s else (Dict.put s.0 k (recover now e), was_executing e.state || s.1)

unfoldable pub load_records : ℕ → List (String × Raw) → Dict Entry × Bool → Dict Entry × Bool
load_records now [] s = s
load_records now (raw ∷ rest) s = load_records now rest (load_one now raw s)

abbrev persist_if : Bool → Bool → Journal → Journal
persist_if true write j = (persist write j).0
persist_if false write j = j

unfoldable pub fresh : File → Journal
fresh file = record { records = []; load_ok = true; last_error = clear; disk = file }

-- `__init__` with `_load`: a failed load leaves the journal shut.
unfoldable pub open_journal : Bool → ℕ → File → Journal
unfolding fresh persist
open_journal write now missing = fresh missing
open_journal write now broken = record (fresh broken) { load_ok = false; last_error = load_failed }
open_journal write now no_object = fresh no_object
open_journal write now bad_records = record (fresh bad_records) {
  load_ok = false;
  last_error = load_failed;
}
open_journal write now (stored raws) =
    let (records, changed) = load_records now raws ([], false) in
    persist_if changed write (record (fresh (stored raws)) { records = records })

-- `str(command.get("id") or command.get("command_id") or "").strip()`
unfoldable pub command_id : Fields → String
command_id command =
    strip
      (Json.text_or_empty (Json.or_value (Json.get command "id") (Json.get command "command_id")))

-- `raise ValueError("command id is required")`, or a result with the new state
pub data Outcome {ℓ} (A : Type ℓ) : Type ℓ where
  value_error : Outcome A
  returns : A → Outcome A

abbrev restore : Option Entry → String → Dict Entry → Dict Entry
restore none id d = Dict.remove d id
restore (some e) id d = Dict.put d id e

abbrev after_start : Journal → String → Journal × Bool → Journal × Bool
after_start j id (j', true) = (j', true)
after_start j id (j', false) =
    (record j' { records = restore (Dict.get j.records id) id j'.records }, false)

unfoldable pub started : ℕ → Fields → Entry
started now command = record {
  state = executing;
  command = some command;
  started_at = some now;
  result = none;
  result_at = none;
  recovered_at = none;
}

unfoldable pub start_id : Bool → ℕ → String → Fields → Journal → Outcome (Journal × Bool)
unfolding started persist
start_id write now id command j =
    if is_blank id
    then value_error
    else if j.load_ok
    then returns (
        after_start j id
          (persist write (record j { records = Dict.put j.records id (started now command) })))
    else returns (j, false)

-- `start`
unfoldable pub start : Bool → ℕ → Fields → Journal → Outcome (Journal × Bool)
unfolding start_id
start write now command j = start_id write now (command_id command) command j

unfoldable pub blank_entry : Entry
blank_entry = record {
  state = unknown;
  command = none;
  started_at = none;
  result = none;
  result_at = none;
  recovered_at = none;
}

unfoldable pub with_result : ℕ → Fields → Option Entry → Entry
unfolding blank_entry
with_result now result found = record (Dict.or_else found blank_entry) {
  state = result_pending;
  result = some result;
  result_at = some now;
}

-- `store_result`
unfoldable pub store_result : Bool → ℕ → String → Fields → Journal → Outcome (Journal × Bool)
unfolding with_result persist
store_result write now id result j =
    if is_blank (strip id)
    then value_error
    else returns (
        persist write (record j {
          records =
              Dict.put j.records (strip id)
                (with_result now result (Dict.get j.records (strip id)));
        }))

-- `get`
unfoldable pub get : Journal → String → Option Entry
get j id = Dict.get j.records (strip id)

abbrev pending_of : String → Entry → List (String × Fields) → List (String × Fields)
pending_of k e rest = elim e.state [
  | result_pending ↦ elim e.result [ none ↦ rest | some r ↦ (k, r) ∷ rest ]
  | _ ↦ rest
]

unfoldable pub pending_in : Dict Entry → List (String × Fields)
pending_in [] = []
pending_in ((k, e) ∷ d) = pending_of k e (pending_in d)

-- `pending_results`
unfoldable pub pending_results : Journal → List (String × Fields)
unfolding pending_in
pending_results j = pending_in j.records

-- `remove`
unfoldable pub remove : Bool → String → Journal → Journal × Bool
unfolding persist
remove write id j = persist write (record j { records = Dict.remove j.records (strip id) })

unfoldable count_entries : Dict Entry → ℕ
count_entries [] = 0
count_entries (e ∷ d) = suc (count_entries d)

-- `pending_count`
unfoldable pub pending_count : Journal → ℕ
unfolding count_entries
pending_count j = count_entries j.records
