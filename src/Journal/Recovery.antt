-- ===== src/Journal/Recovery.antt =====
-- A crash between two calls: what the next process finds in the journal file.
use pdd_bridge_agent.Prelude.{
  ℕ, Bool, true, false, Option, none, some, List, [], ◌∷◌, String, ◌≡◌, ◌≢◌, refl, ap, arith, ◌∙◌,
  sym, subst,
}
use pdd_bridge_agent.Text.{strip, is_blank}
use pdd_bridge_agent.Text.Strip.{strip-strip}
use pdd_bridge_agent.Dict
use pdd_bridge_agent.Dict.{Dict}
use pdd_bridge_agent.Dict.Laws
use pdd_bridge_agent.Json.{Fields}
use pdd_bridge_agent.Journal
use pdd_bridge_agent.Journal.{
  Entry, State, executing, result_pending, Raw, Journal, File, LastError, clear, load_failed,
  missing, broken, no_object, bad_records, stored, image, persist, recover, load_records, fresh,
  open_journal, was_executing, Outcome, value_error, returns, started, indeterminate_result,
  with_result, command_id, restore, persist_if, write_failed,
}
use pdd_bridge_agent.Journal.Loading.{
  KeysOk, recover_all, IsSettled, put-KeysOk, remove-KeysOk, load-IsSettled, recover_settled,
}
use pdd_bridge_agent.Journal.Invariants.{
  IsDurable, reload, start_stored, open-stored_records, written, command_id_stripped, Op, step, run,
}

-- `recover` on what a lookup finds
abbrev pub recovered : ℕ → Option Entry → Option Entry
recovered now none = none
recovered now (some e) = some (recover now e)

get-recover_all :
    (now : ℕ) (d : Dict Entry) (k : String)
    → Dict.get (recover_all now d) k ≡ recovered now (Dict.get d k)
unfolding Dict.get recover_all
get-recover_all now [] k = refl
get-recover_all now ((j, e) ∷ d) k = ground (arith, get-recover_all now d k)

-- The next process finds under each id the recovered record.
pub get-reload :
    (write : Bool) (later : ℕ) (d : Dict Entry) (k : String)
    → KeysOk d
    → Dict.get (open_journal write later (stored (image d))).records k
      ≡ recovered later (Dict.get d k)
get-reload write later d k ok =
    ap (λ (r : Dict Entry). Dict.get r k) (reload write later d ok) ∙ get-recover_all later d k

-- If `start` returned True on a durable journal and the process ends at once, the next process,
-- whenever it starts and whether its own write succeeds or not, finds the command with a pending
-- result that is indeterminate, and every other record as it was, executing ones recovered.
pub crash_after_start :
    (write w : Bool) (now later : ℕ) (command : Fields) (j j' : Journal)
    → IsDurable j
    → Journal.start write now command j ≡ returns (j', true)
    → (Journal.get (open_journal w later j'.disk) (command_id command)
        ≡ some (record (started now command) {
          state = result_pending;
          result = some indeterminate_result;
          recovered_at = some later;
        }))
      × ((k : String)
          → command_id command ≢ k
          → Dict.get (open_journal w later j'.disk).records k
            ≡ recovered later (Dict.get j.records k))
unfolding Journal.get recover started
crash_after_start write w now later command j j' v h =
    let (ok, records, disk) = start_stored write now command j j' v h in
    let found : (k : String)
        → Dict.get (open_journal w later j'.disk).records k
          ≡ recovered later (Dict.get (written now command j).records k) =
      λ k.
        ap (λ (f : File). Dict.get (open_journal w later f).records k) disk
        ∙ get-reload w later (written now command j).records k ok in
    (
      ap (λ k. Dict.get (open_journal w later j'.disk).records k) (command_id_stripped command)
          ∙ found (command_id command)
          ∙ ap (recovered later)
              (Laws.get-put_self j.records (command_id command) (started now command)),
      λ k ne.
          found k
          ∙ ap (recovered later)
              (Laws.get-put_ne j.records (command_id command) k (started now command) ne),
    )

-- After any load, of any file, no record is executing.
pub open-IsSettled :
    (write : Bool) (now : ℕ) (file : File) → IsSettled (open_journal write now file).records
unfolding open_journal
open-IsSettled write now (stored raws) =
    subst IsSettled (sym (open-stored_records write now raws))
      (load-IsSettled now raws ([], false) tt)
open-IsSettled write now missing = tt
open-IsSettled write now _ = tt

-- A result that `store_result` reported as written, on a durable journal, is found unchanged by the
-- next process: it is not turned into an indeterminate one.
pub result_survives_crash :
    (write w : Bool) (now later : ℕ) (id : String) (result : Fields) (j j' : Journal)
    → IsDurable j
    → Journal.store_result write now id result j ≡ returns (j', true)
    → Journal.get (open_journal w later j'.disk) id
      ≡ some (with_result now result (Journal.get j id))
unfolding Journal.store_result Journal.get persist with_result
result_survives_crash true w now later id result j j' v h =
    let e : Entry = with_result now result (Dict.get j.records (strip id)) in
    let d : Dict Entry = Dict.put j.records (strip id) e in
    let named : is_blank (strip id) ≡ false = ground arith in
    let ok : KeysOk d =
      put-KeysOk j.records (strip id) e v.keys (ap is_blank (strip-strip id) ∙ named) in
    let disk : j'.disk ≡ stored (image d) = ground arith in
    ap (λ (f : File). Dict.get (open_journal w later f).records (strip id)) disk
    ∙ get-reload w later d (strip id) ok
    ∙ ap (recovered later) (Laws.get-put_self j.records (strip id) e)
    ∙ ap some (recover_settled later e refl)
result_survives_crash false w now later id result j j' v h = ground arith

-- A record of a durable journal whose removal was written does not come back after a crash.
pub removed_stays_removed :
    (w : Bool) (later : ℕ) (id : String) (j : Journal)
    → IsDurable j
    → Journal.get (open_journal w later (Journal.remove true id j).0.disk) id ≡ none
unfolding Journal.remove Journal.get persist
removed_stays_removed w later id j v =
    get-reload w later (Dict.remove j.records (strip id)) (strip id)
      (remove-KeysOk j.records (strip id) v.keys)
    ∙ ap (recovered later) (Laws.get-remove_self j.records (strip id))

-- No restart happens.
abbrev NoRestart : List Op → Type 0
NoRestart [] = Unit
NoRestart (Op.restart w now ∷ ops) = ⊥
NoRestart (_ ∷ ops) = NoRestart ops

step-shut :
    (op : Op) (ops : List Op) (j : Journal)
    → NoRestart (op ∷ ops)
    → j.load_ok ≡ false
    → ((step op j).load_ok ≡ false) × NoRestart ops
unfolding step Journal.start Journal.store_result Journal.remove persist
step-shut (Op.start write now command) ops j n h = (ground arith, n)
step-shut (Op.store_result write now id result) ops j n h = (ground arith, n)
step-shut (Op.remove write id) ops j n h = (ground arith, n)
step-shut (Op.restart write now) ops j n h = absurd n

run-shut :
    (ops : List Op) (j : Journal) → NoRestart ops → j.load_ok ≡ false → (run ops j).load_ok ≡ false
unfolding run
run-shut [] j n h = h
run-shut (op ∷ ops) j n h =
    let (shut, rest) = step-shut op ops j n h in run-shut ops (step op j) rest shut

-- A journal whose file could not be read stays shut until a restart: whatever was called since,
-- `start` never returns True, so that no command is executed without a record of it.
pub unreadable_refuses_start :
    (ops : List Op) (write w : Bool) (now later : ℕ) (command : Fields) (j' : Journal)
    → NoRestart ops
    → Journal.start w later command (run ops (open_journal write now broken)) ≢ returns (j', true)
unfolding open_journal Journal.start
unreadable_refuses_start ops write w now later command j' n h =
    let shut : (run ops (open_journal write now broken)).load_ok ≡ false = run-shut ops _ n refl in
    ground arith
