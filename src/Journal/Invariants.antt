-- ===== src/Journal/Invariants.antt =====
-- What every method of the journal keeps, over every sequence of calls and crashes.
use pdd_bridge_agent.Prelude.{
  ℕ, Bool, true, false, List, [], ◌∷◌, String, ◌≡◌, refl, ap, arith, Bool-cases, Option-cases, inl,
  inr, ◌∙◌, sym, subst,
}
use pdd_bridge_agent.Text.{strip, is_blank}
use pdd_bridge_agent.Text.Strip.{strip-strip}
use pdd_bridge_agent.Dict
use pdd_bridge_agent.Dict.{Dict}
use pdd_bridge_agent.Dict.Laws
use pdd_bridge_agent.Json.{Fields}
use pdd_bridge_agent.Journal
use pdd_bridge_agent.Journal.{
  Entry, State, executing, Raw, Journal, File, LastError, clear, load_failed, write_failed, missing,
  broken, no_object, bad_records, stored, image, persist, recover, load_records, fresh,
  open_journal, was_executing, Outcome, value_error, returns, start_id, started, after_start,
  with_result, command_id, restore, persist_if,
}
use pdd_bridge_agent.Journal.Loading.{
  KeysOk, recover_all, load-image_all, recover_all_settled, put-KeysOk, remove-KeysOk, load-KeysOk,
  load-IsSettled, load_unchanged,
}

-- The records that a restart at the given time would find.
abbrev after_restart : ℕ → Journal → Dict Entry
after_restart now j = (open_journal true now j.disk).records

-- Each id stands once and is no blank text; and while no error is noted, a restart finds every
-- record, with those that were executing recovered.
pub record IsDurable (j : Journal) : Type 0 where
  pub keys : KeysOk j.records
  pub agrees : j.last_error ≡ clear → (now : ℕ) → after_restart now j ≡ recover_all now j.records

pub open-stored_records :
    (write : Bool) (now : ℕ) (raws : List (String × Raw))
    → (open_journal write now (stored raws)).records ≡ (load_records now raws ([], false)).0
unfolding open_journal
open-stored_records write now raws = ground arith

-- What was written comes back with the executing records recovered.
pub reload :
    (write : Bool) (now : ℕ) (d : Dict Entry)
    → KeysOk d
    → (open_journal write now (stored (image d))).records ≡ recover_all now d
reload write now d ok = open-stored_records write now (image d) ∙ load-image_all now d ok

persist-IsDurable : (write : Bool) (j : Journal) → KeysOk j.records → IsDurable (persist write j).0
unfolding persist
persist-IsDurable true j ok = record { keys = ok; agrees = λ _ now. reload true now j.records ok }
persist-IsDurable false j ok = record { keys = ok; agrees = λ e. cc }

abbrev pub loaded : Bool → List (String × Raw) → Dict Entry × Bool → Journal
loaded write raws s = persist_if s.1 write (record (fresh (stored raws)) { records = s.0 })

loaded-IsDurable :
    (write : Bool) (now : ℕ) (raws : List (String × Raw)) (changed : Bool)
    → (load_records now raws ([], false)).1 ≡ changed
    → IsDurable (loaded write raws ((load_records now raws ([], false)).0, changed))
unfolding fresh
loaded-IsDurable write now raws true h =
    persist-IsDurable write _ (load-KeysOk now raws ([], false) tt)
loaded-IsDurable write now raws false h = record {
  keys = load-KeysOk now raws ([], false) tt;
  agrees = λ _ later.
      open-stored_records true later raws
      ∙ load_unchanged now later raws ([], false) ([], false) refl h
      ∙ sym (recover_all_settled later _ (load-IsSettled now raws ([], false) tt));
}

-- Opening any file makes a durable journal.
pub open-IsDurable :
    (write : Bool) (now : ℕ) (file : File) → IsDurable (open_journal write now file)
unfolding open_journal recover_all
open-IsDurable write now missing = record { keys = tt; agrees = λ _ later. refl }
open-IsDurable write now broken = record { keys = tt; agrees = λ e. cc }
open-IsDurable write now no_object = record { keys = tt; agrees = λ _ later. refl }
open-IsDurable write now bad_records = record { keys = tt; agrees = λ e. cc }
open-IsDurable write now (stored raws) = loaded-IsDurable write now raws _ refl

-- The record of a failed start goes, and one that was there before comes back.
restore-put :
    (d : Dict Entry) (id : String) (e : Entry) → restore (Dict.get d id) id (Dict.put d id e) ≡ d
restore-put d id e = elim (Option-cases (Dict.get d id)) [
  | inl new ↦ rw new (Laws.remove-put d id e new)
  | inr (old, there) ↦ rw there (Laws.put-put d id e old ∙ Laws.put_same d id old there)
]

abbrev pub written : ℕ → Fields → Journal → Journal
written now command j = record j {
  records = Dict.put j.records (command_id command) (started now command);
}

-- A `start` that returns True has written the record.
start_succeeded :
    (write : Bool) (now : ℕ) (command : Fields) (j j' : Journal)
    → Journal.start write now command j ≡ returns (j', true)
    → (write ≡ true)
      × (is_blank (command_id command) ≡ false)
      × (j' ≡ (persist true (written now command j)).0)
unfolding Journal.start persist
start_succeeded write now command j j' h = ground arith

-- A `start` that returns False leaves the records and the file as they were, and clears no error.
pub start_failed :
    (write : Bool) (now : ℕ) (command : Fields) (j j' : Journal)
    → Journal.start write now command j ≡ returns (j', false)
    → (j'.records ≡ j.records) × (j'.disk ≡ j.disk) × (j'.last_error ≡ clear → j.last_error ≡ clear)
unfolding Journal.start persist
start_failed write now command j j' h =
    ground (arith, restore-put j.records (command_id command) (started now command))

pub command_id_stripped : (command : Fields) → strip (command_id command) ≡ command_id command
unfolding command_id
command_id_stripped command = strip-strip _

-- The calls of the agent, and a crash with the restart that follows. The flags say which writes
-- of the file succeed.
pub data Op : Type 0 where
  start : Bool → ℕ → Fields → Op
  store_result : Bool → ℕ → String → Fields → Op
  remove : Bool → String → Op
  restart : Bool → ℕ → Op

-- A `ValueError` leaves the journal as it is.
abbrev pub settle : Journal → Outcome (Journal × Bool) → Journal
settle j value_error = j
settle j (returns (j', done)) = j'

unfoldable pub step : Op → Journal → Journal
step (start write now command) j = settle j (Journal.start write now command j)
step (store_result write now id result) j = settle j (Journal.store_result write now id result j)
step (remove write id) j = (Journal.remove write id j).0
step (restart write now) j = open_journal write now j.disk

unfoldable pub run : List Op → Journal → Journal
run [] j = j
run (op ∷ ops) j = run ops (step op j)

-- After a `start` that returned True the file holds the records, the new one among them.
pub start_stored :
    (write : Bool) (now : ℕ) (command : Fields) (j j' : Journal)
    → IsDurable j
    → Journal.start write now command j ≡ returns (j', true)
    → KeysOk (written now command j).records
      × (j'.records ≡ (written now command j).records)
      × (j'.disk ≡ stored (image (written now command j).records))
unfolding persist
start_stored write now command j j' v h =
    let (w, named, e) = start_succeeded write now command j j' h in
    (
      put-KeysOk j.records (command_id command) (started now command) v.keys
          (ap is_blank (command_id_stripped command) ∙ named),
      ap (λ (x : Journal). x.records) e,
      ap (λ (x : Journal). x.disk) e,
    )

start-IsDurable :
    (write : Bool) (now : ℕ) (command : Fields) (j : Journal) (o : Outcome (Journal × Bool))
    → Journal.start write now command j ≡ o
    → IsDurable j
    → IsDurable (settle j o)
start-IsDurable write now command j value_error h v = v
start-IsDurable write now command j (returns (j', true)) h v =
    let (w, named, e) = start_succeeded write now command j j' h in
    rw e (
      persist-IsDurable true (written now command j) (
        put-KeysOk j.records (command_id command) (started now command) v.keys
          (ap is_blank (command_id_stripped command) ∙ named)))
start-IsDurable write now command j (returns (j', false)) h v =
    let (records, disk, error) = start_failed write now command j j' h in
    record {
      keys = subst KeysOk (sym records) v.keys;
      agrees = λ e later.
          ap (λ (f : File). (open_journal true later f).records) disk
          ∙ v.agrees (error e) later
          ∙ ap (recover_all later) (sym records);
    }

store_result-IsDurable :
    (write : Bool) (now : ℕ) (id : String) (result : Fields) (j : Journal)
    → IsDurable j
    → IsDurable (settle j (Journal.store_result write now id result j))
unfolding Journal.store_result
store_result-IsDurable write now id result j v = elim (Bool-cases (is_blank (strip id))) [
  | inl blank ↦ rw blank v
  | inr named ↦ rw named (
      persist-IsDurable write _
        (put-KeysOk j.records (strip id) _ v.keys (ap is_blank (strip-strip id) ∙ named)))
]

-- One call or crash keeps the journal durable.
pub step-IsDurable : (op : Op) (j : Journal) → IsDurable j → IsDurable (step op j)
unfolding step Journal.remove
step-IsDurable (start write now command) j v = start-IsDurable write now command j _ refl v
step-IsDurable (store_result write now id result) j v =
    store_result-IsDurable write now id result j v
step-IsDurable (remove write id) j v =
    persist-IsDurable write _ (remove-KeysOk j.records (strip id) v.keys)
step-IsDurable (restart write now) j v = open-IsDurable write now j.disk

-- Whatever file the agent starts with, and whatever calls, failed writes and restarts follow, no
-- id stands twice in memory, and whenever no error is noted a restart at any time would find
-- exactly the records in memory, those that were executing recovered.
pub run-IsDurable :
    (ops : List Op) (write : Bool) (now : ℕ) (file : File)
    → IsDurable (run ops (open_journal write now file))
unfolding run
run-IsDurable ops write now file =
    go ops (open_journal write now file) (open-IsDurable write now file)
  where
    go : (ops : List Op) (j : Journal) → IsDurable j → IsDurable (run ops j)
    go [] j v = v
    go (op ∷ rest) j v = go rest (step op j) (step-IsDurable op j v)
