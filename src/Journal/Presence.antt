-- ===== src/Journal/Presence.antt =====
-- Where an id stands: in memory, and in the file as the next process would read it.
use pdd_bridge_agent.Prelude.{
  ℕ, ◌≤◌, Bool, true, false, Option, none, some, List, [], ◌∷◌, String, str_eq, if◌then◌else◌, ◌≡◌,
  refl, ap, arith, Bool-cases, inl, inr, ◌⊎◌, ◌∙◌, sym,
}
use pdd_bridge_agent.Text.{strip, is_blank}
use pdd_bridge_agent.Text.Strip.{strip-strip}
use pdd_bridge_agent.Dict
use pdd_bridge_agent.Dict.{Dict}
use pdd_bridge_agent.Dict.Laws
use pdd_bridge_agent.Json.{Fields}
use pdd_bridge_agent.Journal
use pdd_bridge_agent.Journal.{
  Entry, Raw, entry, not_dict, Journal, File, missing, broken, no_object, bad_records, stored,
  image, persist, persist_if, recover, load_one, load_records, fresh, open_journal, was_executing,
  Outcome, value_error, returns, command_id, with_result, started,
}
use pdd_bridge_agent.Journal.Loading.{KeysOk, put-KeysOk, load-KeysOk, remove-KeysOk}
use pdd_bridge_agent.Journal.Recovery.{recovered, get-reload}
use pdd_bridge_agent.Journal.Invariants.{
  IsDurable, open-stored_records, settle, start_failed, start_stored, written, loaded,
}

abbrev pub present : Option Entry → ℕ
present none = 0
present (some e) = 1

-- 1 if the id is in memory
unfoldable pub has : Journal → String → ℕ
has j id = present (Dict.get j.records id)

-- 1 if a new process would find the id in the file
unfoldable pub file_has : File → String → ℕ
file_has f id = present (Dict.get (open_journal true 0 f).records id)

present-recovered : (now : ℕ) (o : Option Entry) → present (recovered now o) ≡ present o
present-recovered now none = refl
present-recovered now (some e) = refl

-- A turn of the loading loop finds the same ids at any time.
load_one-present :
    (now later : ℕ) (k id : String) (r : Raw) (s t : Dict Entry × Bool)
    → present (Dict.get s.0 id) ≡ present (Dict.get t.0 id)
    → present (Dict.get (load_one now (k, r) s).0 id)
      ≡ present (Dict.get (load_one later (k, r) t).0 id)
unfolding load_one
load_one-present now later k id not_dict s t h = h
load_one-present now later k id (entry e) s t h =
    ground (arith, Laws.get-put s.0 k id (recover now e), Laws.get-put t.0 k id (recover later e))

load-present :
    (now later : ℕ) (raws : List (String × Raw)) (id : String) (s t : Dict Entry × Bool)
    → present (Dict.get s.0 id) ≡ present (Dict.get t.0 id)
    → present (Dict.get (load_records now raws s).0 id)
      ≡ present (Dict.get (load_records later raws t).0 id)
unfolding load_records
load-present now later [] id s t h = h
load-present now later ((k, r) ∷ rest) id s t h =
    load-present now later rest id (load_one now (k, r) s) (load_one later (k, r) t)
      (load_one-present now later k id r s t h)

-- A new process has the ids of the file, whenever it starts.
has-open :
    (w : Bool) (now : ℕ) (f : File) (id : String) → has (open_journal w now f) id ≡ file_has f id
unfolding has file_has
has-open w now (stored raws) id =
    ap (λ (d : Dict Entry). present (Dict.get d id)) (open-stored_records w now raws)
    ∙ load-present now 0 raws id ([], false) ([], false) refl
    ∙ sym (ap (λ (d : Dict Entry). present (Dict.get d id)) (open-stored_records true 0 raws))
has-open w now missing id = unfold open_journal in refl
has-open w now broken id = unfold open_journal in refl
has-open w now no_object id = unfold open_journal in refl
has-open w now bad_records id = unfold open_journal in refl

-- What was written is found.
file_has-image :
    (d : Dict Entry) (id : String)
    → KeysOk d
    → file_has (stored (image d)) id ≡ present (Dict.get d id)
unfolding file_has
file_has-image d id ok =
    ap present (get-reload true 0 d id ok) ∙ present-recovered 0 (Dict.get d id)

-- A write makes the file agree with the memory, or leaves the file.
persist_presence :
    (w : Bool) (j : Journal) (id : String)
    → KeysOk j.records
    → (has (persist w j).0 id ≡ has j id)
      × ((file_has (persist w j).0.disk id ≡ has j id)
          ⊎ (file_has (persist w j).0.disk id ≡ file_has j.disk id))
unfolding persist has
persist_presence true j id ok = (refl, inl (file_has-image j.records id ok))
persist_presence false j id ok = (refl, inr refl)

-- The two readings of one id after a change of the journal: the memory has it at least as before,
-- and the file has it as the new memory has it, or as before.
abbrev pub Kept : Journal → Journal → String → Type 0
Kept j j' id =
    (has j id ≤ has j' id)
    × ((file_has j'.disk id ≡ has j' id) ⊎ (file_has j'.disk id ≡ file_has j.disk id))

present-le : (o : Option Entry) → present o ≤ 1
present-le none = omega arith
present-le (some e) = omega arith

pub has-le : (j : Journal) (id : String) → has j id ≤ 1
unfolding has
has-le j id = present-le (Dict.get j.records id)

present-put :
    (d : Dict Entry) (k id : String) (e : Entry)
    → present (Dict.get d id) ≤ present (Dict.get (Dict.put d k e) id)
present-put d k id e = elim (Bool-cases (str_eq k id)) [
  | inl same ↦ rw (Laws.get-put d k id e, same) (present-le (Dict.get d id))
  | inr other ↦ rw (Laws.get-put d k id e, other) (omega arith)
]

-- A record that is put and written forgets no id.
put-Kept :
    (w : Bool) (k id : String) (e : Entry) (j : Journal)
    → KeysOk (Dict.put j.records k e)
    → Kept j (persist w (record j { records = Dict.put j.records k e })).0 id
unfolding has
put-Kept w k id e j ok =
    let (mem, file) = persist_presence w (record j { records = Dict.put j.records k e }) id ok in
    let grows = present-put j.records k id e in (ground arith, ground arith)

-- A stored result forgets no id.
pub store_result-Kept :
    (w : Bool) (now : ℕ) (key id : String) (result : Fields) (j : Journal)
    → IsDurable j
    → Kept j (settle j (Journal.store_result w now key result j)) id
unfolding Journal.store_result
store_result-Kept w now key id result j v = elim (Bool-cases (is_blank (strip key))) [
  | inl blank ↦ rw blank (omega arith, inr refl)
  | inr named ↦ rw named (
      put-Kept w (strip key) id _ j
        (put-KeysOk j.records (strip key) _ v.keys (ap is_blank (strip-strip key) ∙ named)))
]

settled_has :
    (w : Bool) (k id : String) (e : Entry) (j : Journal)
    → KeysOk (Dict.put j.records k e)
    → str_eq k id ≡ false
    → has (persist w (record j { records = Dict.put j.records k e })).0 id ≡ has j id
unfolding has
settled_has w k id e j ok other =
    (persist_presence w (record j { records = Dict.put j.records k e }) id ok).0
    ∙ ap present (
        Laws.get-put j.records k id e ∙ ap (λ b. if b then some e else Dict.get j.records id) other)

-- A stored result adds no id but its own.
pub store_result-others :
    (w : Bool) (now : ℕ) (key id : String) (result : Fields) (j : Journal)
    → IsDurable j
    → str_eq (strip key) id ≡ false
    → has (settle j (Journal.store_result w now key result j)) id ≡ has j id
unfolding Journal.store_result
store_result-others w now key id result j v other = elim (Bool-cases (is_blank (strip key))) [
  | inl blank ↦ rw blank refl
  | inr named ↦ rw named (
      settled_has w (strip key) id _ j
        (put-KeysOk j.records (strip key) _ v.keys (ap is_blank (strip-strip key) ∙ named)) other)
]

present_if :
    (b : Bool) (e : Entry) (o : Option Entry)
    → present (if b then some e else o) ≡ (if b then 1 else present o)
present_if true e o = refl
present_if false e o = refl

-- After a `start` that returned True the command is in memory and in the file, and nothing else has
-- changed place.
pub start_presence :
    (w : Bool) (now : ℕ) (command : Fields) (j j' : Journal) (id : String)
    → IsDurable j
    → Journal.start w now command j ≡ returns (j', true)
    → (has j' id ≡ (if str_eq (command_id command) id then 1 else has j id))
      × (file_has j'.disk id ≡ has j' id)
unfolding has
start_presence w now command j j' id v h =
    let (ok, records, disk) = start_stored w now command j j' v h in
    let d = (written now command j).records in
    let got = Laws.get-put j.records (command_id command) id (started now command) in
    (
      ap (λ (x : Dict Entry). present (Dict.get x id)) records ∙ ap present got ∙ present_if _ _ _,
      ap (λ (f : File). file_has f id) disk
          ∙ file_has-image d id ok
          ∙ sym (ap (λ (x : Dict Entry). present (Dict.get x id)) records),
    )

-- A `start` that returned False has changed nothing that counts.
pub start_failed_presence :
    (w : Bool) (now : ℕ) (command : Fields) (j j' : Journal) (id : String)
    → Journal.start w now command j ≡ returns (j', false)
    → (has j' id ≡ has j id) × (file_has j'.disk id ≡ file_has j.disk id)
unfolding has
start_failed_presence w now command j j' id h =
    let (records, disk, _) = start_failed w now command j j' h in
    (
      ap (λ (x : Dict Entry). present (Dict.get x id)) records,
      ap (λ (f : File). file_has f id) disk,
    )

loaded_presence :
    (w : Bool) (raws : List (String × Raw)) (d : Dict Entry) (changed : Bool) (id : String)
    → KeysOk d
    → present (Dict.get d id) ≡ file_has (stored raws) id
    → file_has (loaded w raws (d, changed)).disk id ≡ file_has (stored raws) id
unfolding persist fresh
loaded_presence w raws d false id ok e = refl
loaded_presence false raws d true id ok e = refl
loaded_presence true raws d true id ok e = file_has-image d id ok ∙ e

-- After a restart the memory has what the file had, and the file still has it.
pub restart_presence :
    (w : Bool) (now : ℕ) (f : File) (id : String)
    → (has (open_journal w now f) id ≡ file_has f id)
      × (file_has (open_journal w now f).disk id ≡ file_has f id)
restart_presence w now f id = (has-open w now f id, file f)
  where
    file : (f : File) → file_has (open_journal w now f).disk id ≡ file_has f id
    file (stored raws) =
        unfold open_journal in
        loaded_presence w raws (load_records now raws ([], false)).0 _ id
          (load-KeysOk now raws ([], false) tt)
          (ap (λ (d : Dict Entry). present (Dict.get d id)) (sym (open-stored_records w now raws))
            ∙ unfold has in has-open w now (stored raws) id)
    file missing = unfold open_journal in refl
    file broken = unfold open_journal in refl
    file no_object = unfold open_journal in refl
    file bad_records = unfold open_journal in refl

pub file_has-le : (f : File) (id : String) → file_has f id ≤ 1
unfolding file_has
file_has-le f id = present-le _

present_unless :
    (b : Bool) (o : Option Entry) → present (if b then none else o) ≡ (if b then 0 else present o)
present_unless true o = refl
present_unless false o = refl

-- A removal forgets its own id alone.
pub remove_presence :
    (w : Bool) (key id : String) (j : Journal)
    → IsDurable j
    → (has (Journal.remove w key j).0 id ≡ (if str_eq (strip key) id then 0 else has j id))
      × ((file_has (Journal.remove w key j).0.disk id ≡ has (Journal.remove w key j).0 id)
          ⊎ (file_has (Journal.remove w key j).0.disk id ≡ file_has j.disk id))
unfolding Journal.remove has
remove_presence w key id j v =
    let j₁ : Journal = record j { records = Dict.remove j.records (strip key) } in
    let (mem, file) = persist_presence w j₁ id (remove-KeysOk j.records (strip key) v.keys) in
    let gone : present (Dict.get (Dict.remove j.records (strip key)) id)
        ≡ (if str_eq (strip key) id then 0 else present (Dict.get j.records id)) =
      ap present (Laws.get-remove j.records (strip key) id) ∙ present_unless _ _ in
    (ground arith, ground arith)
