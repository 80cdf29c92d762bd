-- ===== src/Requeue.antt =====
-- requeue.py: which dead letters are sent again, what the center makes of them, and which stay.
pub mod Chunks
pub mod Selection
pub mod Lossless
use pdd_bridge_agent.Prelude.{
  ℕ, zero, suc, ◌+◌, Bool, true, false, not, ◌&&◌, ◌||◌, Option, none, some, List, [], ◌∷◌, ◌++◌,
  String, str_eq, if◌then◌else◌, member, keep, length, take, drop, map, nat_eq,
}
use pdd_bridge_agent.Text.{is_blank, or_text}
use pdd_bridge_agent.Dict
use pdd_bridge_agent.Dict.{Dict}

-- A row of the file of dead letters: the event with the local fields that `clean_event` takes off.
pub record Dead : Type 0 where
  pub event_id : String
  pub is_diagnostic : Bool
  pub content : String
  pub refused_reason : String
  pub requeued_at : Option ℕ

-- `select_rows` without the limit: what is picked, with the ids seen so far
unfoldable pub pick_rows : String → Bool → List String → List Dead → List Dead
pick_rows reason diagnostics seen [] = []
pick_rows reason diagnostics seen (row ∷ rows) =
    let skipped = pick_rows reason diagnostics seen rows in
    let picked = row ∷ pick_rows reason diagnostics (row.event_id ∷ seen) rows in
    if member row.event_id seen
    then skipped
    else if not (is_blank reason) && not (str_eq row.refused_reason reason)
    then skipped
    else if not diagnostics && (row.is_diagnostic || str_eq row.refused_reason "unsupported_role")
    then skipped
    else picked

-- `select_rows`: a limit of 0 is none.
unfoldable pub select_rows : String → Bool → ℕ → List Dead → List Dead
unfolding pick_rows
select_rows reason diagnostics limit rows =
    let picked = pick_rows reason diagnostics [] rows in
    if nat_eq limit 0 then picked else take limit picked

-- What `clean_event` sends.
pub record Event : Type 0 where
  pub event_id : String
  pub is_diagnostic : Bool
  pub content : String

abbrev pub clean_event : Dead → Event
clean_event row = record {
  event_id = row.event_id;
  is_diagnostic = row.is_diagnostic;
  content = row.content;
}

-- One dict of `event_acks`; a text is blank where it is missing.
pub record Ack : Type 0 where
  pub event_id : String
  pub status : String
  pub reason : String
  pub error_code : String
  pub committed : Bool

-- What `upload_events` comes back with: an error, or the dicts of `event_acks`, none where it is no
-- list.
pub data Upload : Type 0 where
  error : String → Upload
  acks : List Ack → Upload

pub data Kind : Type 0 where
  accepted ignored refused no_ack failed : Kind

pub record Outcome : Type 0 where
  pub kind : Kind
  pub text : String

pub record Result : Type 0 where
  pub sent : ℕ
  pub accepted : ℕ
  pub ignored : ℕ
  pub refused : ℕ
  pub outcomes : Dict Outcome
  pub errors : List String
  pub ledger : List (String × String × String)

-- `{str(a.get("event_id") or ""): a for a in acks}`
unfoldable pub by_id_from : List Ack → Dict Ack → Dict Ack
by_id_from [] d = d
by_id_from (a ∷ rest) d = by_id_from rest (Dict.put d a.event_id a)

abbrev pub by_id : List Ack → Dict Ack
by_id xs = by_id_from xs []

abbrev pub accepts : Ack → Bool
accepts a = str_eq a.status "accepted" || a.committed

abbrev pub reason_of : Ack → String
reason_of a = or_text a.reason (or_text a.error_code a.status)

abbrev pub put_outcome : String → Kind → String → Result → Result
put_outcome id kind text r = record r {
  outcomes = Dict.put r.outcomes id (record { kind = kind; text = text });
}

abbrev note_ledger : String → String → String → Result → Result
note_ledger id state detail r = record r {
  ledger = r.ledger ++ (id, "requeued", "") ∷ (id, state, detail) ∷ [];
}

-- One row of a chunk that was answered, on the ack that the center has for it.
unfoldable pub settle : String → Option Ack → Result → Result
settle id none r = put_outcome id no_ack "" r
settle id (some a) r =
    let why = reason_of a in
    if accepts a
    then put_outcome id accepted why (
        note_ledger id "center_accepted" ""
          (record r { sent = r.sent + 1; accepted = r.accepted + 1 }))
    else if str_eq a.status "ignored"
    then put_outcome id ignored why (
        note_ledger id "center_ignored" why
          (record r { sent = r.sent + 1; ignored = r.ignored + 1 }))
    else put_outcome id refused why (
        note_ledger id "center_refused" why
          (record r { sent = r.sent + 1; refused = r.refused + 1 }))

unfoldable pub settle_all : Dict Ack → List Dead → Result → Result
unfolding settle
settle_all found [] r = r
settle_all found (row ∷ rows) r =
    settle_all found rows (settle row.event_id (Dict.get found row.event_id) r)

-- The rows of a chunk whose upload failed
unfoldable pub fail_all : String → List Dead → Result → Result
fail_all e [] r = r
fail_all e (row ∷ rows) r = fail_all e rows (put_outcome row.event_id failed e r)

unfoldable pub settle_chunk : Upload → List Dead → Result → Result
unfolding settle_all fail_all by_id_from
settle_chunk (error e) chunk r = fail_all e chunk (record r { errors = r.errors ++ e ∷ [] })
settle_chunk (acks xs) chunk r = settle_all (by_id xs) chunk r

-- The chunks of at most 100 rows; as much fuel as there are rows is enough.
unfoldable pub chunks : ℕ → List Dead → List (List Dead)
chunks zero rows = []
chunks (suc fuel) [] = []
chunks (suc fuel) (row ∷ rows) = take 100 (row ∷ rows) ∷ chunks fuel (drop 100 (row ∷ rows))

abbrev pub empty_result : Result
empty_result = record {
  sent = 0;
  accepted = 0;
  ignored = 0;
  refused = 0;
  outcomes = [];
  errors = [];
  ledger = [];
}

-- The texts of an error are cut off at 200 and at 120 characters in the source; they are kept whole.
module _ (upload_events : List Event → Upload) where
  unfoldable pub requeue_chunks : List (List Dead) → Result → Result
  unfolding settle_chunk
  requeue_chunks [] r = r
  requeue_chunks (chunk ∷ rest) r =
      requeue_chunks rest (settle_chunk (upload_events (map clean_event chunk)) chunk r)

  -- `requeue`
  unfoldable pub requeue : Bool → List Dead → Result
  unfolding requeue_chunks chunks
  requeue apply rows =
      if apply then requeue_chunks (chunks (length rows) rows) empty_result else empty_result

-- What stays of one row: nothing if it was accepted, the row itself if it was not tried.
unfoldable pub still_row : ℕ → Option Outcome → Dead → Option Dead
still_row now none row = some row
still_row now (some o) row = elim o.kind [
  | accepted ↦ none
  | _ ↦
      some
        (record row { refused_reason = or_text o.text row.refused_reason; requeued_at = some now })
]

abbrev pub cons_some : Option Dead → List Dead → List Dead
cons_some none rows = rows
cons_some (some row) rows = row ∷ rows

-- The loop of `main` that writes the file of dead letters anew
unfoldable pub still : ℕ → Dict Outcome → List Dead → List Dead
unfolding still_row
still now outcomes [] = []
still now outcomes (row ∷ rows) =
    cons_some (still_row now (Dict.get outcomes row.event_id) row) (still now outcomes rows)
