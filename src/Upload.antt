-- ===== src/Upload.antt =====
-- `_flush_events` of bridge/agent.py in its two steps, since other threads come between them: the
-- choice of a batch, and what the center's answer does to the queue. Times are milliseconds.
pub mod Batches
pub mod Queue
use pdd_bridge_agent.Prelude.{
  ℕ, ◌+◌, ◌-◌, ◌*◌, ◌/◌, min, max, Bool, true, false, not, ◌&&◌, ◌||◌, Option, none, some, List, [],
  ◌∷◌, ◌++◌, String, str_eq, nat_eq, ltb, if◌then◌else◌, member, keep, some_of, length, take, map,
}
use pdd_bridge_agent.Text.{is_blank, or_text}
use pdd_bridge_agent.Dict
use pdd_bridge_agent.Dict.{Dict}
use pdd_bridge_agent.Timing.{Times, stamp_message, history_ready}

-- An event of the queue. `handle` stands for the identity of the Python object, which `id(e)` asks for.
pub record Event : Type 0 where
  pub handle : ℕ
  pub event_id : String
  pub idempotency_key : String
  pub is_diagnostic : Bool
  pub times : Times

-- `self._last_error`, by what the upload writes into it
pub data UploadError : Type 0 where
  no_error awaiting_retry refused_by_center ack_required upload_failed : UploadError

pub record Uploader : Type 0 where
  pub pending : List Event
  pub inflight : List String
  pub queue_file : List Event
  pub dead_letters : List (Event × String)
  pub retry_at : ℕ
  pub retry_delay : ℕ
  pub last_error : UploadError

-- `_upload_batch_size`, of a configured number that is not negative
abbrev upload_batch_size : ℕ → ℕ
upload_batch_size value = max 1 (min (if nat_eq value 0 then 500 else value) 2000)

-- The clocks at one flush: the local one, the center's less a second (0 where it is not known), and the
-- monotonic one, with the tolerance for a time ahead of the clock.
pub record Clock : Type 0 where
  pub now : ℕ
  pub tolerance : ℕ
  pub history_now : ℕ
  pub monotonic : ℕ

-- `event.update(stamp_message(event, now=now))`
abbrev pub stamp : ℕ → ℕ → Event → Event
stamp tolerance now e = record e { times = stamp_message tolerance false now e.times }

abbrev pub is_history : Event → Bool
is_history e = e.times.is_history

abbrev event_ids : List Event → List String
event_ids = map (λ e. e.event_id)

-- `scope` is `_seat_scope_allows`.
module _ (scope : Event → Bool) where
  -- The filter of `ready`
  abbrev pub is_ready : Clock → List String → List String → Event → Bool
  is_ready c inflight blocked e =
      scope e
      && not (member e.event_id inflight)
      && not (member e.event_id blocked)
      && history_ready (if is_history e then c.history_now else c.now) e.times

  abbrev pub live_quota : ℕ → List Event → ℕ
  live_quota size live = min (length live) (max 1 (size * 4 / 5))

  -- Live events first; where there is history, it has the rest of the batch, and one place at least.
  unfoldable pub compose : ℕ → List Event → List Event → List Event
  compose size live [] = take size live
  compose size live (h ∷ history) =
      take (live_quota size live) live ++ take (max 1 (size - live_quota size live)) (h ∷ history)

  -- The batch that is chosen from the stamped queue
  unfoldable pub choose : ℕ → Clock → List String → List String → List Event → List Event
  unfolding compose
  choose size c inflight blocked stamped =
      let ready = keep (is_ready c inflight blocked) stamped in
      compose size (keep (λ e. not (is_history e)) ready) (keep is_history ready)

  -- The first step of `_flush_events`: the batch, empty where there is none or where it is too early.
  unfoldable pub begin_flush : ℕ → Clock → List String → Uploader → Uploader × List Event
  unfolding choose
  begin_flush size c blocked u =
      let stamped = map (stamp c.tolerance c.now) u.pending in
      let batch = choose size c u.inflight blocked stamped in
      if ltb c.monotonic u.retry_at
      then (u, [])
      else (record u { pending = stamped; inflight = event_ids batch ++ u.inflight }, batch)

-- One dict of `event_acks`; `reason` is what `reason or error.code or status` gives, and `retryable` is
-- `none` where it is missing.
pub record Ack : Type 0 where
  pub event_id : String
  pub status : String
  pub reason : String
  pub committed : Bool
  pub retryable : Option Bool

-- `BridgeClientError`; a response without an `ack_version` of 1 or more; the dicts of `event_acks`.
pub data Response : Type 0 where
  failed : Response
  unversioned : Response
  answered : List Ack → Response

-- `str(e.get("event_id") or e.get("idempotency_key") or "")`
abbrev pub key_of : Event → String
key_of e = or_text e.event_id e.idempotency_key

abbrev pub is_terminal : Ack → Bool
is_terminal a = a.committed || (elim a.retryable [ some false ↦ true | _ ↦ false ])

abbrev pub wants_retry : Ack → Bool
wants_retry a = elim a.retryable [ some true ↦ true | _ ↦ false ]

abbrev pub terminal_ids : List Ack → List String
terminal_ids acks = map (λ a. a.event_id) (keep is_terminal acks)

-- The refused ones that count as losses: `plugin_send_echo` is none.
abbrev pub is_loss : Ack → Bool
is_loss a =
    (str_eq a.status "ignored" || str_eq a.status "rejected")
    && not (str_eq a.reason "plugin_send_echo")

-- `sent_by_id.get(id)`: the last event of the batch with the key
unfoldable pub find_sent : String → List Event → Option Event
find_sent id [] = none
find_sent id (e ∷ es) =
    let later = find_sent id es in
    elim later [ some f ↦ some f | none ↦ if str_eq (key_of e) id then some e else none ]

abbrev pub sent_id : Option Event → String
sent_id none = ""
sent_id (some e) = e.event_id

-- `reasons` of `_record_event_loss`
unfoldable pub reasons_from : List Event → List Ack → Dict String → Dict String
unfolding find_sent
reasons_from batch [] d = d
reasons_from batch (a ∷ rest) d =
    reasons_from batch rest (Dict.put d (sent_id (find_sent a.event_id batch)) a.reason)

abbrev pub dead_one : Event → Option String → List (Event × String) → List (Event × String)
dead_one e none rest = rest
dead_one e (some reason) rest = (e, reason) ∷ rest

-- `_record_event_loss`: the events of the batch with a reason, in the order of the batch
unfoldable pub losses_of : Dict String → List Event → List (Event × String)
losses_of reasons [] = []
losses_of reasons (e ∷ es) = dead_one e (Dict.get reasons e.event_id) (losses_of reasons es)

unfoldable pub record_event_loss : Bool → List Event → List Ack → Uploader → Uploader
unfolding reasons_from losses_of
record_event_loss write batch losses u =
    if write
    then record u {
      dead_letters = u.dead_letters ++ losses_of (reasons_from batch losses []) batch;
    }
    else u

abbrev pub is_empty {ℓ} : {A : Type ℓ} → List A → Bool
is_empty [] = true
is_empty (x ∷ xs) = false

abbrev pub is_diagnostic : Option Event → Bool
is_diagnostic none = false
is_diagnostic (some e) = e.is_diagnostic

-- A refusal that is the client's fault and no decision of the center
abbrev is_fault : List Event → Ack → Bool
is_fault batch a =
    not (is_diagnostic (find_sent a.event_id batch))
    && not (str_eq a.reason "invalid_message" || str_eq a.reason "ignored")

abbrev next_error : List Event → List Ack → UploadError → UploadError
next_error batch acks old =
    if some_of (is_fault batch) (keep is_loss acks)
    then refused_by_center
    else if some_of wants_retry acks
    then awaiting_retry
    else old

-- Whether an event of the queue stays: it goes if it is of the batch and has a terminal ack.
abbrev pub stays : Response → List Event → Event → Bool
stays failed batch e = true
stays unversioned batch e = true
stays (answered acks) batch e =
    not (member (key_of e) (terminal_ids acks) && member (key_of e) (map key_of batch))

abbrev pub attempted : List Event → Event → Bool
attempted batch e = some_of (λ b. nat_eq b.handle e.handle) batch

-- What was attempted and waits goes behind the others; if there are no others, the next flush is
-- five seconds later. The file is written anew each time: the test `self._pending != before_rot`
-- compares a deque with a list, which are never equal.
unfoldable pub rotate : ℕ → List Event → Uploader → Uploader
rotate monotonic batch u =
    let waiting = keep (attempted batch) u.pending in
    let others = keep (λ e. not (attempted batch e)) u.pending in
    record u {
      pending = others ++ waiting;
      queue_file = others ++ waiting;
      retry_at = if not (is_empty waiting) && is_empty others then monotonic + 5000 else u.retry_at;
    }

abbrev pub no_version : ℕ → Uploader → Uploader
no_version monotonic u = record u {
  retry_delay = 500;
  last_error = ack_required;
  retry_at = monotonic + 5000;
}

abbrev pub take_acks : Bool → List Ack → List Event → Uploader → Uploader
take_acks write acks batch u = record_event_loss write batch (keep is_loss acks) (record u {
  retry_delay = 500;
  pending = keep (stays (answered acks) batch) u.pending;
  last_error = next_error batch acks u.last_error;
})

-- What the answer of the center does, before the batch leaves the flight
unfoldable pub take_answer : Bool → ℕ → Response → List Event → Uploader → Uploader
unfolding record_event_loss rotate
take_answer write monotonic failed batch u =
    let delay = min 5000 u.retry_delay in
    record u { retry_at = monotonic + delay; retry_delay = delay * 2; last_error = upload_failed }
take_answer write monotonic unversioned batch u = rotate monotonic batch (no_version monotonic u)
take_answer write monotonic (answered acks) batch u =
    rotate monotonic batch (take_acks write acks batch u)

-- The second step of `_flush_events`; `write` says whether the file of dead letters can be opened.
unfoldable pub end_flush : Bool → ℕ → Response → List Event → Uploader → Uploader
unfolding take_answer
end_flush write monotonic response batch u =
    let after = take_answer write monotonic response batch u in
    record after { inflight = keep (λ i. not (member i (event_ids batch))) after.inflight }
