-- ===== src/Center.antt =====
-- The WebSocket channel of bridge/center_ws.py: the frames, the acks and the batches that wait for them.
-- The connection is in Link. The socket and the encoding by `json.dumps` are parameters.
pub mod Link
pub mod Backoff
pub mod Acks
pub mod Batches
pub mod Answers
pub mod Backlog
pub mod Frames
use pdd_bridge_agent.Prelude.{
  ℕ, ◌+◌, Bool, true, false, not, ◌&&◌, ◌||◌, Option, none, some, List, [], ◌∷◌, ◌++◌, String,
  str_eq, ltb, leb, nat_eq, if◌then◌else◌, member, keep, length, take, drop, map,
}
use pdd_bridge_agent.Text.{strip, is_blank, or_text}
use pdd_bridge_agent.Json.{Value, Fields, end, field, text_or_empty, or_value, truthy}
use pdd_bridge_agent.Json
use pdd_bridge_agent.Dict
use pdd_bridge_agent.Dict.{Dict}

-- `str(e.get("event_id") or e.get("idempotency_key") or "")`
unfoldable pub id_of : Fields → String
id_of e = text_or_empty (or_value (Json.get e "event_id") (Json.get e "idempotency_key"))

-- `_FRAME_FIELDS` and `_PAYLOAD_DROP`
abbrev pub frame_fields : List String
frame_fields =
    "event_id" ∷ "sequence" ∷ "account" ∷ "buyer_id" ∷ "role" ∷ "content" ∷ "msg_id"
    ∷ "captured_at_ms" ∷ "payload" ∷ []

abbrev pub payload_drop : List String
payload_drop = "agent_id" ∷ "idempotency_key" ∷ []

abbrev pub in_payload : String → Bool
in_payload k = not (member k frame_fields) && not (member k payload_drop)

-- The dict comprehension of `payload`
unfoldable pub payload_of : Fields → Fields
payload_of end = end
payload_of (field k v d) = let rest = payload_of d in if in_payload k then field k v rest else rest

pub record Frame : Type 0 where
  pub event_id : String
  pub sequence : ℕ
  pub account : String
  pub buyer_id : String
  pub role : String
  pub content : Value
  pub msg_id : String
  pub captured_at_ms : ℕ
  pub payload : Fields

-- What Python makes of the numbers of an event: `int(v)`, `none` where it raises, and
-- `int(round(float(v or 0.0) * 1000))`, 0 where that raises.
pub record Numbers : Type 0 where
  pub int_of : Value → Option ℕ
  pub millis_of : Value → ℕ

-- `int(captured_ms or 0)` of the given or of the computed time
unfoldable pub captured_ms : Numbers → Fields → Option ℕ
captured_ms n e =
    if truthy (Json.get e "captured_at_ms")
    then n.int_of (Json.get e "captured_at_ms")
    else some (n.millis_of (Json.get e "captured_at"))

abbrev framed : Fields → ℕ → ℕ → Frame
framed e sequence ms = record {
  event_id = id_of e;
  sequence = sequence;
  account = text_or_empty (Json.get e "account");
  buyer_id = text_or_empty (Json.get e "buyer_id");
  role = text_or_empty (Json.get e "role");
  content = Json.get e "content";
  msg_id = text_or_empty (or_value (Json.get e "platform_message_id") (Json.get e "msg_id"));
  captured_at_ms = ms;
  payload = payload_of e;
}

-- `build_event_frame`
unfoldable pub build_event_frame : Numbers → Fields → ℕ → Option Frame
unfolding captured_ms
build_event_frame n e sequence = elim (captured_ms n e) [
  | none ↦ none
  | some ms ↦ some (framed e sequence ms)
]

-- One dict of `event_acks`
pub record Row : Type 0 where
  pub event_id : String
  pub status : String
  pub committed : Bool
  pub retryable : Bool
  pub reason : String

-- `not str(event.get(k) or "").strip()`
abbrev pub lacks : Fields → String → Bool
lacks e k = is_blank (strip (text_or_empty (Json.get e k)))

abbrev pub is_accepted : String → Bool
is_accepted status = str_eq status "accepted" || str_eq status "duplicate"

abbrev pub can_retry : Fields → String → Bool
can_retry e error_code =
    str_eq error_code "PERSISTENCE_UNAVAILABLE" && not (lacks e "account" || lacks e "buyer_id")

abbrev accepted_row : Fields → Row
accepted_row e = record {
  event_id = id_of e;
  status = "accepted";
  committed = true;
  retryable = false;
  reason = "";
}

abbrev rejected_row : Fields → String → Row
rejected_row e reason = record {
  event_id = id_of e;
  status = "rejected";
  committed = false;
  retryable = false;
  reason = reason;
}

abbrev retry_row : Fields → String → Row
retry_row e reason = record {
  event_id = id_of e;
  status = "retry";
  committed = false;
  retryable = true;
  reason = reason;
}

-- `ack_row_for`
unfoldable pub ack_row_for : Fields → String → String → Row
ack_row_for e status error_code =
    if is_accepted status
    then accepted_row e
    else if str_eq error_code "PERSISTENCE_UNAVAILABLE"
    then if lacks e "account" || lacks e "buyer_id"
      then rejected_row e error_code
      else retry_row e error_code
    else rejected_row e (or_text error_code (or_text status "rejected"))

-- `_Batch`; `handle` tells the objects apart.
pub record Batch : Type 0 where
  pub handle : ℕ
  pub events : Dict Fields
  pub rows : Dict Row
  pub done : Bool

unfoldable pub by_id : List Fields → Dict Fields → Dict Fields
by_id [] d = d
by_id (e ∷ es) d = by_id es (Dict.put d (id_of e) e)

-- `_Batch.__init__`
unfoldable pub new_batch : ℕ → List Fields → Batch
unfolding by_id
new_batch handle events = record {
  handle = handle;
  events = by_id events [];
  rows = [];
  done = false;
}

-- `_Batch.on_ack`
unfoldable pub batch_on_ack : String → Row → Batch → Batch
batch_on_ack id row b =
    let rows = Dict.put b.rows id row in
    if not (Dict.contains b.events id) || Dict.contains b.rows id
    then b
    else record b { rows = rows; done = b.done || leb (length b.events) (length rows) }

-- A `result` frame as it is kept
pub record Result : Type 0 where
  pub event_id : String
  pub status : String
  pub error_code : String
  pub processed_at_ms : ℕ

-- `CenterEventChannel`. `owner` maps an event id to the handle of its batch; the batches are those
-- whose `send_events` has not returned and those that `owner` still names.
pub record Channel : Type 0 where
  pub connected : Bool
  pub sequence : ℕ
  pub owner : Dict ℕ
  pub batches : List Batch
  pub outbound : List Frame
  pub results : List Result
  pub frames_sent : ℕ
  pub acks_received : ℕ
  pub results_received : ℕ

abbrev pub max_frame_bytes : ℕ
max_frame_bytes = 4194304

abbrev pub result_backlog_limit : ℕ
result_backlog_limit = 10000

unfoldable pub own_all : ℕ → Dict Fields → Dict ℕ → Dict ℕ
own_all handle [] owner = owner
own_all handle ((id, e) ∷ rest) owner = own_all handle rest (Dict.put owner id handle)

unfoldable pub disown_all : Dict Fields → Dict ℕ → Dict ℕ
disown_all [] owner = owner
disown_all ((id, e) ∷ rest) owner = disown_all rest (Dict.remove owner id)

-- How the loop of `send_events` over the events ends: it has put some frames on the queue, and may
-- have been stopped by an exception.
pub record Sent : Type 0 where
  pub sequence : ℕ
  pub frames : List Frame
  pub raised : Bool

-- `size` is the length of the encoded frame, `none` where `json.dumps` raises.
abbrev pub Size : Type 0
Size = Frame → Option ℕ

abbrev with_frame : Option ℕ → Frame → Sent → Sent
with_frame none f later = record { sequence = f.sequence; frames = []; raised = true }
with_frame (some n) f later =
    if ltb max_frame_bytes n then later else record later { frames = f ∷ later.frames }

abbrev encode : Size → Option Frame → ℕ → Sent → Sent
encode size none sequence later = record { sequence = sequence; frames = []; raised = true }
encode size (some f) sequence later = with_frame (size f) f later

-- The loop of `send_events`: a frame over the limit is skipped, an exception ends it.
unfoldable pub put_frames : Numbers → Size → ℕ → List Fields → Sent
unfolding build_event_frame
put_frames n size sequence [] = record { sequence = sequence; frames = []; raised = false }
put_frames n size sequence (e ∷ es) =
    let later = put_frames n size (sequence + 1) es in
    encode size (build_event_frame n e (sequence + 1)) (sequence + 1) later

-- What a call of `send_events` has come to: an empty answer, `CenterWsUnavailable`, or the wait for
-- the batch.
pub data Begun : Type 0 where
  nothing : Begun
  unavailable : Begun
  waiting : ℕ → Begun

abbrev pub has_id : Fields → Bool
has_id e = not (is_blank (id_of e))

abbrev pub is_empty {ℓ} : {A : Type ℓ} → List A → Bool
is_empty [] = true
is_empty (x ∷ xs) = false

-- The batch is registered and its frames are put on the queue. Where none was put, the registration
-- is undone; an exception behind the first frame leaves it.
abbrev registered : Sent → Batch → Channel → Channel × Begun
registered sent b c =
    if is_empty sent.frames
    then (
      record c {
        sequence = sent.sequence;
        owner = disown_all b.events (own_all b.handle b.events c.owner);
      },
      unavailable,
    )
    else (
      record c {
        sequence = sent.sequence;
        owner = own_all b.handle b.events c.owner;
        batches = b ∷ c.batches;
        outbound = c.outbound ++ sent.frames;
        frames_sent = if sent.raised then c.frames_sent else c.frames_sent + length sent.frames;
      },
      (if sent.raised then unavailable else waiting b.handle),
    )

-- `send_events` up to its wait, on a batch whose items are dicts
unfoldable pub begin_send : Numbers → Size → ℕ → List Fields → Channel → Channel × Begun
unfolding put_frames own_all disown_all new_batch id_of
begin_send n size handle events c =
    let named = keep has_id events in
    if is_empty named
    then (c, nothing)
    else if not c.connected
    then (c, unavailable)
    else registered (put_frames n size c.sequence named) (new_batch handle named) c

unfoldable pub find_batch : ℕ → List Batch → Option Batch
find_batch h [] = none
find_batch h (b ∷ bs) = if nat_eq b.handle h then some b else find_batch h bs

-- `[waiter.rows[i] for i in waiter.events if i in waiter.rows]`
abbrev row_before : Option Row → List Row → List Row
row_before none rest = rest
row_before (some r) rest = r ∷ rest

unfoldable pub rows_of : Dict Fields → Dict Row → List Row
rows_of [] rows = []
rows_of ((id, e) ∷ rest) rows = row_before (Dict.get rows id) (rows_of rest rows)

-- `send_events` after its wait, which the batch or the time ended
abbrev collected : Option Batch → Channel → Channel × List Row
collected none c = (c, [])
collected (some b) c = (
  record c {
    owner = disown_all b.events c.owner;
    batches = keep (λ x. not (nat_eq x.handle b.handle)) c.batches;
  },
  rows_of b.events b.rows,
)

unfoldable pub finish_send : ℕ → Channel → Channel × List Row
unfolding find_batch disown_all rows_of
finish_send handle c = collected (find_batch handle c.batches) c

abbrev on_batch : ℕ → (Batch → Batch) → List Batch → List Batch
on_batch h f = map (λ b. if nat_eq b.handle h then f b else b)

-- `waiter.events.get(event_id) or {}`
abbrev pub event_in : Dict Fields → String → Fields
event_in events id = Dict.or_else (Dict.get events id) end

-- `waiter.on_ack` with the row of `ack_row_for`
unfoldable pub take_ack : String → String → String → Batch → Batch
unfolding batch_on_ack ack_row_for
take_ack id status error_code b =
    batch_on_ack id (ack_row_for (event_in b.events id) status error_code) b

abbrev acked : Option ℕ → String → String → String → Channel → Channel
acked none id status error_code c = c
acked (some h) id status error_code c = record c {
  batches = on_batch h (take_ack id status error_code) c.batches;
}

-- `_on_ack`
unfoldable pub on_ack : String → String → String → Channel → Channel
unfolding take_ack
on_ack id status error_code c =
    if is_blank id
    then c
    else acked (Dict.get c.owner id) id status error_code
        (record c { acks_received = c.acks_received + 1 })

-- `_on_result`
unfoldable pub on_result : Result → Channel → Channel
on_result r c = if is_blank r.event_id then c else record c {
  results_received = c.results_received + 1;
  results = if ltb (length c.results) result_backlog_limit then c.results ++ r ∷ [] else c.results;
}

-- `drain_results`
unfoldable pub drain_results : ℕ → Channel → Channel × List Result
drain_results limit c = (record c { results = drop limit c.results }, take limit c.results)
