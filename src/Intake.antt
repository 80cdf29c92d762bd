-- ===== src/Intake.antt =====
-- How bridge/agent.py takes in a message of a local source: the data of `_on_local_event`, and
-- `_ensure_event_id`. Times are milliseconds.
pub mod Outgoing
pub mod Local
pub mod Cover
pub mod Queue
pub mod Loss
use pdd_bridge_agent.Prelude.{
  ℕ, zero, suc, ◌+◌, Bool, true, false, not, List, [], ◌∷◌, String, str_eq, ltb, nat_eq,
  if◌then◌else◌, length,
}
use pdd_bridge_agent.Text.{strip, is_blank, or_text, append}
use pdd_bridge_agent.Dict
use pdd_bridge_agent.Dict.{Dict}
use pdd_bridge_agent.Timing.{Times, epoch_seconds}
use pdd_bridge_agent.Seats.Scope.{Scope}
use pdd_bridge_agent.Ingest.{Ingest}

-- What the intake reads of a message; each text is `str(msg.get(key) or "")`. The fields that are only
-- copied are left out.
pub record Message : Type 0 where
  pub platform : String
  pub idempotency_key : String
  pub msg_id : String
  pub platform_message_id : String
  pub account : String
  pub buyer_id : String
  pub role : String
  pub content : String
  pub ts_text : String
  pub is_diagnostic : Bool
  pub times : Times

-- The event that goes into the queue; its `idempotency_key` is its `event_id`.
pub record Event : Type 0 where
  pub event_id : String
  pub platform : String
  pub msg_id : String
  pub platform_message_id : String
  pub account : String
  pub buyer_id : String
  pub role : String
  pub content : String
  pub is_diagnostic : Bool
  pub times : Times

-- An item of `_recent_outgoing`
pub record Sent : Type 0 where
  pub at : ℕ
  pub account : String
  pub buyer : String
  pub text : String
  pub score : ℕ
  pub event_id : String

abbrev pub SourceKey : Type 0
SourceKey = String × String × String

pub record Intake : Type 0 where
  pub scope : Scope
  pub out_of_scope : ℕ
  pub last_out_of_scope : String
  pub accounts_seen : Dict ℕ
  pub recent_buyers : List ((String × String) × ℕ)
  pub pending : List Event
  pub pending_ids : List String
  pub ingest : Ingest
  pub recent_outgoing : List Sent
  pub outgoing_superseded : Bool
  pub source_times : List (SourceKey × ℕ)
  pub queue_file : List Event
  pub ledger : List (String × String)
  pub pushed : List Event

-- `"\x00".join(fields)`
unfoldable pub joined : List String → String
unfolding append
joined [] = ""
joined (s ∷ []) = s
joined (s ∷ t ∷ rest) = append s (append "\0" (joined (t ∷ rest)))

abbrev first_chars : ℕ → String → String
first_chars zero s = ""
first_chars (suc n) String.[] = ""
first_chars (suc n) (String.◌∷◌ c s) = String.◌∷◌ c (first_chars n s)

-- `sha256` is the hex digest of the UTF-8 encoding.
module _ (sha256 : String → String) where
  abbrev from_platform_id : String → String
  from_platform_id id =
      if is_blank id then "" else first_chars 32 (sha256 (append "platform-message-id|" id))

  -- The id of `_ensure_event_id`, for a message without an `event_id`
  unfoldable pub event_id_of : String → Message → String
  unfolding strip joined
  event_id_of account m = or_text (strip m.idempotency_key) (
      or_text (from_platform_id m.platform_message_id) (
        sha256 (
          joined
            (m.platform ∷ account ∷ m.buyer_id ∷ m.msg_id ∷ m.role ∷ m.content ∷ m.ts_text ∷ []))))

  -- The event of `_on_local_event`; `platform` is the agent's own.
  unfoldable pub event_of : String → String → Message → Event
  unfolding event_id_of
  event_of platform account m =
      let named = record m { platform = or_text m.platform platform } in
      record {
        event_id = event_id_of account named;
        platform = named.platform;
        msg_id = m.msg_id;
        platform_message_id = m.platform_message_id;
        account = account;
        buyer_id = m.buyer_id;
        role = m.role;
        content = m.content;
        is_diagnostic = m.is_diagnostic;
        times = m.times;
      }

abbrev pub same_pair : String × String → String × String → Bool
same_pair (a, b) (c, d) = if str_eq a c then str_eq b d else false

-- `self._recent_buyers[key] = now`
unfoldable pub put_buyer :
    List ((String × String) × ℕ) → String × String → ℕ → List ((String × String) × ℕ)
put_buyer [] key now = (key, now) ∷ []
put_buyer ((k, t) ∷ rest) key now =
    if same_pair k key then (key, now) ∷ rest else (k, t) ∷ put_buyer rest key now

abbrev same_key : SourceKey → SourceKey → Bool
same_key (a, b, c) (d, e, f) =
    if str_eq a d then (if str_eq b e then str_eq c f else false) else false

-- `table[key] = time` where `table.get(key)` is missing or 0
unfoldable pub learn_time : List (SourceKey × ℕ) → SourceKey → ℕ → List (SourceKey × ℕ)
learn_time [] key time = (key, time) ∷ []
learn_time ((k, t) ∷ rest) key time =
    if same_key k key
    then (k, (if nat_eq t 0 then time else t)) ∷ rest
    else (k, t) ∷ learn_time rest key time

abbrev without_first : List (SourceKey × ℕ) → List (SourceKey × ℕ)
without_first [] = []
without_first (x ∷ rest) = rest

-- `_remember_source_time`: the table is cut down to 20000 entries, the oldest goes.
unfoldable pub remember_source_time : Event → List (SourceKey × ℕ) → List (SourceKey × ℕ)
unfolding learn_time
remember_source_time e table =
    let more = learn_time table (e.account, e.buyer_id, e.msg_id) (epoch_seconds e.times.ts) in
    if ltb 20000 (length more) then without_first more else more
