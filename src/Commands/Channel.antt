-- ===== src/Commands/Channel.antt =====
-- The state of the command channel of bridge/agent.py, and what is outside it.
use pdd_bridge_agent.Prelude.{ℕ, Bool, List, ◌∷◌, String}
use pdd_bridge_agent.Text.{strip}
use pdd_bridge_agent.Json
use pdd_bridge_agent.Json.{Value, Fields, end, field, null, bool, num, text, obj, other}
use pdd_bridge_agent.Journal.{Journal, LastError, clear, load_failed, write_failed}
use pdd_bridge_agent.Timing.{Stamp}

-- `self._last_error`, by its prefix
pub data Error : Type 0 where
  no_error pull_error report_error journal_load_error journal_write_error : Error

-- What the agent did to the world, the latest first: a message sent to a buyer, another operation
-- of the platform, and the removal of a command that the center has taken over.
pub data Effect : Type 0 where
  sent : String → String → String → String → Effect
  opened : String → Effect
  pulled : String → Effect
  applied : String → Effect
  settled : String → Effect

-- One row of `_self_sends`
pub record SelfSend : Type 0 where
  pub account : String
  pub buyer_id : String
  pub content : String
  pub ts : ℕ

-- A command between two of its steps: claimed, looked up in the journal, which does not have it, admitted
-- and not yet dispatched, or with its result.
pub data Running : Type 0 where
  claimed : Fields → Running
  looked : Fields → Running
  admitted : Fields → Running
  performed : String → Fields → Running

pub record Agent : Type 0 where
  pub journal : Journal
  pub claimed : List String
  pub done : List String
  pub last_error : Error
  pub received : ℕ
  pub no_id : ℕ
  pub sent_ok : ℕ
  pub self_sends : List SelfSend
  pub report_queue : List (String × Fields)
  pub report_pending : List String
  pub running : List Running
  pub effects : List Effect

-- What a call of the platform comes back with: a dict, another value by its text and its truth, or
-- an exception by its text.
pub data Answer : Type 0 where
  dict : Fields → Answer
  value : String → Bool → Answer
  raised : String → Answer

-- What is outside the agent. `trim` is `set(list(s)[-n:])`, which keeps some `n` elements of a set,
-- in an order that Python does not fix; `parent_time` is `_source_message_times`; `tolerance` and
-- `parent_max_age` are what the environment sets for a parent's time.
pub record World : Type 0 where
  pub now : ℕ
  pub tolerance : ℕ
  pub parent_max_age : ℕ
  pub write : Bool
  pub read_stamp : Value → Stamp
  pub parent_time : String → String → String → ℕ
  pub trim : ℕ → List String → List String
  pub has_source : Bool
  pub has_open_chat : Bool
  pub workbench : Bool
  pub answer : Answer

abbrev pub journal_error : LastError → Error
journal_error clear = no_error
journal_error load_failed = journal_load_error
journal_error write_failed = journal_write_error

abbrev pub note : Effect → Agent → Agent
note x a = record a { effects = x ∷ a.effects }

-- `str(cmd.get(key) or "").strip()`
unfoldable pub field_of : Fields → String → String
field_of cmd key = strip (Json.text_or_empty (Json.get cmd key))
