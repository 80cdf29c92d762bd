-- ===== src/Hub/Queue.antt =====
-- Presence, events and commands of `BridgeHub`, with `command_store` None. Times are ticks of
-- `time.time()`; a new command's id is given, since it is made of the time and of random digits.
use pdd_bridge_agent.Prelude.{
  ℕ, zero, suc, ◌+◌, ◌-◌, Bool, true, false, ◌||◌, Option, none, some, List, [], ◌∷◌, ◌++◌, String,
  str_eq, ltb, leb, if◌then◌else◌, length, drop, keep, max, min,
}
use mathlib.Core.List.{reverse}
use pdd_bridge_agent.Text.{strip, is_blank, or_text}
use pdd_bridge_agent.Dict
use pdd_bridge_agent.Dict.{Dict}
use pdd_bridge_agent.Json
use pdd_bridge_agent.Json.{Fields, end}

-- A row of `self.agents`; `registered_at` is `none` where the key is missing.
pub record Row : Type 0 where
  pub agent_name : String
  pub version : String
  pub registered_at : Option ℕ
  pub last_seen : ℕ
  pub online : Bool
  pub status : Fields

pub data Status : Type 0 where
  queued delivered succeeded failed : Status

pub data Kind : Type 0 where
  send_text open_chat : Kind

pub record Command : Type 0 where
  pub kind : Kind
  pub agent_id : String
  pub buyer_id : String
  pub account : String
  pub content : String
  pub meta : Fields
  pub created_at : ℕ
  pub status : Status
  pub result : Option Fields
  pub delivered_at : Option ℕ
  pub finished_at : Option ℕ

pub record Event : Type 0 where
  pub agent_id : String
  pub received_at : ℕ
  pub body : Fields

pub record Hub : Type 0 where
  pub agents : Dict Row
  pub commands : Dict Command
  pub queues : Dict (List String)
  pub events : List Event

-- What an agent gets of a command.
pub record Pulled : Type 0 where
  pub id : String
  pub kind : Kind
  pub buyer_id : String
  pub account : String
  pub content : String
  pub meta : Fields

pub data Raised {ℓ} (A : Type ℓ) : Type ℓ where
  value_error key_error permission_error : Raised A
  returns : A → Raised A

abbrev blank_row : Row
blank_row = record {
  agent_name = "";
  version = "";
  registered_at = none;
  last_seen = 0;
  online = false;
  status = end;
}

-- `register`; `made_up` is the id that a caller without one is given.
unfoldable pub register : ℕ → String → String → String → String → Hub → Hub × Row
register now made_up id name version h =
    let agent = or_text (strip id) made_up in
    let old = Dict.or_else (Dict.get h.agents agent) blank_row in
    let row : Row = record old {
      agent_name = or_text name (or_text old.agent_name agent);
      version = or_text version old.version;
      registered_at = some (Dict.or_else old.registered_at now);
      last_seen = now;
      online = true;
    } in
    (
      record h {
        agents = Dict.put h.agents agent row;
        queues = Dict.set_default h.queues agent [];
      },
      row,
    )

-- `heartbeat`, with the number of queued commands
unfoldable pub heartbeat : ℕ → String → String → Fields → Hub → Raised (Hub × ℕ)
heartbeat now id name status h =
    let agent = strip id in
    if is_blank agent
    then value_error
    else (let old =
          Dict.or_else (Dict.get h.agents agent) (record blank_row { registered_at = some now }) in
        let queues = Dict.set_default h.queues agent [] in
        returns (
          record h {
            agents = Dict.put h.agents agent (record old {
              agent_name = or_text name (or_text old.agent_name agent);
              last_seen = now;
              online = true;
              status = status;
            });
            queues = queues;
          },
          length (Dict.or_else (Dict.get queues agent) []),
        ))

abbrev touch : ℕ → String → Dict Row → Dict Row
touch now id agents = elim (Dict.get agents id) [
  | none ↦ agents
  | some row ↦ Dict.put agents id (record row { last_seen = now })
]

-- `deque(maxlen=5000).append`
abbrev push_bounded {ℓ} : {A : Type ℓ} → List A → A → List A
push_bounded items x =
    let all = items ++ x ∷ [] in if ltb 5000 (length all) then drop 1 all else all

-- The loop of `push_events`, on the entries that are dicts (`none` is any other entry).
unfoldable append_events : ℕ → String → List (Option Fields) → List Event × ℕ → List Event × ℕ
append_events now id [] s = s
append_events now id (none ∷ rest) s = append_events now id rest s
append_events now id (some body ∷ rest) s =
    append_events now id rest
      (push_bounded s.0 (record { agent_id = id; received_at = now; body = body }), s.1 + 1)

-- `push_events`, with the number of accepted events
unfoldable pub push_events : ℕ → String → List (Option Fields) → Hub → Hub × ℕ
unfolding append_events
push_events now id raws h =
    let (events, accepted) = append_events now id raws (h.events, 0) in
    (record h { events = events; agents = touch now id h.agents }, accepted)

-- `_enqueue_command`: an unknown agent gets a row, offline and never seen.
unfoldable pub enqueue : ℕ → String → Command → Hub → Hub
enqueue now id cmd h =
    let agent = cmd.agent_id in
    record h {
      agents =
          if Dict.has_value (Dict.get h.agents agent)
          then h.agents
          else Dict.put h.agents agent
              (record blank_row { agent_name = agent; registered_at = some now });
      commands = Dict.put h.commands id cmd;
      queues = Dict.put h.queues agent (Dict.or_else (Dict.get h.queues agent) [] ++ id ∷ []);
    }

abbrev pub new_command : ℕ → Kind → String → String → String → String → Fields → Command
new_command now kind agent buyer account content meta = record {
  kind = kind;
  agent_id = agent;
  buyer_id = buyer;
  account = account;
  content = content;
  meta = meta;
  created_at = now;
  status = queued;
  result = none;
  delivered_at = none;
  finished_at = none;
}

-- `enqueue_send`
unfoldable pub enqueue_send :
    ℕ → String → String → String → String → String → Fields → Hub → Raised (Hub × Command)
unfolding enqueue
enqueue_send now id agent_id buyer_id account content meta h =
    let a = strip agent_id in
    let b = strip buyer_id in
    let c = strip account in
    let t = strip content in
    if is_blank a || is_blank b || is_blank c || is_blank t
    then value_error
    else (let cmd = new_command now send_text a b c t meta in returns (enqueue now id cmd h, cmd))

-- `enqueue_open_chat`
unfoldable pub enqueue_open_chat :
    ℕ → String → String → String → String → Fields → Hub → Raised (Hub × Command)
unfolding enqueue
enqueue_open_chat now id agent_id buyer_id account meta h =
    let a = strip agent_id in
    let b = strip buyer_id in
    let c = strip account in
    if is_blank a || is_blank b || is_blank c
    then value_error
    else (let cmd = new_command now open_chat a b c "" meta in returns (enqueue now id cmd h, cmd))

abbrev pub is_open : Status → Bool
is_open queued = true
is_open delivered = true
is_open _ = false

abbrev pub pulled_of : String → Command → Pulled
pulled_of id cmd = record {
  id = id;
  kind = cmd.kind;
  buyer_id = cmd.buyer_id;
  account = cmd.account;
  content = cmd.content;
  meta = cmd.meta;
}

-- What one turn of the loop of `pull_commands` makes of the id at the head of the queue.
unfoldable pub take_one : ℕ → String → Dict Command → Option (Pulled × Dict Command)
take_one now id commands = elim (Dict.get commands id) [
  | none ↦ none
  | some cmd ↦
      if is_open cmd.status
      then some (
        pulled_of id cmd,
        Dict.put commands id (record cmd { status = delivered; delivered_at = some now }),
      )
      else none
]

-- The loop of `pull_commands`: the room that is left, the queue, and the commands; with what is left
-- of the queue, the commands, and what is handed out.
unfoldable pub pull_loop :
    ℕ → ℕ → List String → Dict Command → List String × Dict Command × List Pulled
pull_loop now zero queue commands = (queue, commands, [])
pull_loop now (suc room) [] commands = ([], commands, [])
pull_loop now (suc room) (id ∷ queue) commands = elim (take_one now id commands) [
  | none ↦ pull_loop now (suc room) queue commands
  | some (p, commands') ↦
      let (rest, after, out) = pull_loop now room queue commands' in (rest, after, p ∷ out)
]

abbrev see : ℕ → String → Dict Row → Dict Row
see now id agents = elim (Dict.get agents id) [
  | none ↦ agents
  | some row ↦ Dict.put agents id (record row { last_seen = now; online = true })
]

-- `pull_commands`, once it has waited
unfoldable pub pull_commands : ℕ → String → ℕ → Hub → Hub × List Pulled
unfolding pull_loop take_one
pull_commands now id limit h =
    let agent = strip id in
    let (queue, commands, out) =
      pull_loop now limit (Dict.or_else (Dict.get h.queues agent) []) h.commands in
    (
      record h {
        agents = see now agent h.agents;
        commands = commands;
        queues = Dict.put h.queues agent queue;
      },
      out,
    )

abbrev pub finish_command : ℕ → Fields → Command → Command
finish_command now result cmd = record cmd {
  status = if Json.truthy (Json.get result "ok") then succeeded else failed;
  result = some result;
  finished_at = some now;
}

abbrev pub complete_found :
    ℕ → String → String → Fields → Hub → Option Command → Raised (Hub × Command)
complete_found now id agent result h none = key_error
complete_found now id agent result h (some cmd) =
    if str_eq cmd.agent_id agent
    then returns (
      record h { commands = Dict.put h.commands id (finish_command now result cmd) },
      finish_command now result cmd,
    )
    else permission_error

-- `complete_command`
unfoldable pub complete_command : ℕ → String → String → Fields → Hub → Raised (Hub × Command)
complete_command now id agent_id result h =
    complete_found now (strip id) (strip agent_id) result h (Dict.get h.commands (strip id))

-- `list_online_agents`, of the rows with their ids
unfoldable pub list_online_agents : ℕ → ℕ → Hub → List (String × Row)
list_online_agents now max_age h = keep (λ e. leb (now - e.1.last_seen) max_age) h.agents

-- `recent_events`: the last ones first
unfoldable pub recent_events : ℕ → Hub → List Event
recent_events limit h = reverse (drop (length h.events - max 1 (min 500 limit)) h.events)
