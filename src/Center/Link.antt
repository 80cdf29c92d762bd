-- ===== src/Center/Link.antt =====
-- The connection of bridge/center_ws.py: its address, the handshake of `_session`, and the loop of
-- `_run` that connects again. Delays are seconds.
use pdd_bridge_agent.Prelude.{
  ℕ, ◌*◌, min, max, Bool, true, false, not, ◌&&◌, ◌||◌, Option, none, some, List, [], ◌∷◌, String,
  code, nat_eq, str_eq, if◌then◌else◌,
}
use pdd_bridge_agent.Text.{strip, is_blank, append, has_prefix}
use pdd_bridge_agent.Json.{Value, Fields, null, bool, num, text, obj, other}
use pdd_bridge_agent.Json

-- `s.rstrip("/")`
unfoldable pub without_slashes : String → String
without_slashes String.[] = String.[]
without_slashes (String.◌∷◌ c s) =
    let rest = without_slashes s in
    if is_blank rest && nat_eq (code c) b'/' then String.[] else String.◌∷◌ c rest

-- `s[len(t):]`
unfoldable pub behind : String → String → String
behind s String.[] = s
behind String.[] (String.◌∷◌ d t) = String.[]
behind (String.◌∷◌ c s) (String.◌∷◌ d t) = behind s t

unfoldable pub with_slash : String → String
with_slash path = if has_prefix path "/" then path else append "/" path

abbrev pub websocket_base : String → Option String
websocket_base base =
    if is_blank base
    then none
    else if has_prefix base "https://"
    then some (append "wss://" (behind base "https://"))
    else if has_prefix base "http://"
    then some (append "ws://" (behind base "http://"))
    else if has_prefix base "ws://" || has_prefix base "wss://"
    then some base
    else none

abbrev pub with_path : String → Option String → Option String
with_path path none = none
with_path path (some base) = some (append base (with_slash path))

-- `ws_url_from_server_url`, `none` where it raises
unfoldable pub ws_url_from_server_url : String → String → Option String
unfolding without_slashes with_slash behind
ws_url_from_server_url server_url path =
    with_path path (websocket_base (without_slashes (strip server_url)))

-- The first frame: the socket is closed, with its code; it fails otherwise, by a timeout or a text that is
-- no JSON; or a JSON value.
pub data Greeting : Type 0 where
  closed_with : ℕ → Greeting
  lost : Greeting
  greeted : Value → Greeting

-- How `_session` ends: it returns, or raises one of its errors or any other.
pub data Outcome : Type 0 where
  returned auth_failed mismatch disconnected : Outcome

-- `version != 1`: True and 1.0 are equal to 1.
unfoldable pub is_one : Value → Bool
is_one (bool b) = b
is_one (num n s) = nat_eq n 1
is_one (other s b) = str_eq s "1.0"
is_one _ = false

unfoldable pub is_ready : Value → Bool
is_ready (text s) = str_eq s "ready"
is_ready _ = false

-- The state of the loop, without `_connected`, which is on from a greeting that is accepted to the end
-- of its session; `established` is `_attempt_established`.
pub record Link : Type 0 where
  pub established : Bool
  pub max_inflight : ℕ
  pub delay : ℕ

-- What is no part of the channel in one attempt: the handshake of the socket, the first frame,
-- `int(ready.get("max_inflight") or 0)` where it does not raise, and whether the loop over the frames
-- returns.
pub record Attempt : Type 0 where
  pub opened : Bool
  pub greeting : Greeting
  pub inflight : Option ℕ
  pub ends : Bool

abbrev accept : Option ℕ → Bool → Link → Link × Outcome
accept none ends l = (l, disconnected)
accept (some n) ends l =
    (record l { established = true; max_inflight = n }, (if ends then returned else disconnected))

abbrev ready : Attempt → Fields → Link → Link × Outcome
ready a d l =
    if not (is_ready (Json.get d "type"))
    then (l, mismatch)
    else if not (is_one (Json.get d "protocol_version"))
    then (l, mismatch)
    else accept a.inflight a.ends l

unfoldable pub greet : Attempt → Greeting → Link → Link × Outcome
unfolding is_ready is_one
greet a (closed_with c) l = (l, (if nat_eq c 4001 then auth_failed else disconnected))
greet a lost l = (l, disconnected)
greet a (greeted (obj d)) l = ready a d l
greet a (greeted _) l = (l, mismatch)

-- `_session` from the connection to its end
unfoldable pub session : Attempt → Link → Link × Outcome
unfolding greet
session a l = if a.opened then greet a a.greeting l else (l, disconnected)

abbrev pub reconnect_min : ℕ
reconnect_min = 1

abbrev pub reconnect_max : ℕ
reconnect_max = 60

-- The delay that follows the end of a session
unfoldable pub delay_after : Outcome → Bool → ℕ → ℕ
delay_after returned established delay = reconnect_min
delay_after auth_failed established delay = reconnect_max
delay_after mismatch established delay = reconnect_max
delay_after disconnected established delay = if established then reconnect_min else delay

abbrev pub next_delay : ℕ → ℕ
next_delay delay = min reconnect_max (max reconnect_min (delay * 2))

abbrev slept : Link × Outcome → Link × ℕ
slept (l, o) =
    let delay = delay_after o l.established l.delay in
    (record l { delay = next_delay delay }, delay)

-- One turn of the loop of `_run`, with the time that it sleeps
unfoldable pub turn : Attempt → Link → Link × ℕ
unfolding session delay_after
turn a l = slept (session a (record l { established = false }))

-- The times that the loop sleeps
unfoldable pub sleeps : List Attempt → Link → List ℕ
unfolding turn
sleeps [] l = []
sleeps (a ∷ rest) l = (turn a l).1 ∷ sleeps rest (turn a l).0

-- `_run` before its first turn
unfoldable pub start : Link
start = record { established = false; max_inflight = 0; delay = reconnect_min }
