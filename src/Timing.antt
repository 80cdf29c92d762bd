-- ===== src/Timing.antt =====
-- bridge/message_timing.py: capture times, the live window, and when a command has expired.
-- Times are milliseconds.
pub mod Windows
use pdd_bridge_agent.Prelude.{
  ℕ, ◌+◌, ◌-◌, ◌*◌, ◌/◌, max, Bool, true, false, not, ◌&&◌, ◌||◌, Option, none, some, List, [], ◌∷◌,
  String, str_eq, ltb, leb, nat_eq, if◌then◌else◌,
}
use pdd_bridge_agent.Text.{occurs, is_blank, or_text}

-- What `float` makes of a value, in thousandths, or `datetime.fromisoformat` of a text with a time
-- zone, in milliseconds. `unreadable` is `None`, a text that is neither, a number that is not
-- finite, or one that is not positive.
pub data Stamp : Type 0 where
  number : ℕ → Stamp
  aware : ℕ → Stamp
  unreadable : Stamp

-- A number above 10^11 is taken to be milliseconds.
unfoldable pub epoch_seconds : Stamp → ℕ
epoch_seconds (number n) = if ltb 100000000000000 n then n / 1000 else n
epoch_seconds (aware n) = n
epoch_seconds unreadable = 0

abbrev pub live_max_age : ℕ
live_max_age = 90000

-- The two that the environment may set, `FUTURE_TOLERANCE_SECONDS` and `TAKEOVER_PARENT_MAX_AGE_SECONDS`,
-- are arguments of what reads them: a tolerance, and an age of the parent.
-- The keys of a message that the timing reads and writes.
pub record Times : Type 0 where
  pub ts : Stamp
  pub captured_at : Stamp
  pub captured_at_ms : Stamp
  pub source : String
  pub is_history : Bool
  pub auto_reply_eligible : Option Bool
  pub history_reason : String
  pub capture_source : String

-- `a or b` on times
abbrev or_time : ℕ → ℕ → ℕ
or_time a b = if nat_eq a 0 then b else a

unfoldable pub captured : ℕ → Times → ℕ
captured now m =
    or_time (epoch_seconds m.captured_at) (or_time (epoch_seconds m.captured_at_ms) now)

-- The `if`/`elif`/`else` of `stamp_message`: whether it is history, and why.
unfoldable pub judge : ℕ → ℕ → ℕ → Bool → String → Bool × String
judge tolerance now timestamp history reason =
    if nat_eq timestamp 0
    then (true, "missing_platform_time")
    else if ltb (now + tolerance) timestamp
    then (true, "future_platform_time")
    else (let kept = if str_eq reason "future_platform_time" then "" else reason in
        if ltb live_max_age (now - timestamp)
        then (true, or_text kept "stale_platform_time")
        else (history, kept))

abbrev finish : Times → Bool × String → Times
finish m (true, reason) = record m {
  is_history = true;
  auto_reply_eligible = some false;
  history_reason = or_text reason "replay";
  capture_source = or_text m.capture_source m.source;
  source = "history";
}
finish m (false, reason) = m

unfoldable pub in_history : String → Bool
in_history source = occurs "history" source

-- `stamp_message`
unfoldable pub stamp_message : ℕ → Bool → ℕ → Times → Times
unfolding captured judge
stamp_message tolerance historical now m =
    finish
      (record m {
        captured_at = number (captured now m);
        captured_at_ms = number (captured now m * 1000);
      })
      (judge tolerance now (epoch_seconds m.ts) (historical || m.is_history || in_history m.source)
        m.history_reason)

-- `history_ready`
unfoldable pub history_ready : ℕ → Times → Bool
history_ready now m =
    let timestamp = epoch_seconds m.ts in
    if nat_eq timestamp 0 || str_eq m.history_reason "future_platform_time"
    then false
    else not m.is_history || ltb live_max_age (now - timestamp)

-- `command_expired`, on the command's type, `meta.manual_direct is True` and `created_at`
unfoldable pub command_expired : ℕ → String → Bool → Stamp → Bool
command_expired now kind manual_direct created_at =
    let created = epoch_seconds created_at in
    if str_eq kind "open_chat" || manual_direct
    then false
    else nat_eq created 0 || ltb now created || ltb live_max_age (now - created)

-- `_command_expired` of bridge/agent.py: the parent message must be recent too, if its time is
-- known. `parent_id` is blank where there is no takeover parent, `parent_time` 0 where the time of
-- the parent is not known.
unfoldable pub takeover_expired : ℕ → ℕ → ℕ → String → Bool → Stamp → String → ℕ → Bool
unfolding command_expired
takeover_expired tolerance parent_age now kind manual_direct created_at parent_id parent_time =
    if command_expired now kind manual_direct created_at
    then true
    else if manual_direct || is_blank parent_id || nat_eq parent_time 0
    then false
    else ltb (now + tolerance) parent_time || ltb parent_age (now - parent_time)
