-- ===== src/Timing/Windows.antt =====
-- The windows of bridge/message_timing.py: what they let through, and for how long.
use pdd_bridge_agent.Prelude.{
  ℕ, ◌+◌, ◌≤◌, ◌<◌, Bool, true, false, String, ◌≡◌, ◌≢◌, ◌↔◌, arith, eq_iff, ap, ◌∙◌, sym,
}
use pdd_bridge_agent.Timing.{
  Stamp, number, epoch_seconds, Times, captured, in_history, judge, stamp_message, history_ready,
  command_expired, takeover_expired, live_max_age,
}

stamp-captured_at :
    (tolerance : ℕ) (h : Bool) (now : ℕ) (m : Times)
    → ((stamp_message tolerance h now m).captured_at ≡ number (captured now m))
      × ((stamp_message tolerance h now m).ts ≡ m.ts)
unfolding stamp_message
stamp-captured_at tolerance h now m = ground arith

captured_pos : (now : ℕ) (m : Times) → 0 < now → 0 < captured now m
unfolding captured
captured_pos now m h = ground arith

captured_again :
    (later : ℕ) (s : Times) (c : ℕ)
    → s.captured_at ≡ number c
    → 0 < c
    → c ≤ 100000000000000
    → captured later s ≡ c
unfolding captured epoch_seconds
captured_again later s c e pos small = ground arith

-- The first stamp, at a time after 0, fixes the capture time, if that is at most 10^14 milliseconds: a
-- later stamp, at any time, keeps it.
pub capture_time_immutable :
    (tolerance : ℕ) (h h' : Bool) (now later : ℕ) (m : Times)
    → 0 < now
    → captured now m ≤ 100000000000000
    → (stamp_message tolerance h' later (stamp_message tolerance h now m)).captured_at
      ≡ (stamp_message tolerance h now m).captured_at
capture_time_immutable tolerance h h' now later m pos small =
    let s = stamp_message tolerance h now m in
    let first = (stamp-captured_at tolerance h now m).0 in
    (stamp-captured_at tolerance h' later s).0
    ∙ ap number (captured_again later s (captured now m) first (captured_pos now m pos) small)
    ∙ sym first

-- History stays history.
pub history_stays :
    (tolerance : ℕ) (h : Bool) (now : ℕ) (m : Times)
    → m.is_history ≡ true
    → (stamp_message tolerance h now m).is_history ≡ true
unfolding stamp_message judge
history_stays tolerance h now m e = ground arith

-- What is submitted right after it was stamped: its time is known and not ahead of the clock; it is
-- live only in its first ninety seconds, and history only after them.
pub ready_after_stamp :
    (tolerance : ℕ) (h : Bool) (now : ℕ) (m : Times)
    → history_ready now (stamp_message tolerance h now m) ≡ true
    → (0 < epoch_seconds m.ts)
      × (epoch_seconds m.ts ≤ now + tolerance)
      × ((stamp_message tolerance h now m).is_history ≡ false
          → now ≤ epoch_seconds m.ts + live_max_age)
      × ((stamp_message tolerance h now m).is_history ≡ true
          → epoch_seconds m.ts + live_max_age < now)
unfolding history_ready stamp_message judge
ready_after_stamp tolerance h now m r = ground arith

-- A message that no source marks as history, that has no earlier verdict of a time in the future, and
-- whose time lies in the live window is submitted as live.
pub live_is_ready :
    (tolerance : ℕ) (now : ℕ) (m : Times)
    → m.is_history ≡ false
    → in_history m.source ≡ false
    → m.history_reason ≢ "future_platform_time"
    → 0 < epoch_seconds m.ts
    → epoch_seconds m.ts ≤ now + tolerance
    → now ≤ epoch_seconds m.ts + live_max_age
    → (history_ready now (stamp_message tolerance false now m) ≡ true)
      × ((stamp_message tolerance false now m).is_history ≡ false)
unfolding history_ready stamp_message judge
live_is_ready tolerance now m h s r pos ahead fresh =
    ground (arith, eq_iff m.history_reason "future_platform_time")

-- An automatic command, other than open_chat, counts as not expired exactly while it is at most ninety
-- seconds old and not from the future.
pub expiry_exact :
    (now : ℕ) (kind : String) (created : Stamp)
    → kind ≢ "open_chat"
    → (command_expired now kind false created ≡ false) ↔ (
        (0 < epoch_seconds created)
        × (epoch_seconds created ≤ now)
        × (now ≤ epoch_seconds created + live_max_age))
unfolding command_expired
expiry_exact now kind created k = ground (arith, eq_iff kind "open_chat")

-- Once expired, a command stays expired, if it is not from the future and its parent's time is not
-- ahead of the clock by more than the tolerance.
pub expired_stays :
    (tolerance parent_age now later : ℕ) (kind : String) (manual : Bool) (created : Stamp)
    (parent : String) (parent_time : ℕ)
    → epoch_seconds created ≤ now
    → parent_time ≤ now + tolerance
    → now ≤ later
    → takeover_expired tolerance parent_age now kind manual created parent parent_time ≡ true
    → takeover_expired tolerance parent_age later kind manual created parent parent_time ≡ true
unfolding takeover_expired
expired_stays tolerance parent_age now later kind manual created parent parent_time past pp le e =
    ground arith
