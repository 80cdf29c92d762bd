-- ===== src/Tests/Timing.antt =====
-- A live message and a reply to it.
use pdd_bridge_agent.Prelude.{true, false, none, ◌≡◌, refl}
use pdd_bridge_agent.Text.{occurs}
use pdd_bridge_agent.Timing.{
  unreadable, aware, epoch_seconds, Times, captured, in_history, stamp_message, history_ready,
  judge, command_expired, takeover_expired,
}

abbrev live : Times
live = record {
  ts = aware 1000000;
  captured_at = unreadable;
  captured_at_ms = unreadable;
  source = "cdp";
  is_history = false;
  auto_reply_eligible = none;
  history_reason = "";
  capture_source = "";
}

abbrev old : Times
old = record live { is_history = true; ts = aware 100000 }

old_ready : history_ready 1001000 (stamp_message 5000 false 1001000 old) ≡ true
unfolding history_ready stamp_message captured judge epoch_seconds in_history occurs
old_ready = refl

late : takeover_expired 5000 300000 1100000 "send_text" false (aware 1000000) "" 0 ≡ true
unfolding takeover_expired command_expired epoch_seconds
late = refl
