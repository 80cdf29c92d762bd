-- ===== src/Tests/Intake.antt =====
-- Messages that come in, sent ones and one of a buyer whose append fails.
use pdd_bridge_agent.Prelude.{
  ℕ, Bool, true, false, ◌&&◌, none, List, [], ◌∷◌, String, Char, code, leb, ◌≡◌, refl, arith, map,
}
use pdd_bridge_agent.Text.{strip, has_prefix}
use pdd_bridge_agent.Dict
use pdd_bridge_agent.Timing.{Times, unreadable, number}
use pdd_bridge_agent.Seats.Scope
use pdd_bridge_agent.Ingest
use pdd_bridge_agent.Commands.Verdicts.{sent_text_key}
use pdd_bridge_agent.Intake.{Message, Event, Sent, Intake}
use pdd_bridge_agent.Intake.Outgoing.{
  merge_outgoing_duplicate, is_merged, scan, matches, score_of, within, merge_found,
}
use pdd_bridge_agent.Intake.Local.{Settings, World, take_event, after_cross, after_merge, enqueue}
use pdd_bridge_agent.Intake.Cover.{dropped_is_covered, replaced_is_less, CoveredBy, QueueAfter}
use pdd_bridge_agent.Intake.Queue.{run-IsExact, IsExact, Step, arrives, settles, run}
use pdd_bridge_agent.Intake.Loss.{failed_append_is_lost}

abbrev is_digit : Char → Bool
is_digit c = leb b'0' (code c) && leb (code c) b'9'

abbrev sha256 : String → String
sha256 s = "00"

abbrev times : Times
times = record {
  ts = number 1000000;
  captured_at = unreadable;
  captured_at_ms = unreadable;
  source = "cdp";
  is_history = false;
  auto_reply_eligible = none;
  history_reason = "";
  capture_source = "";
}

abbrev event : String → String → String → String → Event
event id role content platform_id = record {
  event_id = id;
  platform = "pdd";
  msg_id = "";
  platform_message_id = platform_id;
  account = "cs_1_2";
  buyer_id = "b1";
  role = role;
  content = content;
  is_diagnostic = false;
  times = times;
}

abbrev empty : Intake
empty = record {
  scope = record {
    seats = [];
    shops = [];
    discovered = [];
    refreshed_at = 0;
    stats = record {
      refreshes = 0;
      allowed = 0;
      blocked = 0;
      unknown_passed = 0;
      inbound_passed = 0;
      blocked_empty_account = 0;
      blocked_other_seat = 0;
      blocked_shop_only = 0;
      shrink_warnings = 0;
      last_blocked = Scope.nothing;
    };
  };
  out_of_scope = 0;
  last_out_of_scope = "";
  accounts_seen = [];
  recent_buyers = [];
  pending = [];
  pending_ids = [];
  ingest = record { seen = []; pruned_at = 0; dropped = 0; last_drop_at = 0 };
  recent_outgoing = [];
  outgoing_superseded = false;
  source_times = [];
  queue_file = [];
  ledger = [];
  pushed = [];
}

abbrev settings : Settings
settings = record {
  platform = "pdd";
  seat_scope = record {
    enabled = false;
    refresh_ticks = 30;
    allowed_shop_ids = [];
    allowed_seat_accounts = [];
  };
  history_max_age = 1800000;
  history_user_only = true;
  outgoing_window = 60000;
  ingest_window = 600000;
}

abbrev world : ℕ → Bool → World
world now appends = record {
  now = now;
  tolerance = 5000;
  provider = Scope.absent;
  appends = appends;
  rewrites = true;
  pushes = true;
}

-- The plugin's record of a message, and the platform's with an id
abbrev plugin : Event
plugin = event "e1" "mall_cs" "Hello 1234" ""

abbrev echo : Event
echo = event "e2" "mall_cs" "Hello 1234!" "777"

abbrev after_plugin : Intake
after_plugin = record empty {
  pending = plugin ∷ [];
  pending_ids = "e1" ∷ [];
  recent_outgoing =
      record {
        at = 1000;
        account = "cs_1_2";
        buyer = "b1";
        text = "Hello1234";
        score = 9;
        event_id = "e1";
      }
      ∷ [];
}

replaced_is_less_example :
    QueueAfter is_digit echo
      (within 60000 2000 after_plugin.recent_outgoing)
      after_plugin
      (merge_outgoing_duplicate is_digit 60000 2000 echo after_plugin)
replaced_is_less_example = replaced_is_less is_digit 60000 2000 echo after_plugin

-- The echo takes the place of the plugin's record.
echo_replaces :
    map
      (λ (e : Event). e.event_id)
      (merge_outgoing_duplicate is_digit 60000 2000 echo after_plugin).0.pending
    ≡ []
unfolding merge_outgoing_duplicate is_merged scan matches score_of within merge_found strip
    has_prefix sent_text_key
echo_replaces = refl

-- A second record of the plugin is covered.
dropped_is_covered_example :
    (item : Sent) × CoveredBy is_digit plugin
      (within 60000 2000 after_plugin.recent_outgoing)
      after_plugin
      item
dropped_is_covered_example = dropped_is_covered is_digit 60000 2000 plugin after_plugin dropped
  where
    dropped : (merge_outgoing_duplicate is_digit 60000 2000 plugin after_plugin).1 ≡ true
    dropped =
        unfold merge_outgoing_duplicate is_merged scan matches score_of within merge_found strip
          has_prefix sent_text_key in
        refl

abbrev message : String → Message
message id = record {
  platform = "";
  idempotency_key = id;
  msg_id = "";
  platform_message_id = "";
  account = "cs_1_2";
  buyer_id = "b1";
  role = "user";
  content = "Hi";
  ts_text = "1000";
  is_diagnostic = false;
  times = times;
}

abbrev steps : List Step
steps =
    arrives (world 1000000 true) (message "e1")
    ∷ arrives (world 1000001 true) (message "e1")
    ∷ settles (λ e. true) (λ e. false) true
    ∷ []

run-IsExact_example : IsExact (run sha256 is_digit settings steps empty)
run-IsExact_example =
    run-IsExact sha256 is_digit settings steps empty (λ id. (omega arith, refl, omega arith))

abbrev bought : Event
bought = event "e3" "user" "Is it in stock?" "1790000001"

failed_append_is_lost_example :
    let s' = (take_event is_digit settings (world 1000000 false) bought empty).0 in
    let r = take_event is_digit settings (world 1000500 true) bought s' in
    (r.1 ≡ false) × (r.0.pending ≡ []) × (r.0.queue_file ≡ s'.queue_file)
failed_append_is_lost_example =
    failed_append_is_lost is_digit settings (world 1000000 false) (world 1000500 true) bought empty
      (refl, (unfold Ingest.ingest_identity Ingest.usable strip in refl)) refl (omega arith)
      (omega arith)
      (unfold take_event after_cross after_merge enqueue Ingest.cross_source_duplicate
          Ingest.duplicate_of Ingest.prune Dict.get Dict.put merge_outgoing_duplicate is_merged scan
          matches score_of within merge_found strip has_prefix sent_text_key Ingest.ingest_identity
          Ingest.usable in
        refl)
