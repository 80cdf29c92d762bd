-- ===== src/Tests/Upload.antt =====
-- A queue of two events, one of which the center rejects.
use pdd_bridge_agent.Prelude.{
  ℕ, ◌≤◌, max, Bool, true, false, none, some, [], ◌∷◌, String, keep, length, ◌≡◌, refl, arith,
}
use pdd_bridge_agent.Timing.{aware, unreadable}
use pdd_bridge_agent.Upload.{
  Event, Uploader, no_error, Clock, Ack, answered, begin_flush, end_flush, stays, find_sent,
}
use pdd_bridge_agent.Upload.Batches.{batch_sound, batch-Timely, Every, Chosen, Timely}
use pdd_bridge_agent.Upload.Queue.{flush_loses_nothing, count_of}

abbrev pub event : ℕ → String → Event
event handle id = record {
  handle = handle;
  event_id = id;
  idempotency_key = "";
  is_diagnostic = false;
  times = record {
    ts = aware 1000000;
    captured_at = unreadable;
    captured_at_ms = unreadable;
    source = "cdp";
    is_history = false;
    auto_reply_eligible = none;
    history_reason = "";
    capture_source = "";
  };
}

abbrev pub uploader : Uploader
uploader = record {
  pending = event 1 "e1" ∷ event 2 "e2" ∷ [];
  inflight = [];
  queue_file = [];
  dead_letters = [];
  retry_at = 0;
  retry_delay = 500;
  last_error = no_error;
}

abbrev clock : Clock
clock = record { now = 1001000; tolerance = 5000; history_now = 1000000; monotonic = 7 }

abbrev any : Event → Bool
any e = true

batch_sound_example :
    (length (begin_flush any 500 clock [] uploader).1 ≤ max 2 500)
    × Every (Chosen any clock uploader.inflight []) (begin_flush any 500 clock [] uploader).1
batch_sound_example = batch_sound any 500 clock [] uploader (omega arith)

batch-Timely_example : Every (λ e. Timely clock e.times) (begin_flush any 500 clock [] uploader).1
batch-Timely_example = batch-Timely any 500 clock [] uploader (omega arith)

abbrev rejected : Ack
rejected = record {
  event_id = "e2";
  status = "rejected";
  reason = "invalid_buyer";
  committed = false;
  retryable = some false;
}

flush_loses_nothing_example :
    count_of 1 (end_flush true 7 (answered (rejected ∷ [])) uploader.pending uploader).pending
    ≡ count_of 1 (keep (stays (answered (rejected ∷ [])) uploader.pending) uploader.pending)
flush_loses_nothing_example =
    flush_loses_nothing 1 7 true (answered (rejected ∷ [])) uploader.pending uploader

sent_there : find_sent "e2" uploader.pending ≡ some (event 2 "e2")
unfolding find_sent
sent_there = refl
