-- ===== src/Intake/Local.antt =====
-- `_on_local_event` of bridge/agent.py, with `_seat_scope_allows`, `_note_out_of_scope`,
-- `_append_local_queue` and `_rewrite_local_queue`, and `append_event` of bridge/event_queue.py. A
-- failed append leaves the file as it was, since it is cut back to its old end.
use pdd_bridge_agent.Prelude.{
  ℕ, ◌+◌, ◌-◌, Bool, true, false, not, ◌&&◌, ◌||◌, [], ◌∷◌, ◌++◌, String, Char, str_eq, ltb, nat_eq,
  if◌then◌else◌, member,
}
use pdd_bridge_agent.Text.{strip, is_blank, has_prefix}
use pdd_bridge_agent.Dict
use pdd_bridge_agent.Timing.{Times, Stamp, number, stamp_message}
use pdd_bridge_agent.Seats.Scope
use pdd_bridge_agent.Seats.Scope.{allows, block}
use pdd_bridge_agent.Ingest
use pdd_bridge_agent.Ingest.{cross_source_duplicate}
use pdd_bridge_agent.Intake.{Message, Event, Intake, event_of, put_buyer, remember_source_time}
use pdd_bridge_agent.Intake.Outgoing.{merge_outgoing_duplicate}

-- The configuration, with the defaults filled in. The ages and windows are not negative.
pub record Settings : Type 0 where
  pub platform : String
  pub seat_scope : Scope.Config
  pub history_max_age : ℕ
  pub history_user_only : Bool
  pub outgoing_window : ℕ
  pub ingest_window : ℕ

-- What one call meets: the clock, the tolerance for a time ahead of it, the provider of the accounts, whether the append to the queue file and
-- its rewriting succeed, and whether the local workbench has a queue with room.
pub record World : Type 0 where
  pub now : ℕ
  pub tolerance : ℕ
  pub provider : Scope.Provider
  pub appends : Bool
  pub rewrites : Bool
  pub pushes : Bool

-- `float(msg.get("ts") or 0)`, 0 also where it raises
abbrev history_ts : Stamp → ℕ
history_ts (number n) = n
history_ts _ = 0

abbrev is_cdp : Times → Bool
is_cdp t = has_prefix t.capture_source "pdd_cdp"

-- A message of history that is not taken in: without a time, or one that the CDP source fetched and that is
-- too old or not the buyer's. A time that `float` does not read raises instead; neither is queued.
unfoldable pub history_dropped : Settings → ℕ → Message → Bool
history_dropped cfg now m =
    let ts = history_ts m.times.ts in
    let too_old = not (nat_eq cfg.history_max_age 0) && ltb cfg.history_max_age (now - ts) in
    m.times.is_history
    && (nat_eq ts 0
        || (is_cdp m.times && (too_old || (cfg.history_user_only && not (str_eq m.role "user")))))

unfoldable pub note_out_of_scope : Message → Intake → Intake
note_out_of_scope m s = record s {
  out_of_scope = s.out_of_scope + 1;
  last_out_of_scope = m.account;
}

abbrev pub note : String → String → Intake → Intake
note state id s = record s {
  ledger = if is_blank id then s.ledger else s.ledger ++ (id, state) ∷ [];
}

-- `_accounts_seen` and `_recent_buyers`
unfoldable pub note_account : ℕ → String → Message → Intake → Intake
note_account now account m s = if is_blank account then s else record s {
  accounts_seen = Dict.put s.accounts_seen account now;
  recent_buyers =
      if not (is_blank m.buyer_id) && not m.times.is_history
      then put_buyer s.recent_buyers (account, m.buyer_id) now
      else s.recent_buyers;
}

-- The push to the local workbench
abbrev push : World → Event → Intake → Intake
push w e s = record s { pushed = if w.pushes then s.pushed ++ e ∷ [] else s.pushed }

-- `_rewrite_local_queue`, where a record was superseded
abbrev pub rewrite_if : World → Intake → Intake
rewrite_if w s =
    if s.outgoing_superseded
    then record s {
      outgoing_superseded = false;
      queue_file = if w.rewrites then s.pending else s.queue_file;
    }
    else s

abbrev pub appended : Event → Intake → Intake
appended e s = record s {
  queue_file = s.queue_file ++ e ∷ [];
  pending = s.pending ++ e ∷ [];
  pending_ids = e.event_id ∷ s.pending_ids;
  source_times = remember_source_time e s.source_times;
}

-- The event goes to the queue, and to its file first; `true` where the append raises.
unfoldable pub enqueue : World → Event → Intake → Intake × Bool
unfolding remember_source_time
enqueue w e s =
    if w.appends
    then (push w e (note "captured" e.event_id (rewrite_if w (appended e s))), false)
    else (s, true)

unfoldable pub after_merge : World → Event → Intake × Bool → Intake × Bool
unfolding enqueue
after_merge w e (s, true) = (note "outgoing_dedup_skipped" e.event_id s, false)
after_merge w e (s, false) = enqueue w e s

abbrev pub ingest_message : Event → Ingest.Message
ingest_message e = record {
  role = e.role;
  is_diagnostic = e.is_diagnostic;
  platform_message_id = e.platform_message_id;
  msg_id = e.msg_id;
}

module _ (is_digit : Char → Bool) (cfg : Settings) where
  unfoldable pub after_cross : World → Event → Intake → Ingest.Ingest × Bool → Intake × Bool
  unfolding after_merge
  after_cross w e s (seen, true) =
      (note "cross_source_duplicate_skipped" e.event_id (record s { ingest = seen }), false)
  after_cross w e s (seen, false) =
      after_merge w e
        (merge_outgoing_duplicate is_digit cfg.outgoing_window w.now e (record s { ingest = seen }))

  -- The part of `_on_local_event` from the event on
  unfoldable pub take_event : World → Event → Intake → Intake × Bool
  unfolding after_cross
  take_event w e s =
      if e.is_diagnostic
      then (push w e (note "captured" e.event_id s), false)
      else if member e.event_id s.pending_ids
      then (note "center_duplicate_skipped" e.event_id s, false)
      else after_cross w e s
          (cross_source_duplicate cfg.ingest_window w.now (ingest_message e) s.ingest)

abbrev pub stamped : World → Message → Message
stamped w m = record m { times = stamp_message w.tolerance false w.now m.times }

abbrev pub is_blocked : Scope.Verdict → Bool
is_blocked block = true
is_blocked _ = false

module _ (sha256 : String → String) (is_digit : Char → Bool) (cfg : Settings) where
  abbrev pub in_scope : World → Message → Intake → Intake × Bool
  in_scope w m s =
      let account = strip m.account in
      take_event is_digit cfg w (event_of sha256 cfg.platform account m)
        (note_account w.now account m s)

  abbrev pub judged : World → Message → Intake → Scope.Scope × Scope.Verdict → Intake × Bool
  judged w m s (scope, verdict) =
      let s' = record s { scope = scope } in
      if is_blocked verdict then (note_out_of_scope m s', false) else in_scope w m s'

  -- `_on_local_event`, with whether it raises
  unfoldable pub on_local_event : World → Message → Intake → Intake × Bool
  unfolding take_event
  on_local_event w m s =
      let m' = stamped w m in
      if history_dropped cfg w.now m'
      then (s, false)
      else judged w m' s (allows cfg.seat_scope w.now w.provider m'.account m'.role s.scope)
