-- ===== src/Lib.antt =====
-- PddBridgeAgent: the bridge between a seller's customer service client on a Windows seat and a
-- center, which answers buyers. The agent (bridge/agent.py) pulls commands of the center, claims
-- each and notes it in a journal (bridge/command_journal.py) before it executes it, and reports the results;
-- it uploads the messages that it captures, with the times of bridge/message_timing.py, if their seats are
-- this machine's (bridge/seat_scope.py). The hub
-- (bridge/hub_state.py) is the center's side of it: it knows tokens and agents, and keeps a queue
-- of commands for each agent. Seats have names of several spellings (bridge/parser.py). The
-- ledger (bridge/ledger.py) notes what became of each message; reconcile.py gives an account of it, and
-- requeue.py sends dead letters again.
--
-- Prelude, Text, Dict and Json hold what the modules share: tests on numbers and texts, Python's
-- `strip` and `or`, dicts with text keys, and JSON values.
--
-- Journal is bridge/command_journal.py: `open_journal` is `__init__` with `_load`, `persist` is
-- `_persist_locked`, and `start`, `store_result`, `get`, `pending_results`, `remove` and
-- `pending_count` are the methods of those names. A flag says whether a write succeeds; the file is
-- replaced in one step, so that a failed write leaves the old one. Journal.Invariants runs sequences
-- of calls and crashes.
--
-- Commands is the command channel of bridge/agent.py. `_execute_command` is five steps, because
-- other workers and crashes come between its parts, each with a lock of its own: Commands.Admission has `receive`
-- (up to `_claim_command`), `look_up` (the journal's `get`) and `start_command` (its `start`), Commands.Dispatch with
-- Commands.Verdicts the branches by type, with the send, and Commands.Conclusion journals and queues the result.
-- `KeepsClaims` says of a run that no cut of the claimed set drops an id. Commands.Steps has the report thread
-- and `_send_command_result`, and interleaves all of them with restarts in any order. The platform,
-- the center's answers, the clock, and the elements that `list(s)[-n:]` keeps of a set `s` are
-- parameters of each step. Effects are noted in the order in which they reach the world. The loop over
-- the queue of reports needs no fuel: a step is one turn.
--
-- Timing is bridge/message_timing.py, in milliseconds, with `_command_expired` of bridge/agent.py as
-- `takeover_expired`. The tolerance for times ahead of the clock and the age of a parent, which the environment
-- may set, are arguments, and fields of what a step or a call meets. `Stamp` is what `float` or
-- `datetime.fromisoformat` makes of a value.
--
-- Hub.Tokens is `configure_tokens`, `auth` and `resolve_agent_id` of bridge/hub_state.py, with SHA-256
-- as the parameter `digest`; Hub.Queue is the presence, the events and the command queues of the hub
-- without a command store. Hub.Delivery states what the queues promise against `outstanding`, the
-- commands that an agent is still to get.
--
-- Upload is `_flush_events` of bridge/agent.py: `begin_flush` chooses the batch, and `end_flush` is what
-- the center's answer does to the queue, which others may have changed meanwhile. An event has a
-- `handle` for the identity of its object.
--
-- Ingest is `_cross_source_duplicate` of bridge/agent.py with `_ingest_identity`, `_ingest_release` and
-- `_prune_ingest_seen`: a message that two sources report is taken in once.
--
-- Intake is how `_on_local_event` of bridge/agent.py takes in a message: Intake has the data and
-- `_ensure_event_id`, Intake.Outgoing is `_merge_outgoing_duplicate`, and Intake.Local the rest, with
-- `append_event` of bridge/event_queue.py as an append that succeeds or changes nothing. It calls
-- Timing, Seats.Scope and Ingest as the code does. Intake.Queue runs it against flushes, of which
-- `settle` is the effect on the queue.
--
-- Senders is the pool of sender threads of bridge/agent.py: `offer` is a turn of the loop of
-- `_handle_commands`, `take`, `lock` and `end_send` are the parts of `_sender_worker_loop`, and
-- `begin_inline`, `end_inline` and `raise_inline` the execution in the thread that pulls; a run is any
-- sequence of these moves. Senders.Shops is `_account_shop_id` and `_command_sender_enabled`, Senders.SentBy is
-- `_classify_sent_by`, for which the ratio of `SequenceMatcher` is a parameter.
--
-- Center is bridge/center_ws.py: `send_events` is `begin_send` and `finish_send`, since acks and other
-- threads come between them, and Center.Answers interleaves them with `on_ack`, `on_result` and
-- `drain_results`. Center.Link has the address, `session` for `_session` from what the socket brings, and
-- `turn` for a turn of the loop of `_run`. Center.Acks joins its rows to the flush of Upload.
--
-- Seats.Account is `_canonical_account` of a text and `seat_key`; Seats.Scope is `SeatScope` of
-- bridge/seat_scope.py with `refresh` and `allows`.
--
-- Watcher is how bridge/watcher.py reads a log file: `read_new` is `_read_new` on the chunks that the file
-- gives it, and `checkpoint` the position that `_save_checkpoints` writes; `pump` is `_pump` of
-- bridge/pdd_recv.py, with `parse_recv_line`. The codecs of `_decode_line` are a parameter. Watcher.Buffer is the
-- buffer of parsed messages, with `_queue_message` and `_flush_pending`; whether the callback returns for a
-- message is a parameter. `delivered` and `dropped` only record what a flush does.
--
-- Cdp is how bridge/pddbridge_source.py sends: `submit` and `end_wait` are the two parts of `send_and_wait`,
-- and `_do_send` is four moves, since other threads come while it waits: `perform` up to the question to the page,
-- `page_tells` with the second test, `direct_returns` and `finish_send`. `handle_send_receipt` and `session_for_send`
-- are the methods of those names. Cdp.Dedup is `_seen_before` and `_prune_dedup`. Cdp.Rounds is `_pump_round`, whose loop takes as many turns as there are pages.
--
-- Ledger is `summarize` of bridge/ledger.py, with `reached_brain` and the figures of `verdict` of
-- reconcile.py. Requeue is `select_rows`, `requeue` and the rewriting of the file of dead letters of
-- requeue.py; its chunks take as much fuel as there are rows, and each takes one row at least.
--
-- Not modelled: log lines, locks (what one lock guards is one step), the command store's branches
-- of the hub, Windows automation, sockets, HTTP, the user interfaces, and the parsers of log files.
pub mod Prelude
pub mod Text
pub mod Dict
pub mod Json
pub mod Journal
pub mod Timing
pub mod Center
pub mod Commands
pub mod Senders
pub mod Hub
pub mod Seats
pub mod Ingest
pub mod Watcher
pub mod Cdp
pub mod Intake
pub mod Upload
pub mod Ledger
pub mod Requeue
pub mod Tests
