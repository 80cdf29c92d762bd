-- ===== src/Senders.antt =====
-- The pool of sender threads of bridge/agent.py: the queue that `_handle_commands` fills, the workers of
-- `_sender_worker_loop` with their locks for each conversation, and the commands that are executed inline.
pub mod Locks
pub mod Order
pub mod Shops
pub mod SentBy
use pdd_bridge_agent.Prelude.{
  ℕ, zero, suc, ◌+◌, min, max, Bool, true, false, not, ◌&&◌, Option, none, some, List, [], ◌∷◌,
  ◌++◌, String, str_eq, ltb, nat_eq, if◌then◌else◌, length, some_of,
}
use pdd_bridge_agent.Text.{strip, append}

-- `handle` tells the commands apart, `poll` the calls of `_handle_commands` that they came with.
pub record Command : Type 0 where
  pub handle : ℕ
  pub poll : ℕ
  pub account : String
  pub buyer_id : String

-- The key of `_sender_conversation_lock`
unfoldable pub conversation : Command → String
unfolding strip append
conversation c = append (strip c.account) (append "|" (strip c.buyer_id))

-- A thread: it has nothing to do, it has taken a command and waits for its lock, or it executes one.
pub data Job : Type 0 where
  idle : Job
  waits : Command → Job
  sends : Command → Job

-- The queue, the workers, the threads that execute inline, and the commands that are done; `started` has
-- those whose execution has begun, in that order; `raised` those whose inline execution raised, and `lost` those
-- that were then never executed.
pub record Pool : Type 0 where
  pub queue : List Command
  pub workers : List Job
  pub inline : List Job
  pub started : List Command
  pub done : List Command
  pub raised : List Command
  pub lost : List Command

abbrev pub queue_size : ℕ
queue_size = 64

-- `workers` of `_start_sender_pool`, of a configured number that is not negative
abbrev pub worker_count : ℕ → ℕ
worker_count configured = max 1 (min (if nat_eq configured 0 then 6 else configured) 8)

unfoldable pub idle_workers : ℕ → List Job
idle_workers zero = []
idle_workers (suc n) = idle ∷ idle_workers n

-- `_start_sender_pool`
unfoldable pub new_pool : ℕ → Pool
unfolding idle_workers
new_pool configured = record {
  queue = [];
  workers = idle_workers (worker_count configured);
  inline = [];
  started = [];
  done = [];
  raised = [];
  lost = [];
}

-- One command of the loop of `_handle_commands`: to the queue if the shop uses the pool and there is room,
-- and otherwise to be executed inline
unfoldable pub offer : Bool → Command → Pool → Pool
offer enabled c p =
    if enabled && ltb (length p.queue) queue_size
    then record p { queue = p.queue ++ c ∷ [] }
    else record p { inline = p.inline ++ waits c ∷ [] }

abbrev pub sends_in : String → Job → Bool
sends_in k (sends c) = str_eq (conversation c) k
sends_in k _ = false

-- The lock of the conversation is held.
abbrev pub is_held : String → List Job → Bool
is_held k = some_of (sends_in k)

-- A job with its place among the others
unfoldable pub replace : ℕ → Job → List Job → List Job
replace n j [] = []
replace zero j (x ∷ xs) = j ∷ xs
replace (suc n) j (x ∷ xs) = x ∷ replace n j xs

unfoldable pub job_at : ℕ → List Job → Option Job
job_at n [] = none
job_at zero (x ∷ xs) = some x
job_at (suc n) (x ∷ xs) = job_at n xs

abbrev taken : ℕ → Option Job → List Command → Pool → Pool
taken n (some idle) (c ∷ rest) p = record p {
  queue = rest;
  workers = replace n (waits c) p.workers;
}
taken n _ _ p = p

-- `self._sender_queue.get`
unfoldable pub take : ℕ → Pool → Pool
unfolding replace job_at
take n p = taken n (job_at n p.workers) p.queue p

abbrev locked : ℕ → Option Job → Pool → Pool
locked n (some (waits c)) p =
    if is_held (conversation c) p.workers
    then p
    else record p { workers = replace n (sends c) p.workers; started = p.started ++ c ∷ [] }
locked n _ p = p

-- The worker gets the lock of the conversation and begins `_execute_command`.
unfoldable pub lock : ℕ → Pool → Pool
unfolding replace job_at conversation
lock n p = locked n (job_at n p.workers) p

abbrev ended : ℕ → Option Job → Pool → Pool
ended n (some (sends c)) p = record p { workers = replace n idle p.workers; done = c ∷ p.done }
ended n _ p = p

-- `_execute_command` ends in a worker, by an exception also, and the lock is free.
unfoldable pub end_send : ℕ → Pool → Pool
unfolding replace job_at
end_send n p = ended n (job_at n p.workers) p

abbrev begun : ℕ → Option Job → Pool → Pool
begun n (some (waits c)) p = record p {
  inline = replace n (sends c) p.inline;
  started = p.started ++ c ∷ [];
}
begun n _ p = p

-- The thread that pulls executes a command inline, with no lock.
unfoldable pub begin_inline : ℕ → Pool → Pool
unfolding replace job_at
begin_inline n p = begun n (job_at n p.inline) p

abbrev finished : ℕ → Option Job → Pool → Pool
finished n (some (sends c)) p = record p { inline = replace n idle p.inline; done = c ∷ p.done }
finished n _ p = p

unfoldable pub end_inline : ℕ → Pool → Pool
unfolding replace job_at
end_inline n p = finished n (job_at n p.inline) p

-- The commands of a call that still wait to be executed inline, and the threads without them
abbrev pub is_of_poll : ℕ → Job → Bool
is_of_poll k (waits c) = nat_eq c.poll k
is_of_poll k _ = false

abbrev pub command_of : Job → List Command
command_of (waits c) = c ∷ []
command_of _ = []

unfoldable pub left_of : ℕ → List Job → List Command
left_of k [] = []
left_of k (j ∷ js) =
    let rest = left_of k js in if is_of_poll k j then command_of j ++ rest else rest

unfoldable pub without_poll : ℕ → List Job → List Job
without_poll k [] = []
without_poll k (j ∷ js) = (if is_of_poll k j then idle else j) ∷ without_poll k js

abbrev pub raised_at : ℕ → Option Job → Pool → Pool
raised_at n (some (sends c)) p = record p {
  inline = without_poll c.poll (replace n idle p.inline);
  done = c ∷ p.done;
  raised = c ∷ p.raised;
  lost = left_of c.poll (replace n idle p.inline) ++ p.lost;
}
raised_at n _ p = p

-- `_execute_command` raises inline: it leaves the loop over the inline commands of its call, and the others of that
-- call are not executed.
unfoldable pub raise_inline : ℕ → Pool → Pool
unfolding replace job_at left_of without_poll
raise_inline n p = raised_at n (job_at n p.inline) p

-- The moves of the threads; the number is the thread's.
pub data Move : Type 0 where
  offers : Bool → Command → Move
  takes locks ends begins_inline ends_inline raises_inline : ℕ → Move

unfoldable pub step : Move → Pool → Pool
unfolding offer take lock end_send begin_inline end_inline raise_inline
step (offers enabled c) p = offer enabled c p
step (takes n) p = take n p
step (locks n) p = lock n p
step (ends n) p = end_send n p
step (begins_inline n) p = begin_inline n p
step (ends_inline n) p = end_inline n p
step (raises_inline n) p = raise_inline n p

unfoldable pub run : List Move → Pool → Pool
unfolding step
run [] p = p
run (m ∷ rest) p = run rest (step m p)
