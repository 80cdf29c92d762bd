-- ===== src/Senders/Order.antt =====
-- What the pool of senders of bridge/agent.py does with its commands: none is lost unless an inline
-- one raises, but a later command of a conversation may be executed first, and one that is executed inline takes no lock.
use mathlib.Core.Option.{some-injective}
use pdd_bridge_agent.Prelude.{
  ℕ, zero, suc, ◌+◌, ◌-◌, ◌≤◌, true, false, ◌&&◌, Option, none, some, List, [], ◌∷◌, ◌++◌, String,
  str_eq, ltb, nat_eq, if◌then◌else◌, length, ◌≡◌, refl, ap, ◌∙◌, arith, eq_refl, if_ind, or_left,
  or_right, sym, subst, some_of,
}
use pdd_bridge_agent.Upload.Batches.{Every, append-Every, Every-map}
use pdd_bridge_agent.Senders.{
  Command, Job, idle, waits, sends, Pool, conversation, worker_count, idle_workers, new_pool, offer,
  sends_in, is_held, replace, job_at, take, taken, lock, locked, end_send, ended, begin_inline,
  begun, end_inline, finished, Move, offers, takes, locks, ends, begins_inline, ends_inline,
  raises_inline, raise_inline, raised_at, left_of, without_poll, step, run, queue_size,
}

abbrev is_command : ℕ → Command → ℕ
is_command h c = if nat_eq c.handle h then 1 else 0

abbrev in_list : ℕ → List Command → ℕ
in_list h [] = 0
in_list h (c ∷ cs) = is_command h c + in_list h cs

abbrev in_job : ℕ → Job → ℕ
in_job h idle = 0
in_job h (waits c) = is_command h c
in_job h (sends c) = is_command h c

abbrev in_jobs : ℕ → List Job → ℕ
in_jobs h [] = 0
in_jobs h (j ∷ js) = in_job h j + in_jobs h js

-- How often a command stands in the pool, in whatever place
abbrev pub total : ℕ → Pool → ℕ
total h p =
    in_list h p.queue
    + in_jobs h p.workers
    + in_jobs h p.inline
    + in_list h p.done
    + in_list h p.lost

-- How often it was offered
abbrev offered_one : ℕ → Move → ℕ
offered_one h (offers enabled c) = is_command h c
offered_one h _ = 0

abbrev pub offered : ℕ → List Move → ℕ
offered h [] = 0
offered h (m ∷ rest) = offered_one h m + offered h rest

list-append : (h : ℕ) (xs ys : List Command) → in_list h (xs ++ ys) ≡ in_list h xs + in_list h ys
list-append h [] ys = omega arith
list-append h (x ∷ xs) ys = omega (arith, list-append h xs ys)

jobs-append : (h : ℕ) (xs ys : List Job) → in_jobs h (xs ++ ys) ≡ in_jobs h xs + in_jobs h ys
jobs-append h [] ys = omega arith
jobs-append h (x ∷ xs) ys = omega (arith, jobs-append h xs ys)

-- The new job counts in the place of the old one.
jobs-replace :
    (h n : ℕ) (old new : Job) (js : List Job)
    → job_at n js ≡ some old
    → in_jobs h (replace n new js) + in_job h old ≡ in_jobs h js + in_job h new
unfolding job_at replace
jobs-replace h n old new [] e = cc
jobs-replace h zero old new (x ∷ js) e =
    let same : x ≡ old = some-injective x old e in rw same (omega arith)
jobs-replace h (suc n) old new (x ∷ js) e = omega (arith, jobs-replace h n old new js e)

taken-total :
    (h n : ℕ) (o : Option Job) (q : List Command) (p : Pool)
    → job_at n p.workers ≡ o
    → p.queue ≡ q
    → total h (taken n o q p) ≡ total h p
taken-total h n none q p e f = refl
taken-total h n (some idle) [] p e f = refl
taken-total h n (some idle) (c ∷ rest) p e f =
    omega (arith, jobs-replace h n idle (waits c) p.workers e, ap (in_list h) f)
taken-total h n (some (waits c)) q p e f = refl
taken-total h n (some (sends c)) q p e f = refl

locked-total :
    (h n : ℕ) (o : Option Job) (p : Pool)
    → job_at n p.workers ≡ o
    → total h (locked n o p) ≡ total h p
locked-total h n none p e = refl
locked-total h n (some idle) p e = refl
locked-total h n (some (sends c)) p e = refl
locked-total h n (some (waits c)) p e =
    if_ind (λ (r : Pool). total h r ≡ total h p) (is_held (conversation c) p.workers) _ _
      (λ held. refl) (λ free. omega (arith, jobs-replace h n (waits c) (sends c) p.workers e))

ended-total :
    (h n : ℕ) (o : Option Job) (p : Pool)
    → job_at n p.workers ≡ o
    → total h (ended n o p) ≡ total h p
ended-total h n none p e = refl
ended-total h n (some idle) p e = refl
ended-total h n (some (waits c)) p e = refl
ended-total h n (some (sends c)) p e = omega (arith, jobs-replace h n (sends c) idle p.workers e)

begun-total :
    (h n : ℕ) (o : Option Job) (p : Pool)
    → job_at n p.inline ≡ o
    → total h (begun n o p) ≡ total h p
begun-total h n none p e = refl
begun-total h n (some idle) p e = refl
begun-total h n (some (sends c)) p e = refl
begun-total h n (some (waits c)) p e =
    omega (arith, jobs-replace h n (waits c) (sends c) p.inline e)

finished-total :
    (h n : ℕ) (o : Option Job) (p : Pool)
    → job_at n p.inline ≡ o
    → total h (finished n o p) ≡ total h p
finished-total h n none p e = refl
finished-total h n (some idle) p e = refl
finished-total h n (some (waits c)) p e = refl
finished-total h n (some (sends c)) p e = omega (arith, jobs-replace h n (sends c) idle p.inline e)

left-total :
    (h k : ℕ) (js : List Job)
    → in_jobs h (without_poll k js) + in_list h (left_of k js) ≡ in_jobs h js
unfolding left_of without_poll
left-total h k [] = omega arith
left-total h k (idle ∷ js) = omega (arith, left-total h k js)
left-total h k (sends c ∷ js) = omega (arith, left-total h k js)
left-total h k (waits c ∷ js) = ground (arith, left-total h k js)

raised-total :
    (h n : ℕ) (o : Option Job) (p : Pool)
    → job_at n p.inline ≡ o
    → total h (raised_at n o p) ≡ total h p
raised-total h n none p e = refl
raised-total h n (some idle) p e = refl
raised-total h n (some (waits c)) p e = refl
raised-total h n (some (sends c)) p e = omega (
  arith,
  jobs-replace h n (sends c) idle p.inline e,
  left-total h c.poll (replace n idle p.inline),
  list-append h (left_of c.poll (replace n idle p.inline)) p.lost,
)

step-total : (h : ℕ) (m : Move) (p : Pool) → total h (step m p) ≡ total h p + offered_one h m
unfolding step offer take lock end_send begin_inline end_inline raise_inline
step-total h (offers enabled c) p =
    if_ind (λ (r : Pool). total h r ≡ total h p + is_command h c)
      (enabled && ltb (length p.queue) queue_size) _ _
      (λ e. omega (arith, list-append h p.queue (c ∷ [])))
      (λ e. omega (arith, jobs-append h p.inline (waits c ∷ [])))
step-total h (takes n) p = omega (arith, taken-total h n (job_at n p.workers) p.queue p refl refl)
step-total h (locks n) p = omega (arith, locked-total h n (job_at n p.workers) p refl)
step-total h (ends n) p = omega (arith, ended-total h n (job_at n p.workers) p refl)
step-total h (begins_inline n) p = omega (arith, begun-total h n (job_at n p.inline) p refl)
step-total h (ends_inline n) p = omega (arith, finished-total h n (job_at n p.inline) p refl)
step-total h (raises_inline n) p = omega (arith, raised-total h n (job_at n p.inline) p refl)

run-total :
    (h : ℕ) (moves : List Move) (p : Pool) → total h (run moves p) ≡ total h p + offered h moves
unfolding run
run-total h [] p = omega arith
run-total h (m ∷ rest) p = omega (arith, run-total h rest (step m p), step-total h m p)

in_jobs-idle : (h n : ℕ) → in_jobs h (idle_workers n) ≡ 0
unfolding idle_workers
in_jobs-idle h zero = refl
in_jobs-idle h (suc n) = omega (arith, in_jobs-idle h n)

-- An inline command of the same call has raised.
abbrev pub IsBehind : List Command → Command → Type 0
IsBehind raised c = some_of (λ (r : Command). nat_eq r.poll c.poll) raised ≡ true

abbrev AllBehind : Pool → Type 0
AllBehind p = Every (IsBehind p.raised) p.lost

left_of-IsBehind :
    (r : Command) (raised : List Command) (js : List Job)
    → Every (IsBehind (r ∷ raised)) (left_of r.poll js)
unfolding left_of
left_of-IsBehind r raised [] = tt
left_of-IsBehind r raised (idle ∷ js) = left_of-IsBehind r raised js
left_of-IsBehind r raised (sends c ∷ js) = left_of-IsBehind r raised js
left_of-IsBehind r raised (waits c ∷ js) =
    if_ind (λ (l : List Command). Every (IsBehind (r ∷ raised)) l) (nat_eq c.poll r.poll) _ _
      (λ e. (or_left (nat_eq r.poll c.poll) _ (ground (arith, e)), left_of-IsBehind r raised js))
      (λ e. left_of-IsBehind r raised js)

raised-behind : (n : ℕ) (o : Option Job) (p : Pool) → AllBehind p → AllBehind (raised_at n o p)
raised-behind n none p h = h
raised-behind n (some idle) p h = h
raised-behind n (some (waits c)) p h = h
raised-behind n (some (sends c)) p h =
    append-Every (IsBehind (c ∷ p.raised)) (left_of c.poll (replace n idle p.inline)) p.lost
      (left_of-IsBehind c p.raised (replace n idle p.inline))
      (Every-map (IsBehind p.raised) (IsBehind (c ∷ p.raised)) p.lost
        (λ x b. or_right (nat_eq c.poll x.poll) _ b) h)

-- The moves that leave both records as they are
abbrev SameLost : Pool → Pool → Type 0
SameLost p q = (q.raised ≡ p.raised) × (q.lost ≡ p.lost)

same-behind : (p q : Pool) → SameLost p q → AllBehind p → AllBehind q
same-behind p q (r, l) h =
    subst (λ (x : List Command). Every (IsBehind q.raised) x) (sym l)
      (subst (λ (x : List Command). Every (IsBehind x) p.lost) (sym r) h)

taken-lost : (n : ℕ) (o : Option Job) (q : List Command) (p : Pool) → SameLost p (taken n o q p)
taken-lost n none q p = (refl, refl)
taken-lost n (some idle) [] p = (refl, refl)
taken-lost n (some idle) (c ∷ rest) p = (refl, refl)
taken-lost n (some (waits c)) q p = (refl, refl)
taken-lost n (some (sends c)) q p = (refl, refl)

locked-lost : (n : ℕ) (o : Option Job) (p : Pool) → SameLost p (locked n o p)
locked-lost n none p = (refl, refl)
locked-lost n (some idle) p = (refl, refl)
locked-lost n (some (sends c)) p = (refl, refl)
locked-lost n (some (waits c)) p =
    if_ind (SameLost p) (is_held (conversation c) p.workers) _ _ (λ e. (refl, refl))
      (λ e. (refl, refl))

ended-lost : (n : ℕ) (o : Option Job) (p : Pool) → SameLost p (ended n o p)
ended-lost n none p = (refl, refl)
ended-lost n (some idle) p = (refl, refl)
ended-lost n (some (waits c)) p = (refl, refl)
ended-lost n (some (sends c)) p = (refl, refl)

begun-lost : (n : ℕ) (o : Option Job) (p : Pool) → SameLost p (begun n o p)
begun-lost n none p = (refl, refl)
begun-lost n (some idle) p = (refl, refl)
begun-lost n (some (waits c)) p = (refl, refl)
begun-lost n (some (sends c)) p = (refl, refl)

finished-lost : (n : ℕ) (o : Option Job) (p : Pool) → SameLost p (finished n o p)
finished-lost n none p = (refl, refl)
finished-lost n (some idle) p = (refl, refl)
finished-lost n (some (waits c)) p = (refl, refl)
finished-lost n (some (sends c)) p = (refl, refl)

step-behind : (m : Move) (p : Pool) → AllBehind p → AllBehind (step m p)
unfolding step offer take lock end_send begin_inline end_inline raise_inline
step-behind (offers enabled c) p h =
    if_ind AllBehind (enabled && ltb (length p.queue) queue_size) _ _ (λ e. h) (λ e. h)
step-behind (takes n) p h =
    same-behind p (taken n (job_at n p.workers) p.queue p)
      (taken-lost n (job_at n p.workers) p.queue p) h
step-behind (locks n) p h =
    same-behind p (locked n (job_at n p.workers) p) (locked-lost n (job_at n p.workers) p) h
step-behind (ends n) p h =
    same-behind p (ended n (job_at n p.workers) p) (ended-lost n (job_at n p.workers) p) h
step-behind (begins_inline n) p h =
    same-behind p (begun n (job_at n p.inline) p) (begun-lost n (job_at n p.inline) p) h
step-behind (ends_inline n) p h =
    same-behind p (finished n (job_at n p.inline) p) (finished-lost n (job_at n p.inline) p) h
step-behind (raises_inline n) p h = raised-behind n (job_at n p.inline) p h

run-behind : (moves : List Move) (p : Pool) → AllBehind p → AllBehind (run moves p)
unfolding run
run-behind [] p h = h
run-behind (m ∷ rest) p h = run-behind rest (step m p) (step-behind m p h)

-- However the threads interleave, each command that was offered is at any time in the queue, with a worker,
-- with a thread that executes inline, done, or lost, as often as it was offered; and one is lost only if an
-- inline command that came with the same call of `_handle_commands` has raised.
pub no_command_lost :
    (h configured : ℕ) (moves : List Move)
    → let p = run moves (new_pool configured) in
      (total h p ≡ offered h moves) × Every (IsBehind p.raised) p.lost
unfolding new_pool
no_command_lost h configured moves = (
  omega (arith, run-total h moves (new_pool configured), in_jobs-idle h (worker_count configured)),
  run-behind moves (new_pool configured) tt,
)

held-idle : (k : String) (n : ℕ) → is_held k (idle_workers n) ≡ false
unfolding idle_workers
held-idle k zero = refl
held-idle k (suc n) = held-idle k n

-- Two commands are offered, each is taken by a worker, and the second worker is first at its lock.
abbrev pub late_first : Command → Command → List Move
late_first first second =
    offers true first ∷ offers true second ∷ takes 0 ∷ takes 1 ∷ locks 1 ∷ ends 1 ∷ locks 0 ∷ []

abbrev pool_of : ℕ → Pool
pool_of n = record {
  queue = [];
  workers = idle_workers n;
  inline = [];
  started = [];
  done = [];
  raised = [];
  lost = [];
}

flips_with :
    (n : ℕ) (first second : Command)
    → (run (late_first first second) (pool_of (suc (suc n)))).started ≡ second ∷ first ∷ []
unfolding run step offer take lock end_send replace job_at idle_workers
flips_with n first second =
    rw (held-idle (conversation second) n, held-idle (conversation first) n) refl

job_at_end : (j : Job) (js : List Job) → job_at (length js) (js ++ j ∷ []) ≡ some j
unfolding job_at
job_at_end j [] = refl
job_at_end j (x ∷ xs) = job_at_end j xs

-- The last one is executed.
sends_last :
    (c : Command) (js : List Job)
    → is_held (conversation c) (replace (length js) (sends c) (js ++ waits c ∷ [])) ≡ true
unfolding replace
sends_last c [] = or_left (str_eq (conversation c) (conversation c)) _ (eq_refl (conversation c))
sends_last c (x ∷ xs) = or_right (sends_in (conversation c) x) _ (sends_last c xs)

-- With two workers or more, a run of a new pool executes two commands that were offered one after the
-- other, of one conversation or of two, in the other order.
pub order_flips :
    (configured : ℕ) (first second : Command)
    → 2 ≤ worker_count configured
    → (run (late_first first second) (new_pool configured)).started ≡ second ∷ first ∷ []
unfolding new_pool
order_flips configured first second more =
    let n : worker_count configured ≡ suc (suc (worker_count configured - 2)) = omega arith in
    ap (λ (k : ℕ). (run (late_first first second) (pool_of k)).started) n
    ∙ flips_with (worker_count configured - 2) first second

-- A command that is offered while the queue is full is executed inline at the same time as a worker executes
-- another one of its conversation.
pub saturated_overlaps :
    (c : Command) (p : Pool)
    → queue_size ≤ length p.queue
    → is_held (conversation c) p.workers ≡ true
    → let p' = run (offers true c ∷ begins_inline (length p.inline) ∷ []) p in
      (is_held (conversation c) p'.workers ≡ true) × (is_held (conversation c) p'.inline ≡ true)
unfolding run step offer begin_inline
saturated_overlaps c p full held =
    let no_room : ltb (length p.queue) queue_size ≡ false = ground (arith, full) in
    let last = job_at_end (waits c) p.inline in rw (no_room, last) (held, sends_last c p.inline)
