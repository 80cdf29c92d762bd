-- ===== src/Senders/Locks.antt =====
-- What the pool of senders of bridge/agent.py keeps to: one worker for each conversation.
use pdd_bridge_agent.Prelude.{
  ℕ, zero, suc, ◌+◌, ◌≤◌, false, ◌&&◌, Option, none, some, List, [], ◌∷◌, String, str_eq, ltb,
  if◌then◌else◌, length, ◌≡◌, inl, inr, refl, sym, ap, ◌∙◌, arith, eq_iff, Bool-cases, if_ind,
}
use pdd_bridge_agent.Senders.{
  Command, Job, idle, waits, sends, Pool, conversation, worker_count, idle_workers, new_pool, offer,
  sends_in, is_held, replace, job_at, take, taken, lock, locked, end_send, ended, begin_inline,
  begun, end_inline, finished, Move, offers, takes, locks, ends, begins_inline, ends_inline,
  raises_inline, raise_inline, raised_at, step, run, queue_size,
}

-- How many of the workers execute a command of the conversation
abbrev pub sending : String → List Job → ℕ
sending k [] = 0
sending k (j ∷ js) = (if sends_in k j then 1 else 0) + sending k js

not_held : (k : String) (js : List Job) → is_held k js ≡ false → sending k js ≡ 0
not_held k [] h = refl
not_held k (j ∷ js) h = ground (arith, not_held k js)

-- A worker that does not execute is replaced.
sending-replace :
    (k : String) (n : ℕ) (j : Job) (js : List Job)
    → sending k (replace n j js) ≤ sending k js + (if sends_in k j then 1 else 0)
unfolding replace
sending-replace k n j [] = omega arith
sending-replace k zero j (x ∷ js) = omega arith
sending-replace k (suc n) j (x ∷ js) = omega (arith, sending-replace k n j js)

sending-idle : (k : String) (n : ℕ) → sending k (idle_workers n) ≡ 0
unfolding idle_workers
sending-idle k zero = refl
sending-idle k (suc n) = omega (arith, sending-idle k n)

abbrev pub IsExclusive : Pool → Type 0
IsExclusive p = (k : String) → sending k p.workers ≤ 1

taken-IsExclusive :
    (n : ℕ) (j : Option Job) (q : List Command) (p : Pool)
    → IsExclusive p
    → IsExclusive (taken n j q p)
taken-IsExclusive n none q p h = h
taken-IsExclusive n (some idle) [] p h = h
taken-IsExclusive n (some idle) (c ∷ rest) p h =
    λ k. omega (arith, sending-replace k n (waits c) p.workers, h k)
taken-IsExclusive n (some (waits c)) q p h = h
taken-IsExclusive n (some (sends c)) q p h = h

locked-IsExclusive :
    (n : ℕ) (j : Option Job) (p : Pool) → IsExclusive p → IsExclusive (locked n j p)
locked-IsExclusive n none p h = h
locked-IsExclusive n (some idle) p h = h
locked-IsExclusive n (some (sends c)) p h = h
locked-IsExclusive n (some (waits c)) p h =
    if_ind IsExclusive (is_held (conversation c) p.workers) _ _ (λ e. h)
      (λ free k. elim (Bool-cases (str_eq (conversation c) k)) [
        | inl same ↦
            let none : sending k p.workers ≡ 0 =
              ap (λ (i : String). sending i p.workers) (sym ((eq_iff (conversation c) k).0 same))
              ∙ not_held (conversation c) p.workers free in
            ground (arith, sending-replace k n (sends c) p.workers, none, same)
        | inr other ↦ ground (arith, sending-replace k n (sends c) p.workers, h k, other)
      ])

ended-IsExclusive : (n : ℕ) (j : Option Job) (p : Pool) → IsExclusive p → IsExclusive (ended n j p)
ended-IsExclusive n none p h = h
ended-IsExclusive n (some idle) p h = h
ended-IsExclusive n (some (waits c)) p h = h
ended-IsExclusive n (some (sends c)) p h =
    λ k. omega (arith, sending-replace k n idle p.workers, h k)

begun-workers : (n : ℕ) (j : Option Job) (p : Pool) → (begun n j p).workers ≡ p.workers
begun-workers n none p = refl
begun-workers n (some idle) p = refl
begun-workers n (some (waits c)) p = refl
begun-workers n (some (sends c)) p = refl

finished-workers : (n : ℕ) (j : Option Job) (p : Pool) → (finished n j p).workers ≡ p.workers
finished-workers n none p = refl
finished-workers n (some idle) p = refl
finished-workers n (some (waits c)) p = refl
finished-workers n (some (sends c)) p = refl

raised-workers : (n : ℕ) (j : Option Job) (p : Pool) → (raised_at n j p).workers ≡ p.workers
raised-workers n none p = refl
raised-workers n (some idle) p = refl
raised-workers n (some (waits c)) p = refl
raised-workers n (some (sends c)) p = refl

step-IsExclusive : (m : Move) (p : Pool) → IsExclusive p → IsExclusive (step m p)
unfolding step offer take lock end_send begin_inline end_inline raise_inline
step-IsExclusive (offers enabled c) p h =
    if_ind IsExclusive (enabled && ltb (length p.queue) queue_size) _ _ (λ e. h) (λ e. h)
step-IsExclusive (takes n) p h = taken-IsExclusive n (job_at n p.workers) p.queue p h
step-IsExclusive (locks n) p h = locked-IsExclusive n (job_at n p.workers) p h
step-IsExclusive (ends n) p h = ended-IsExclusive n (job_at n p.workers) p h
step-IsExclusive (begins_inline n) p h = λ k. rw (begun-workers n (job_at n p.inline) p) (h k)
step-IsExclusive (ends_inline n) p h = λ k. rw (finished-workers n (job_at n p.inline) p) (h k)
step-IsExclusive (raises_inline n) p h = λ k. rw (raised-workers n (job_at n p.inline) p) (h k)

run-IsExclusive : (moves : List Move) (p : Pool) → IsExclusive p → IsExclusive (run moves p)
unfolding run
run-IsExclusive [] p h = h
run-IsExclusive (m ∷ rest) p h = run-IsExclusive rest (step m p) (step-IsExclusive m p h)

-- However the threads interleave, at most one worker at a time executes a command of a conversation.
pub one_worker_each :
    (configured : ℕ) (moves : List Move) → IsExclusive (run moves (new_pool configured))
unfolding new_pool
one_worker_each configured moves =
    run-IsExclusive moves (new_pool configured)
      (λ k. omega (arith, sending-idle k (worker_count configured)))
