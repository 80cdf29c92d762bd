-- ===== src/Intake/Queue.antt =====
-- The queue of bridge/agent.py over any sequence of messages that come in and of flushes: no event stands
-- in it twice, its set of ids is exact, and all of it is in its file.
use pdd_bridge_agent.Prelude.{
  ℕ, ◌+◌, ◌≤◌, Bool, true, false, not, ◌||◌, List, [], ◌∷◌, ◌++◌, String, Char, str_eq, ltb,
  if◌then◌else◌, keep, length, member, ◌≡◌, inl, inr, refl, sym, ap, ◌∙◌, arith, eq_iff, Bool-cases,
  if_ind,
}
use pdd_bridge_agent.Text.{is_blank}
use pdd_bridge_agent.Seats.Scope
use pdd_bridge_agent.Seats.Scope.{allows}
use pdd_bridge_agent.Ingest
use pdd_bridge_agent.Ingest.{cross_source_duplicate}
use pdd_bridge_agent.Intake.{Message, Event, Intake}
use pdd_bridge_agent.Intake.Outgoing.{
  Found, nothing, covered, superseded, scan, is_merged, within, merge_found,
  merge_outgoing_duplicate, has_event, without_event, ids_of,
}
use pdd_bridge_agent.Intake.Local.{
  Settings, World, on_local_event, take_event, after_cross, after_merge, enqueue, note_account,
  note_out_of_scope, history_dropped, stamped, is_blocked, judged, appended, rewrite_if,
  ingest_message,
}

-- How often an id stands in a queue
abbrev pub count : String → List Event → ℕ
count id es = length (keep (λ e. str_eq e.event_id id) es)

count-append : (id : String) (xs ys : List Event) → count id (xs ++ ys) ≡ count id xs + count id ys
count-append id [] ys = omega arith
count-append id (x ∷ xs) ys = ground (arith, count-append id xs ys)

count-keep : (id : String) (p : Event → Bool) (xs : List Event) → count id (keep p xs) ≤ count id xs
count-keep id p [] = omega arith
count-keep id p (x ∷ xs) = ground (arith, count-keep id p xs)

count-split :
    (id : String) (p : Event → Bool) (xs : List Event)
    → count id (keep (λ e. not (p e)) xs) + count id (keep p xs) ≡ count id xs
count-split id p [] = omega arith
count-split id p (x ∷ xs) = ground (arith, count-split id p xs)

member-ids : (id : String) (es : List Event) → member id (ids_of es) ≡ ltb 0 (count id es)
member-ids id [] = refl
member-ids id (e ∷ es) = ground (arith, member-ids id es)

-- What a flush does to the queue: the events that are done leave it, those that were attempted go to its
-- end, and the file is written anew, if that succeeds.
unfoldable pub settle : (Event → Bool) → (Event → Bool) → Bool → Intake → Intake
settle done attempted rewrites s =
    let left = keep (λ e. not (done e)) s.pending in
    let pending = keep (λ e. not (attempted e)) left ++ keep attempted left in
    record s {
      pending = pending;
      pending_ids = ids_of pending;
      queue_file = if rewrites then pending else s.queue_file;
    }

pub data Step : Type 0 where
  arrives : World → Message → Step
  settles : (Event → Bool) → (Event → Bool) → Bool → Step

-- Each id at most once in the queue, and in its set exactly if it is in the queue; and the file has it at
-- least as often.
abbrev pub IsExact : Intake → Type 0
IsExact s =
    (id : String)
    → (count id s.pending ≤ 1)
      × (member id s.pending_ids ≡ ltb 0 (count id s.pending))
      × (count id s.pending ≤ count id s.queue_file)

settle-IsExact :
    (done attempted : Event → Bool) (rewrites : Bool) (s : Intake)
    → IsExact s
    → IsExact (settle done attempted rewrites s)
unfolding settle
settle-IsExact done attempted rewrites s h id =
    let left = keep (λ e. not (done e)) s.pending in
    let pending = keep (λ e. not (attempted e)) left ++ keep attempted left in
    let same =
      count-append id (keep (λ e. not (attempted e)) left) (keep attempted left)
      ∙ count-split id attempted left in
    let fewer = count-keep id (λ e. not (done e)) s.pending in
    (
      omega (arith, same, fewer, (h id).0),
      member-ids id pending,
      if_ind (λ (f : List Event). count id pending ≤ count id f) rewrites pending s.queue_file
          (λ e. omega arith) (λ e. omega (arith, same, fewer, (h id).2)),
    )

-- The state is exact, and its queue has no id more often than the other one's.
abbrev ExactUnder : Intake → Intake × Bool → Type 0
ExactUnder s r = IsExact r.0 × ((id : String) → count id r.0.pending ≤ count id s.pending)

found-ExactUnder :
    (is_digit : Char → Bool) (now : ℕ) (e : Event) (f : Found) (s : Intake)
    → IsExact s
    → ExactUnder s (merge_found is_digit now e f s)
unfolding merge_found
found-ExactUnder d now e nothing s h = (h, λ id. omega arith)
found-ExactUnder d now e (covered item) s h = (h, λ id. omega arith)
found-ExactUnder d now e (superseded item) s h =
    if_ind (ExactUnder s) (has_event item.event_id s.pending) _ _
      (λ there. (
        (λ id.
            let fewer = count-keep id (λ x. not (str_eq x.event_id item.event_id)) s.pending in
            (
              omega (arith, fewer, (h id).0),
              member-ids id (without_event item.event_id s.pending),
              omega (arith, fewer, (h id).2),
            )),
        (λ id. count-keep id (λ x. not (str_eq x.event_id item.event_id)) s.pending),
      ))
      (λ gone. (h, λ id. omega arith))

merge-ExactUnder :
    (is_digit : Char → Bool) (window now : ℕ) (e : Event) (s : Intake)
    → IsExact s
    → ExactUnder s (merge_outgoing_duplicate is_digit window now e s)
unfolding merge_outgoing_duplicate
merge-ExactUnder d window now e s h =
    let recent = within window now s.recent_outgoing in
    if_ind (ExactUnder s) (is_merged d e) _ _
      (λ m. found-ExactUnder d now e (scan d e recent) (record s { recent_outgoing = recent }) h)
      (λ m. (h, λ id. omega arith))

count-one : (id : String) (e : Event) → count id (e ∷ []) ≡ (if str_eq e.event_id id then 1 else 0)
count-one id e = ground arith

appended-IsExact :
    (e : Event) (s : Intake) → IsExact s → count e.event_id s.pending ≡ 0 → IsExact (appended e s)
appended-IsExact e s h new id =
    let p = count-append id s.pending (e ∷ []) in
    let f = count-append id s.queue_file (e ∷ []) in
    let one = count-one id e in
    elim (Bool-cases (str_eq e.event_id id)) [
      | inl same ↦
          let none : count id s.pending ≡ 0 =
            ap (λ (i : String). count i s.pending) (sym ((eq_iff e.event_id id).0 same)) ∙ new in
          let once : count id (e ∷ []) ≡ 1 = one ∙ ap (λ t. if t then 1 else 0) same in
          let size : count id (s.pending ++ e ∷ []) ≡ 1 = omega (arith, p, none, once) in
          (
            omega (arith, size),
            ap (λ t. t || member id s.pending_ids) same ∙ sym (ap (ltb 0) size),
            omega (arith, p, f, once, (h id).2),
          )
      | inr other ↦
          let once : count id (e ∷ []) ≡ 0 = one ∙ ap (λ t. if t then 1 else 0) other in
          let size : count id (s.pending ++ e ∷ []) ≡ count id s.pending = omega (arith, p, once) in
          (
            omega (arith, size, (h id).0),
            ap (λ t. t || member id s.pending_ids) other ∙ (h id).1 ∙ sym (ap (ltb 0) size),
            omega (arith, p, f, once, (h id).2),
          )
    ]

rewrite-IsExact : (w : World) (s : Intake) → IsExact s → IsExact (rewrite_if w s)
rewrite-IsExact w s h =
    if_ind IsExact s.outgoing_superseded _ _
      (λ e id. (
        (h id).0,
        (h id).1,
        if_ind (λ (f : List Event). count id s.pending ≤ count id f) w.rewrites s.pending
            s.queue_file (λ e. omega arith) (λ e. (h id).2),
      ))
      (λ e. h)

enqueue-IsExact :
    (w : World) (e : Event) (s : Intake)
    → IsExact s
    → count e.event_id s.pending ≡ 0
    → IsExact (enqueue w e s).0
unfolding enqueue
enqueue-IsExact w e s h new =
    if_ind (λ (r : Intake × Bool). IsExact r.0) w.appends _ _
      (λ ok. rewrite-IsExact w (appended e s) (appended-IsExact e s h new)) (λ raised. h)

after_merge-IsExact :
    (w : World) (e : Event) (s : Intake) (r : Intake × Bool)
    → count e.event_id s.pending ≡ 0
    → ExactUnder s r
    → IsExact (after_merge w e r).0
unfolding after_merge
after_merge-IsExact w e s (t, true) new h = h.0
after_merge-IsExact w e s (t, false) new h =
    enqueue-IsExact w e t h.0 (omega (arith, new, h.1 e.event_id))

module _ (sha256 : String → String) (is_digit : Char → Bool) (cfg : Settings) where
  after_cross-IsExact :
      (w : World) (e : Event) (s : Intake) (r : Ingest.Ingest × Bool)
      → IsExact s
      → count e.event_id s.pending ≡ 0
      → IsExact (after_cross is_digit cfg w e s r).0
  unfolding after_cross
  after_cross-IsExact w e s (seen, true) h new = h
  after_cross-IsExact w e s (seen, false) h new =
      let s' = record s { ingest = seen } in
      after_merge-IsExact w e s' (merge_outgoing_duplicate is_digit cfg.outgoing_window w.now e s')
        new (merge-ExactUnder is_digit cfg.outgoing_window w.now e s' h)

  take_event-IsExact :
      (w : World) (e : Event) (s : Intake) → IsExact s → IsExact (take_event is_digit cfg w e s).0
  unfolding take_event
  take_event-IsExact w e s h =
      let P = λ (r : Intake × Bool). IsExact r.0 in
      if_ind P e.is_diagnostic _ _ (λ d. h)
        (λ d.
          if_ind P (member e.event_id s.pending_ids) _ _ (λ m. h)
            (λ new.
              after_cross-IsExact w e s
                (cross_source_duplicate cfg.ingest_window w.now (ingest_message e) s.ingest) h
                (ground (arith, new, (h e.event_id).1))))

  note_account-IsExact :
      (now : ℕ) (account : String) (m : Message) (s : Intake)
      → IsExact s
      → IsExact (note_account now account m s)
  unfolding note_account
  note_account-IsExact now account m s h = if_ind IsExact (is_blank account) _ _ (λ e. h) (λ e. h)

  judged-IsExact :
      (w : World) (m : Message) (s : Intake) (r : Scope.Scope × Scope.Verdict)
      → IsExact s
      → IsExact (judged sha256 is_digit cfg w m s r).0
  unfolding note_out_of_scope
  judged-IsExact w m s (scope, verdict) h =
      if_ind (λ (r : Intake × Bool). IsExact r.0) (is_blocked verdict) _ _ (λ b. h)
        (λ b.
          take_event-IsExact w _ _ (note_account-IsExact w.now _ m (record s { scope = scope }) h))

  unfoldable pub step : Step → Intake → Intake
  unfolding on_local_event settle
  step (arrives w m) s = (on_local_event sha256 is_digit cfg w m s).0
  step (settles done attempted rewrites) s = settle done attempted rewrites s

  unfoldable pub run : List Step → Intake → Intake
  unfolding step
  run [] s = s
  run (t ∷ rest) s = run rest (step t s)

  step-IsExact : (t : Step) (s : Intake) → IsExact s → IsExact (step t s)
  unfolding step on_local_event
  step-IsExact (settles done attempted rewrites) s h = settle-IsExact done attempted rewrites s h
  step-IsExact (arrives w m) s h =
      let m' = stamped w m in
      if_ind (λ (r : Intake × Bool). IsExact r.0) (history_dropped cfg w.now m') _ _ (λ d. h)
        (λ d.
          judged-IsExact w m' s (allows cfg.seat_scope w.now w.provider m'.account m'.role s.scope)
            h)

  -- Whatever messages come in and however flushes change the queue, with any writes of the file failing,
  -- no id stands in the queue twice, the set of ids is that of the queue, and the file has every event
  -- that is in the queue.
  pub run-IsExact : (steps : List Step) (s : Intake) → IsExact s → IsExact (run steps s)
  unfolding run
  run-IsExact [] s h = h
  run-IsExact (t ∷ rest) s h = run-IsExact rest (step t s) (step-IsExact t s h)
