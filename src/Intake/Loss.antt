-- ===== src/Intake/Loss.antt =====
-- A message whose append to the queue file fails in bridge/agent.py: `_on_local_event` raises, the source
-- tries again, and the second try is taken for a copy of the first.
use pdd_bridge_agent.Prelude.{
  ℕ, ◌+◌, ◌<◌, Bool, true, false, [], Char, str_eq, member, ◌≡◌, refl, sym, ap, subst, ◌∙◌, if_ind,
  false≢true,
}
use pdd_bridge_agent.Ingest
use pdd_bridge_agent.Ingest.{cross_source_duplicate, ingest_identity}
use pdd_bridge_agent.Ingest.Window.{IsTested, copy_is_dropped}
use pdd_bridge_agent.Intake.{Event, Intake}
use pdd_bridge_agent.Intake.Outgoing.{is_merged, merge_outgoing_duplicate}
use pdd_bridge_agent.Intake.Local.{
  Settings, World, take_event, after_cross, after_merge, enqueue, ingest_message,
}

module _ (is_digit : Char → Bool) (cfg : Settings) where
  -- The test for copies of other sources, at one call
  crossed : World → Event → Intake → Ingest.Ingest × Bool
  crossed w e s = cross_source_duplicate cfg.ingest_window w.now (ingest_message e) s.ingest

  -- What a call that raised has changed
  abbrev Raised : Event → Intake → Ingest.Ingest → Intake × Bool → Type 0
  Raised e s seen r =
      r.1 ≡ true
      → (r.0.ingest ≡ seen)
        × (r.0.pending ≡ s.pending)
        × (member e.event_id r.0.pending_ids ≡ false)

  unmerged :
      (now : ℕ) (e : Event) (s : Intake)
      → str_eq e.role "mall_cs" ≡ false
      → merge_outgoing_duplicate is_digit cfg.outgoing_window now e s ≡ (s, false)
  unfolding merge_outgoing_duplicate is_merged
  unmerged now e s role = rw role refl

  enqueue-Raised :
      (w : World) (e : Event) (s : Intake) (seen : Ingest.Ingest)
      → member e.event_id s.pending_ids ≡ false
      → Raised e s seen (enqueue w e (record s { ingest = seen }))
  unfolding enqueue
  enqueue-Raised w e s seen new =
      if_ind (Raised e s seen) w.appends _ _ (λ ok r. absurd (false≢true r))
        (λ failed r. (refl, refl, new))

  cross-Raised :
      (w : World) (e : Event) (s : Intake) (r : Ingest.Ingest × Bool)
      → str_eq e.role "mall_cs" ≡ false
      → member e.event_id s.pending_ids ≡ false
      → Raised e s r.0 (after_cross is_digit cfg w e s r)
  unfolding after_cross after_merge
  cross-Raised w e s (seen, true) role new = λ r. absurd (false≢true r)
  cross-Raised w e s (seen, false) role new =
      let s' = record s { ingest = seen } in
      subst (λ (m : Intake × Bool). Raised e s seen (after_merge w e m))
        (sym (unmerged w.now e s' role)) (enqueue-Raised w e s seen new)

  take-Raised :
      (w : World) (e : Event) (s : Intake)
      → str_eq e.role "mall_cs" ≡ false
      → Raised e s (crossed w e s).0 (take_event is_digit cfg w e s)
  unfolding take_event crossed
  take-Raised w e s role =
      let P = Raised e s (crossed w e s).0 in
      if_ind P e.is_diagnostic _ _ (λ d r. absurd (false≢true r))
        (λ d.
          if_ind P (member e.event_id s.pending_ids) _ _ (λ m r. absurd (false≢true r))
            (λ new. cross-Raised w e s (crossed w e s) role new))

  -- A message that the test takes for a copy changes neither the queue nor its file.
  abbrev Unqueued : Intake → Intake × Bool → Type 0
  Unqueued s r = (r.1 ≡ false) × (r.0.pending ≡ s.pending) × (r.0.queue_file ≡ s.queue_file)

  copy-Unqueued :
      (w : World) (e : Event) (s : Intake)
      → e.is_diagnostic ≡ false
      → (crossed w e s).1 ≡ true
      → Unqueued s (take_event is_digit cfg w e s)
  unfolding take_event crossed
  copy-Unqueued w e s d c =
      let P = Unqueued s in
      if_ind P e.is_diagnostic _ _ (λ t. absurd (false≢true (sym d ∙ t)))
        (λ f.
          if_ind P (member e.event_id s.pending_ids) _ _ (λ m. (refl, refl, refl))
            (λ new. seen_before (crossed w e s) c))
    where
      seen_before :
          (r : Ingest.Ingest × Bool) → r.1 ≡ true → Unqueued s (after_cross is_digit cfg w e s r)
      seen_before (seen, true) h = unfold after_cross in (refl, refl, refl)
      seen_before (seen, false) h = absurd (false≢true h)

  -- An inbound message with an id of the platform, other than a diagnostic one, whose append to the queue
  -- file failed, so that the call raised with the queue as it was, is not queued by a second try within the window, whether or not the
  -- file can be written by then, and that try does not raise.
  pub failed_append_is_lost :
      (first second : World) (e : Event) (s : Intake)
      → IsTested (ingest_message e)
      → e.is_diagnostic ≡ false
      → 0 < cfg.ingest_window
      → second.now < first.now + cfg.ingest_window
      → (take_event is_digit cfg first e s).1 ≡ true
      → let s' = (take_event is_digit cfg first e s).0 in
        let r = take_event is_digit cfg second e s' in
        (r.1 ≡ false) × (r.0.pending ≡ s.pending) × (r.0.queue_file ≡ s'.queue_file)
  unfolding crossed Ingest.take_in
  failed_append_is_lost first second e s t d pos few raised =
      let s' = (take_event is_digit cfg first e s).0 in
      let kept = take-Raised first e s t.0 raised in
      let copy =
        copy_is_dropped cfg.ingest_window first.now second.now (ingest_message e) (ingest_message e)
          [] s.ingest t t refl tt pos few in
      let dropped : (crossed second e s').1 ≡ true =
        ap
          (λ (i : Ingest.Ingest).
            (cross_source_duplicate cfg.ingest_window second.now (ingest_message e) i).1)
          kept.0
        ∙ copy in
      let r = copy-Unqueued second e s' d dropped in (r.0, r.1 ∙ kept.1, r.2)
