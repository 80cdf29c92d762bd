-- ===== src/Intake/Cover.antt =====
-- What `_merge_outgoing_duplicate` of bridge/agent.py drops and what it replaces.
use pdd_bridge_agent.Prelude.{
  ℕ, ◌≤◌, ◌<◌, Bool, true, false, List, [], ◌∷◌, Char, ltb, ◌≡◌, ◌⊎◌, inl, inr, refl, arith, if_ind,
  false≢true,
}
use pdd_bridge_agent.Intake.{Event, Sent, Intake}
use pdd_bridge_agent.Intake.Outgoing.{
  Found, nothing, covered, superseded, matches, scan, score_of, is_merged, within, merge_found,
  merge_outgoing_duplicate, has_event, without_event,
}

-- Some item of the list has the property.
abbrev pub Has {ℓ} : {A : Type ℓ} → (A → Type 0) → List A → Type 0
Has P [] = ⊥
Has P (x ∷ xs) = P x ⊎ Has P xs

module _ (is_digit : Char → Bool) where
  -- What an item that the scan finds is to the event
  abbrev FoundIn : Event → List Sent → Found → Type 0
  FoundIn e items nothing = Unit
  FoundIn e items (covered item) =
      Has (λ x. x ≡ item) items × (matches e item ≡ true) × (score_of is_digit e ≤ item.score)
  FoundIn e items (superseded item) =
      Has (λ x. x ≡ item) items × (matches e item ≡ true) × (item.score < score_of is_digit e)

  wider :
      (e : Event) (x : Sent) (items : List Sent) (f : Found)
      → FoundIn e items f
      → FoundIn e (x ∷ items) f
  wider e x items nothing h = tt
  wider e x items (covered item) h = (inr h.0, h.1, h.2)
  wider e x items (superseded item) h = (inr h.0, h.1, h.2)

  scan-FoundIn : (e : Event) (items : List Sent) → FoundIn e items (scan is_digit e items)
  unfolding scan
  scan-FoundIn e [] = tt
  scan-FoundIn e (x ∷ rest) =
      if_ind (FoundIn e (x ∷ rest)) (matches e x) _ _
        (λ m.
          if_ind (FoundIn e (x ∷ rest)) (ltb x.score (score_of is_digit e)) _ _
            (λ less. (inl refl, m, ground (arith, less)))
            (λ more. (inl refl, m, ground (arith, more))))
        (λ m. wider e x rest (scan is_digit e rest) (scan-FoundIn e rest))

  -- The item that lets an event be dropped
  abbrev pub CoveredBy : Event → List Sent → Intake → Sent → Type 0
  CoveredBy e items s item =
      Has (λ x. x ≡ item) items
      × (matches e item ≡ true)
      × ((score_of is_digit e ≤ item.score) ⊎ (has_event item.event_id s.pending ≡ false))

  -- If the event is dropped, there is such an item.
  abbrev CoveredIf : Event → List Sent → Intake → Intake × Bool → Type 0
  CoveredIf e items s r = r.1 ≡ true → (item : Sent) × CoveredBy e items s item

  found_covers :
      (now : ℕ) (e : Event) (items : List Sent) (f : Found) (s : Intake)
      → FoundIn e items f
      → CoveredIf e items s (merge_found is_digit now e f s)
  unfolding merge_found
  found_covers now e items nothing s h = λ d. absurd (false≢true d)
  found_covers now e items (covered item) s h = λ d. (item, (h.0, h.1, inl h.2))
  found_covers now e items (superseded item) s h =
      if_ind (CoveredIf e items s) (has_event item.event_id s.pending) _ _
        (λ there d. absurd (false≢true d)) (λ gone d. (item, (h.0, h.1, inr gone)))

  -- A record of a sent message is dropped only if another one for the same account and buyer, noted within
  -- the window and with a text of which one is a prefix of the other, is as complete at least, or is not in
  -- the queue any more.
  pub dropped_is_covered :
      (window now : ℕ) (e : Event) (s : Intake)
      → (merge_outgoing_duplicate is_digit window now e s).1 ≡ true
      → (item : Sent) × CoveredBy e (within window now s.recent_outgoing) s item
  unfolding merge_outgoing_duplicate
  dropped_is_covered window now e s =
      let recent = within window now s.recent_outgoing in
      if_ind (CoveredIf e recent s) (is_merged is_digit e) _ _
        (λ m.
          found_covers now e recent (scan is_digit e recent) (record s { recent_outgoing = recent })
            (scan-FoundIn e recent))
        (λ m d. absurd (false≢true d))

  -- The item whose event leaves the queue
  abbrev pub Replaced : Event → List Sent → Intake → List Event → Sent → Type 0
  Replaced e items s pending item =
      Has (λ x. x ≡ item) items
      × (matches e item ≡ true)
      × (item.score < score_of is_digit e)
      × (pending ≡ without_event item.event_id s.pending)

  -- The queue after the merge, with whether the event was dropped
  abbrev pub QueueAfter : Event → List Sent → Intake → Intake × Bool → Type 0
  QueueAfter e items s r =
      (r.0.pending ≡ s.pending)
      ⊎ ((r.1 ≡ false) × ((item : Sent) × Replaced e items s r.0.pending item))

  found_queue :
      (now : ℕ) (e : Event) (items : List Sent) (f : Found) (s : Intake)
      → FoundIn e items f
      → QueueAfter e items s (merge_found is_digit now e f s)
  unfolding merge_found
  found_queue now e items nothing s h = inl refl
  found_queue now e items (covered item) s h = inl refl
  found_queue now e items (superseded item) s h =
      if_ind (QueueAfter e items s) (has_event item.event_id s.pending) _ _
        (λ there. inr (refl, (item, (h.0, h.1, h.2, refl)))) (λ gone. inl refl)

  -- A merge takes an event from the queue only for one that is not dropped and is more complete, for the
  -- same account and buyer and with a text of which one is a prefix of the other; it changes the queue in
  -- no other way.
  pub replaced_is_less :
      (window now : ℕ) (e : Event) (s : Intake)
      → QueueAfter e
          (within window now s.recent_outgoing)
          s
          (merge_outgoing_duplicate is_digit window now e s)
  unfolding merge_outgoing_duplicate
  replaced_is_less window now e s =
      let recent = within window now s.recent_outgoing in
      if_ind (QueueAfter e recent s) (is_merged is_digit e) _ _
        (λ m.
          found_queue now e recent (scan is_digit e recent) (record s { recent_outgoing = recent })
            (scan-FoundIn e recent))
        (λ m. inl refl)
