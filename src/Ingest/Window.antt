-- ===== src/Ingest/Window.antt =====
-- A message that two sources report passes once: `_cross_source_duplicate` of bridge/agent.py.
use pdd_bridge_agent.Prelude.{
  ℕ, ◌+◌, ◌-◌, ◌≤◌, ◌<◌, Bool, true, false, not, ◌||◌, some, List, [], ◌∷◌, String, str_eq, ltb,
  keep, ◌≡◌, sym, ap, subst, ◌∙◌, arith, Bool-cases, inl, inr,
}
use pdd_bridge_agent.Text.{is_blank}
use pdd_bridge_agent.Dict
use pdd_bridge_agent.Dict.{Dict}
use pdd_bridge_agent.Dict.Laws
use pdd_bridge_agent.Ingest.{
  Message, Ingest, ingest_identity, prune, is_recent, duplicate_of, cross_source_duplicate,
  ingest_release, take_in,
}

-- The id was last seen at some time since `start`. A Python dict has each key once; here the first
-- entry counts, and it is the one that stays if it is young enough.
abbrev SeenSince : ℕ → String → Ingest → Type 0
SeenSince start id s = (last : ℕ) × (Dict.get s.seen id ≡ some last) × (start ≤ last)

keep-get :
    (limit : ℕ) (d : Dict ℕ) (id : String) (last : ℕ)
    → Dict.get d id ≡ some last
    → limit ≤ last
    → Dict.get (keep (λ e. not (ltb e.1 limit)) d) id ≡ some last
unfolding Dict.get
keep-get limit [] id last h le = cc
keep-get limit ((k, t) ∷ d) id last h le = ground (arith, keep-get limit d id last)

prune-SeenSince :
    (window now start : ℕ) (id : String) (s : Ingest)
    → now ≤ start + window
    → SeenSince start id s
    → SeenSince start id (prune window now s)
unfolding prune
prune-SeenSince window now start id s le (last, found, since) =
    (last, ground (arith, keep-get (now - window) s.seen id last found (omega arith)), since)

put-SeenSince :
    (start now : ℕ) (id key : String) (seen : Dict ℕ) (last : ℕ)
    → start ≤ now
    → start ≤ last
    → Dict.get seen id ≡ some last
    → (t : ℕ) × (Dict.get (Dict.put seen key now) id ≡ some t) × (start ≤ t)
put-SeenSince start now id key seen last le since found = elim (Bool-cases (str_eq key id)) [
  | inl same ↦ (now, ground (arith, Laws.get-put seen key id now), le)
  | inr other ↦ (last, ground (arith, Laws.get-put seen key id now), since)
]

duplicate_of-SeenSince :
    (window now start : ℕ) (id key : String) (s : Ingest)
    → start ≤ now
    → now ≤ start + window
    → SeenSince start id s
    → SeenSince start id (duplicate_of window now key s).0
unfolding duplicate_of
duplicate_of-SeenSince window now start id key s le few (last, found, since) =
    let put = put-SeenSince start now id key s.seen last le since found in
    elim (Bool-cases (is_recent window now (Dict.get s.seen key))) [
      | inl recent ↦ rw recent put
      | inr new ↦ rw new (
          prune-SeenSince window now start id (record s { seen = Dict.put s.seen key now }) few put)
    ]

cross-SeenSince :
    (window now start : ℕ) (id : String) (m : Message) (s : Ingest)
    → start ≤ now
    → now ≤ start + window
    → SeenSince start id s
    → SeenSince start id (cross_source_duplicate window now m s).0
unfolding cross_source_duplicate
cross-SeenSince window now start id m s le few h =
    elim (Bool-cases (str_eq m.role "mall_cs" || is_blank (ingest_identity m))) [
      | inl passes ↦ rw passes h
      | inr tested ↦
          rw tested (duplicate_of-SeenSince window now start id (ingest_identity m) s le few h)
    ]

-- The messages come in between the two times.
abbrev pub Between : ℕ → ℕ → List (ℕ × Message) → Type 0
Between start end [] = Unit
Between start end ((now, m) ∷ rest) = (start ≤ now) × (now ≤ end) × Between start end rest

take_in-SeenSince :
    (window start end : ℕ) (id : String) (calls : List (ℕ × Message)) (s : Ingest)
    → end ≤ start + window
    → Between start end calls
    → SeenSince start id s
    → SeenSince start id (take_in window calls s)
unfolding take_in
take_in-SeenSince window start end id [] s few b h = h
take_in-SeenSince window start end id ((now, m) ∷ rest) s few b h =
    take_in-SeenSince window start end id rest (cross_source_duplicate window now m s).0 few b.2
      (cross-SeenSince window now start id m s b.0 (omega (arith, b.1, few)) h)

-- A message that the test is for: inbound, with an id of the platform
abbrev pub IsTested : Message → Type 0
IsTested m = (str_eq m.role "mall_cs" ≡ false) × (is_blank (ingest_identity m) ≡ false)

duplicate_of-sees :
    (window now : ℕ) (id : String) (s : Ingest) → SeenSince now id (duplicate_of window now id s).0
unfolding duplicate_of
duplicate_of-sees window now id s =
    let put : SeenSince now id (record s { seen = Dict.put s.seen id now }) =
      (now, Laws.get-put_self s.seen id now, omega arith) in
    elim (Bool-cases (is_recent window now (Dict.get s.seen id))) [
      | inl recent ↦ rw recent put
      | inr new ↦ rw new (
          prune-SeenSince window now now id (record s { seen = Dict.put s.seen id now })
            (omega arith) put)
    ]

duplicate_of-drops :
    (window later start : ℕ) (id : String) (s : Ingest)
    → 0 < window
    → later < start + window
    → SeenSince start id s
    → (duplicate_of window later id s).1 ≡ true
unfolding duplicate_of
duplicate_of-drops window later start id s pos few (last, found, since) =
    let recent : is_recent window later (Dict.get s.seen id) ≡ true =
      ap (is_recent window later) found ∙ ground (arith, pos, few, since) in
    ground arith

cross-tested :
    (window now : ℕ) (m : Message) (s : Ingest)
    → IsTested m
    → cross_source_duplicate window now m s ≡ duplicate_of window now (ingest_identity m) s
unfolding cross_source_duplicate
cross-tested window now m s t = rw (t.0, t.1)

pub copy_is_dropped :
    (window start later : ℕ) (m copy : Message) (between : List (ℕ × Message)) (s : Ingest)
    → IsTested m
    → IsTested copy
    → ingest_identity copy ≡ ingest_identity m
    → Between start later between
    → 0 < window
    → later < start + window
    → (cross_source_duplicate window later copy
        (take_in window between (cross_source_duplicate window start m s).0)).1
      ≡ true
copy_is_dropped window start later m copy between s t t' same b pos few =
    let s1 = (cross_source_duplicate window start m s).0 in
    let seen1 : SeenSince start (ingest_identity m) s1 =
      subst (λ (r : Ingest × Bool). SeenSince start (ingest_identity m) r.0)
        (sym (cross-tested window start m s t))
        (duplicate_of-sees window start (ingest_identity m) s) in
    let s2 = take_in window between s1 in
    let seen2 =
      take_in-SeenSince window start later (ingest_identity m) between s1 (omega (arith, few)) b
        seen1 in
    ap (λ (r : Ingest × Bool). r.1) (cross-tested window later copy s2 t')
    ∙ ap (λ (i : String). (duplicate_of window later i s2).1) same
    ∙ duplicate_of-drops window later start (ingest_identity m) s2 pos few seen2

-- A message that was released because the center did not take it lets the next copy pass, at any time;
-- and a message that the test is not for always passes and leaves the table alone.
pub released_passes :
    (window now : ℕ) (m copy : Message) (s : Ingest)
    → ingest_identity copy ≡ ingest_identity m
    → ((cross_source_duplicate window now copy (ingest_release m s)).1 ≡ false)
      × ((str_eq copy.role "mall_cs" || is_blank (ingest_identity copy)) ≡ true
          → cross_source_duplicate window now copy s ≡ (s, false))
unfolding cross_source_duplicate ingest_release duplicate_of
released_passes window now m copy s same =
    (ground (arith, same, Laws.get-remove_self s.seen (ingest_identity m)), λ h. rw h)
