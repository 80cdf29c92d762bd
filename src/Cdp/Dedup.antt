-- ===== src/Cdp/Dedup.antt =====
-- Which messages bridge/pddbridge_source.py takes for ones that it has seen: `_is_fallback_id`, `_seen_before`
-- and `_prune_dedup` on the table of `_seen_before`. Times are milliseconds.
use pdd_bridge_agent.Prelude.{
  ℕ, zero, suc, ◌+◌, ◌≤◌, ◌<◌, Bool, true, false, ◌&&◌, ◌||◌, Option, none, some, List, [], ◌∷◌,
  String, Char, code, str_eq, ltb, leb, if◌then◌else◌, length, keep, ◌≡◌, ◌⊎◌, inl, inr, refl, sym,
  ap, subst, ◌∙◌, arith, eq_iff, Bool-cases, if_ind,
}
use pdd_bridge_agent.Text.{is_blank}
use pdd_bridge_agent.Dict
use pdd_bridge_agent.Dict.{Dict}
use pdd_bridge_agent.Dict.Laws
use pdd_bridge_agent.Upload.Batches.{Every}

abbrev is_hex : Char → Bool
is_hex c = (leb b'0' (code c) && leb (code c) b'9') || (leb b'a' (code c) && leb (code c) b'f')

-- As many hexadecimal digits
unfoldable pub are_hex : ℕ → String → Bool
are_hex zero String.[] = true
are_hex (suc n) (String.◌∷◌ c s) = is_hex c && are_hex n s
are_hex _ _ = false

-- `_is_fallback_id`
abbrev pub is_fallback_id : String → Bool
is_fallback_id id = are_hex 24 id

abbrev pub is_recent : ℕ → ℕ → Option ℕ → Bool
is_recent window now none = false
is_recent window now (some last) = ltb now (last + window)

module _ (dedup_off : Bool) (window : ℕ) where
  -- `_seen_before`, with the table after it
  unfoldable pub seen_before : ℕ → String → Dict ℕ → Bool × Dict ℕ
  unfolding are_hex
  seen_before now id table =
      if dedup_off || is_blank id
      then (false, table)
      else if is_fallback_id id
      then (false, table)
      else (is_recent window now (Dict.get table id), Dict.put table id now)

  -- What is said of messages that come one after the other, and the table behind them
  unfoldable pub decisions : List (ℕ × String) → Dict ℕ → List Bool
  unfolding seen_before
  decisions [] table = []
  decisions ((now, id) ∷ rest) table =
      let (seen, next) = seen_before now id table in seen ∷ decisions rest next

  unfoldable pub table_after : List (ℕ × String) → Dict ℕ → Dict ℕ
  unfolding seen_before
  table_after [] table = table
  table_after ((now, id) ∷ rest) table = table_after rest (seen_before now id table).1

-- `_prune_dedup`
unfoldable pub prune_dedup : ℕ → ℕ → ℕ → Dict ℕ → Dict ℕ
prune_dedup threshold window now table =
    if leb (length table) threshold then table else keep (λ e. leb now (e.1 + window)) table

-- No key stands in the table twice.
IsDistinct : Dict ℕ → Type 0
IsDistinct [] = Unit
IsDistinct ((k, v) ∷ d) = (Dict.get d k ≡ none) × IsDistinct d

put-IsDistinct : (d : Dict ℕ) (k : String) (v : ℕ) → IsDistinct d → IsDistinct (Dict.put d k v)
unfolding Dict.put IsDistinct
put-IsDistinct [] k v h = (unfold Dict.get in refl, tt)
put-IsDistinct ((j, w) ∷ d) k v h =
    if_ind IsDistinct (str_eq j k) _ _ (λ e. (ap (Dict.get d) (sym ((eq_iff j k).0 e)) ∙ h.0, h.1))
      (λ e. (
        ground (arith, Laws.get-put d k j v, eq_iff k j, eq_iff j k, e, h.0),
        put-IsDistinct d k v h.1,
      ))

-- The tables have the same time for the id, or the second has one that is out of the window.
abbrev AgreeOn : ℕ → ℕ → Option ℕ → Option ℕ → Type 0
AgreeOn window now x y =
    (x ≡ y) ⊎ ((x ≡ none) × ((last : ℕ) × (y ≡ some last) × (last + window < now)))

abbrev Agree : ℕ → ℕ → Dict ℕ → Dict ℕ → String → Type 0
Agree window now p t k = AgreeOn window now (Dict.get p k) (Dict.get t k)

both-AgreeOn :
    (window now : ℕ) (b : Bool) (v : ℕ) (x y : Option ℕ)
    → AgreeOn window now x y
    → AgreeOn window now (if b then some v else x) (if b then some v else y)
both-AgreeOn window now true v x y h = inl refl
both-AgreeOn window now false v x y h = h

keep-none :
    (q : String × ℕ → Bool) (d : Dict ℕ) (k : String)
    → Dict.get d k ≡ none
    → Dict.get (keep q d) k ≡ none
unfolding Dict.get
keep-none q [] k h = refl
keep-none q ((j, v) ∷ d) k h = ground (arith, keep-none q d k, h)

elim_ind :
    {A : Type 0} (P : A → Type 0) (b : Bool) (x y : A)
    → (b ≡ true → P x)
    → (b ≡ false → P y)
    → P (elim b [ true ↦ x | false ↦ y ])
elim_ind P true x y f g = f refl
elim_ind P false x y f g = g refl

keep-Agree :
    (window now : ℕ) (d : Dict ℕ) (k : String)
    → IsDistinct d
    → Agree window now (keep (λ e. leb now (e.1 + window)) d) d k
unfolding Dict.get IsDistinct
keep-Agree window now [] k h = inl refl
keep-Agree window now ((j, v) ∷ d) k h =
    let kept = keep (λ e. leb now (e.1 + window)) d in
    let later = keep-Agree window now d k h.1 in
    elim_ind (λ l. Agree window now l ((j, v) ∷ d) k) (leb now (v + window)) ((j, v) ∷ kept) kept
      (λ e. both-AgreeOn window now (str_eq j k) v (Dict.get kept k) (Dict.get d k) later)
      (λ e. elim (Bool-cases (str_eq j k)) [
        | inl same ↦
            let absent = ap (Dict.get d) (sym ((eq_iff j k).0 same)) ∙ h.0 in
            inr (
              keep-none (λ e. leb now (e.1 + window)) d k absent,
              (v, ap (λ b. if b then some v else Dict.get d k) same, ground (arith, e)),
            )
        | inr other ↦
            subst (AgreeOn window now (Dict.get kept k))
              (sym (ap (λ b. if b then some v else Dict.get d k) other)) later
      ])

module _ (dedup_off : Bool) (window : ℕ) where
  seen-IsDistinct :
      (now : ℕ) (id : String) (t : Dict ℕ)
      → IsDistinct t
      → IsDistinct (seen_before dedup_off window now id t).1
  unfolding seen_before
  seen-IsDistinct now id t h =
      let P = λ (r : Bool × Dict ℕ). IsDistinct r.1 in
      if_ind P (dedup_off || is_blank id) _ _ (λ e. h)
        (λ e. if_ind P (is_fallback_id id) _ _ (λ f. h) (λ f. put-IsDistinct t id now h))

  table-IsDistinct :
      (qs : List (ℕ × String)) (t : Dict ℕ)
      → IsDistinct t
      → IsDistinct (table_after dedup_off window qs t)
  unfolding table_after
  table-IsDistinct [] t h = h
  table-IsDistinct ((now, id) ∷ rest) t h =
      table-IsDistinct rest (seen_before dedup_off window now id t).1 (seen-IsDistinct now id t h)

  put-Agree :
      (now later : ℕ) (id k : String) (p t : Dict ℕ)
      → Agree window now p t k
      → Agree window now (Dict.put p id later) (Dict.put t id later) k
  put-Agree now later id k p t h =
      subst (λ x. AgreeOn window now x (Dict.get (Dict.put t id later) k))
        (sym (Laws.get-put p id k later))
        (subst (λ y. AgreeOn window now (if str_eq id k then some later else Dict.get p k) y)
          (sym (Laws.get-put t id k later))
          (both-AgreeOn window now (str_eq id k) later (Dict.get p k) (Dict.get t k) h))

  recent_same :
      (now later : ℕ) (id : String) (p t : Dict ℕ)
      → now ≤ later
      → Agree window now p t id
      → is_recent window later (Dict.get p id) ≡ is_recent window later (Dict.get t id)
  recent_same now later id p t le (inl e) = ap (is_recent window later) e
  recent_same now later id p t le (inr (n, (last, e, old))) =
      let out : ltb later (last + window) ≡ false = ground (arith, le, old) in
      ap (is_recent window later) n ∙ sym (ap (is_recent window later) e ∙ out)

  decisions-Agree :
      (now : ℕ) (qs : List (ℕ × String)) (p t : Dict ℕ)
      → Every (λ (q : ℕ × String). now ≤ q.0) qs
      → ((k : String) → Agree window now p t k)
      → decisions dedup_off window qs p ≡ decisions dedup_off window qs t
  unfolding decisions
  decisions-Agree now [] p t h a = refl
  decisions-Agree now ((later, id) ∷ rest) p t h a =
      let same = decisions-Agree now rest p t h.1 a in
      let put =
        decisions-Agree now rest (Dict.put p id later) (Dict.put t id later) h.1
          (λ k. put-Agree now later id k p t (a k)) in
      at (dedup_off || is_blank id) (is_fallback_id id) same put
    where
      answer : Bool → Bool → Dict ℕ → Bool × Dict ℕ
      answer off fallback d =
          if off
          then (false, d)
          else if fallback
          then (false, d)
          else (is_recent window later (Dict.get d id), Dict.put d id later)

      said : Bool × Dict ℕ → List Bool
      said r = r.0 ∷ decisions dedup_off window rest r.1

      at :
          (off fallback : Bool)
          → decisions dedup_off window rest p ≡ decisions dedup_off window rest t
          → decisions dedup_off window rest (Dict.put p id later)
            ≡ decisions dedup_off window rest (Dict.put t id later)
          → said (answer off fallback p) ≡ said (answer off fallback t)
      at true fallback same put = ap (λ (l : List Bool). false ∷ l) same
      at false true same put = ap (λ (l : List Bool). false ∷ l) same
      at false false same put =
          ap (λ (b : Bool). b ∷ decisions dedup_off window rest (Dict.put p id later))
            (recent_same now later id p t h.0 (a id))
          ∙ ap (λ (l : List Bool). is_recent window later (Dict.get t id) ∷ l) put

  -- Whatever messages came into an empty table, to prune it changes nothing of what is said of those that come
  -- from then on.
  pub pruning_changes_nothing :
      (threshold now : ℕ) (before rest : List (ℕ × String))
      → Every (λ (q : ℕ × String). now ≤ q.0) rest
      → let table = table_after dedup_off window before [] in
        decisions dedup_off window rest (prune_dedup threshold window now table)
        ≡ decisions dedup_off window rest table
  unfolding prune_dedup IsDistinct
  pruning_changes_nothing threshold now before rest h =
      let table = table_after dedup_off window before [] in
      let distinct = table-IsDistinct before [] tt in
      decisions-Agree now rest _ table h (λ k.
        if_ind (λ (p : Dict ℕ). Agree window now p table k) (leb (length table) threshold) _ _
          (λ e. inl refl) (λ e. keep-Agree window now table k distinct))
