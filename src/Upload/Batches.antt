-- ===== src/Upload/Batches.antt =====
-- Which events `_flush_events` of bridge/agent.py puts into a batch.
use pdd_bridge_agent.Prelude.{
  ℕ, zero, suc, ◌+◌, ◌-◌, ◌≤◌, ◌<◌, max, Bool, true, false, not, List, [], ◌∷◌, ◌++◌, String,
  if◌then◌else◌, ltb, member, keep, length, take, map, length-take, length-append, ◌≡◌, refl, sym,
  subst, arith, Bool-cases, inl, inr,
}
use pdd_bridge_agent.Timing.{
  Times, stamp_message, history_ready, epoch_seconds, judge, live_max_age,
}
use pdd_bridge_agent.Upload.{
  Event, Uploader, Clock, stamp, is_history, is_ready, live_quota, compose, choose, begin_flush,
}

abbrev pub Every {ℓ κ} : {A : Type ℓ} → (A → Type κ) → List A → Type κ
Every P [] = Unit
Every P (x ∷ xs) = P x × Every P xs

pub take-Every {ℓ κ} :
    {A : Type ℓ} (P : A → Type κ) (n : ℕ) (xs : List A) → Every P xs → Every P (take n xs)
take-Every P zero xs h = tt
take-Every P (suc n) [] h = tt
take-Every P (suc n) (x ∷ xs) h = (h.0, take-Every P n xs h.1)

pub append-Every {ℓ κ} :
    {A : Type ℓ} (P : A → Type κ) (xs ys : List A) → Every P xs → Every P ys → Every P (xs ++ ys)
append-Every P [] ys g h = h
append-Every P (x ∷ xs) ys g h = (g.0, append-Every P xs ys g.1 h)

pub Every-map {ℓ κ} :
    {A : Type ℓ} (P Q : A → Type κ) (xs : List A) → ((x : A) → P x → Q x) → Every P xs → Every Q xs
Every-map P Q [] f h = tt
Every-map P Q (x ∷ xs) f h = (f x h.0, Every-map P Q xs f h.1)

-- What is kept has the property if the test gives it.
pub keep-Every {ℓ κ} :
    {A : Type ℓ} (P Q : A → Type κ) (p : A → Bool) (xs : List A)
    → ((x : A) → p x ≡ true → Q x → P x)
    → Every Q xs
    → Every P (keep p xs)
keep-Every P Q p [] f h = tt
keep-Every P Q p (x ∷ xs) f h = kept (p x) refl (keep-Every P Q p xs f h.1)
  where
    kept :
        (b : Bool)
        → p x ≡ b
        → Every P (keep p xs)
        → Every P (elim b [ true ↦ x ∷ keep p xs | false ↦ keep p xs ])
    kept true good rest = (f x good h.0, rest)
    kept false bad rest = rest

module _ (scope : Event → Bool) where
  compose-Every :
      (P : Event → Type 0) (size : ℕ) (live history : List Event)
      → Every P live
      → Every P history
      → Every P (compose scope size live history)
  unfolding compose
  compose-Every P size live [] l h = take-Every P size live l
  compose-Every P size live (x ∷ xs) l h =
      let q = live_quota scope size live in
      let n = max 1 (size - q) in
      append-Every P (take q live) (take n (x ∷ xs)) (take-Every P q live l)
        (take-Every P n (x ∷ xs) h)

  compose-length :
      (size : ℕ) (live history : List Event)
      → 1 ≤ size
      → length (compose scope size live history) ≤ max 2 size
  unfolding compose
  compose-length size live [] h = omega (arith, length-take size live)
  compose-length size live (x ∷ xs) h =
      let q = live_quota scope size live in
      let n = max 1 (size - q) in
      omega (
        arith,
        length-append (take q live) (take n (x ∷ xs)),
        length-take q live,
        length-take n (x ∷ xs),
      )

  -- An event of the batch of a flush: it was stamped at the flush, passes the scope, is in no other
  -- batch that is on its way and is not blocked, and its time allows it now.
  abbrev pub Chosen : Clock → List String → List String → Event → Type 0
  Chosen c inflight blocked e =
      (scope e ≡ true)
      × (member e.event_id inflight ≡ false)
      × (member e.event_id blocked ≡ false)
      × (history_ready (if is_history e then c.history_now else c.now) e.times ≡ true)
      × ((m : Times) × (e.times ≡ stamp_message c.tolerance false c.now m))

  abbrev Stamped : ℕ → ℕ → Event → Type 0
  Stamped tolerance now e = (m : Times) × (e.times ≡ stamp_message tolerance false now m)

  Stamped-Every :
      (tolerance now : ℕ) (es : List Event)
      → Every (Stamped tolerance now) (map (stamp tolerance now) es)
  Stamped-Every tolerance now [] = tt
  Stamped-Every tolerance now (e ∷ es) = ((e.times, refl), Stamped-Every tolerance now es)

  ready-Chosen :
      (c : Clock) (inflight blocked : List String) (e : Event)
      → is_ready scope c inflight blocked e ≡ true
      → Stamped c.tolerance c.now e
      → Chosen c inflight blocked e
  ready-Chosen c inflight blocked e r s =
      (ground arith, ground arith, ground arith, ground arith, s)

  -- A batch is never larger than the size that is set, a size of 1 apart, where history adds one; and
  -- each of its events was chosen by the rules.
  pub batch_sound :
      (size : ℕ) (c : Clock) (blocked : List String) (u : Uploader)
      → 1 ≤ size
      → (length (begin_flush scope size c blocked u).1 ≤ max 2 size)
        × Every (Chosen c u.inflight blocked) (begin_flush scope size c blocked u).1
  unfolding begin_flush choose
  batch_sound size c blocked u h =
      let P = Chosen c u.inflight blocked in
      let stamped = map (stamp c.tolerance c.now) u.pending in
      let ready = keep (is_ready scope c u.inflight blocked) stamped in
      let good : Every P ready =
        keep-Every P (Stamped c.tolerance c.now) (is_ready scope c u.inflight blocked) stamped
          (λ e r s. ready-Chosen c u.inflight blocked e r s)
          (Stamped-Every c.tolerance c.now u.pending) in
      let live = keep (λ e. not (is_history e)) ready in
      let history = keep is_history ready in
      elim (Bool-cases (ltb c.monotonic u.retry_at)) [
        | inl early ↦ rw early (omega arith, tt)
        | inr due ↦ rw due (
          compose-length size live history h,
          compose-Every P size live history
              (keep-Every P P (λ e. not (is_history e)) ready (λ e r s. s) good)
              (keep-Every P P is_history ready (λ e r s. s) good),
        )
      ]

-- Its time lets the center take it for what it is: live by the local clock, or history by the center's.
abbrev pub Timely : Clock → Times → Type 0
Timely c t =
    (t.is_history ≡ false → (0 < epoch_seconds t.ts) × (c.now ≤ epoch_seconds t.ts + live_max_age))
    × (t.is_history ≡ true → epoch_seconds t.ts + live_max_age < c.history_now)

stamped-Timely :
    (c : Clock) (m : Times)
    → let t = stamp_message c.tolerance false c.now m in
      history_ready (if t.is_history then c.history_now else c.now) t ≡ true → Timely c t
unfolding history_ready stamp_message judge
stamped-Timely c m r = (ground arith, ground arith)

Chosen-Timely :
    (scope : Event → Bool) (c : Clock) (inflight blocked : List String) (e : Event)
    → Chosen scope c inflight blocked e
    → Timely c e.times
Chosen-Timely scope c inflight blocked e k =
    subst
      (λ (t : Times).
        history_ready (if t.is_history then c.history_now else c.now) t ≡ true → Timely c t)
      (sym k.4.1) (stamped-Timely c k.4.0) k.3

-- Live messages go out only in their first ninety seconds by the local clock, and history only once the
-- ninety seconds have gone by the center's clock, so that the center takes neither for the other.
pub batch-Timely :
    (scope : Event → Bool) (size : ℕ) (c : Clock) (blocked : List String) (u : Uploader)
    → 1 ≤ size
    → Every (λ e. Timely c e.times) (begin_flush scope size c blocked u).1
batch-Timely scope size c blocked u h =
    timely (begin_flush scope size c blocked u).1 (batch_sound scope size c blocked u h).1
  where
    timely :
        (es : List Event)
        → Every (Chosen scope c u.inflight blocked) es
        → Every (λ e. Timely c e.times) es
    timely [] k = tt
    timely (e ∷ es) k = (Chosen-Timely scope c u.inflight blocked e k.0, timely es k.1)
