-- ===== src/Cdp/Fairness.antt =====
-- No page of bridge/pddbridge_source.py starves behind others that use up the budget of the rounds.
use native.Mathlib.Nat.{mod-eq_of_lt}
use mathlib.Core.Option.{some-injective, none-ne-some}
use pdd_bridge_agent.Prelude.{
  ℕ, zero, suc, ◌%◌, ◌≤◌, ◌<◌, true, false, not, Option, none, some, List, [], ◌∷◌, ◌++◌, nat_eq,
  if◌then◌else◌, length, ◌≡◌, ◌⊎◌, inl, inr, refl, sym, ap, subst, ◌∙◌, arith, if_ind, false≢true,
  or_right,
}
use pdd_bridge_agent.Upload.Batches.{Every}
use pdd_bridge_agent.Cdp.Rounds.{
  Pump, Round, is_dropped, has, remove_first, get_elem?, next_index, serve, pause, visit_one, visit,
  round_of, pump_round, pump_rounds,
}
use pdd_bridge_agent.Cdp.Indices.{steps, next-lt, mod_lt, reached}

has-append : (x y : ℕ) (xs : List ℕ) → has x xs ≡ true → has x (xs ++ y ∷ []) ≡ true
has-append x y [] h = absurd (false≢true h)
has-append x y (z ∷ xs) h = ground (arith, h, has-append x y xs)

has-last : (x : ℕ) (xs : List ℕ) → has x (xs ++ x ∷ []) ≡ true
has-last x [] = ground arith
has-last x (z ∷ xs) = or_right (nat_eq z x) _ (has-last x xs)

module _ (r : Round) (calm : (x : ℕ) → is_dropped (r.answer x) ≡ false) (sessions : List ℕ) where
  visit_ind :
      (P : Pump → Type 0) (o : Option ℕ) (i : ℕ) (p : Pump) (rest : Pump → Pump)
      → P (rest p)
      → ((x : ℕ) → P (pause (length sessions) i (serve r x p)))
      → ((x : ℕ) → P (rest (serve r x p)))
      → P (visit_one r (length sessions) o i p rest)
  visit_ind P none i p rest a b c = a
  visit_ind P (some x) i p rest a b c =
      if_ind P (not (has x p.live)) _ _ (λ e. a)
        (λ e. if_ind P (r.is_spent i) _ _ (λ f. b x) (λ f. c x))

  serve-live : (x : ℕ) (p : Pump) → (serve r x p).live ≡ p.live
  serve-live x p = ap (λ b. if b then remove_first x p.live else p.live) (calm x)

  visit-live : (turns i : ℕ) (p : Pump) → (visit r sessions turns i p).live ≡ p.live
  unfolding visit
  visit-live zero i p = refl
  visit-live (suc turns) i p =
      let next = next_index (length sessions) i in
      visit_ind (λ q. q.live ≡ p.live) (get_elem? sessions i) i p
        (λ q. visit r sessions turns next q) (visit-live turns next p) (λ x. serve-live x p)
        (λ x. visit-live turns next (serve r x p) ∙ serve-live x p)

  visit-served :
      (x turns i : ℕ) (p : Pump)
      → has x p.served ≡ true
      → has x (visit r sessions turns i p).served ≡ true
  unfolding visit
  visit-served x zero i p h = h
  visit-served x (suc turns) i p h =
      let next = next_index (length sessions) i in
      visit_ind (λ q. has x q.served ≡ true) (get_elem? sessions i) i p
        (λ q. visit r sessions turns next q) (visit-served x turns next p h)
        (λ y. has-append x y p.served h)
        (λ y. visit-served x turns next (serve r y p) (has-append x y p.served h))

-- The page is drained, or the next round begins nearer to it.
abbrev IsNearer : ℕ → ℕ → ℕ → ℕ → Pump → Type 0
IsNearer count x j d q =
    (has x q.served ≡ true)
    ⊎ ((e : ℕ) × (e < d) × (steps count q.cursor e ≡ j) × (q.cursor < count))

has-get : (xs : List ℕ) (i x : ℕ) → get_elem? xs i ≡ some x → has x xs ≡ true
has-get [] i x e = absurd (none-ne-some x e)
has-get (y ∷ xs) zero x e = let same = some-injective y x e in ground (arith, same)
has-get (y ∷ xs) (suc i) x e = or_right (nat_eq y x) _ (has-get xs i x e)

weaken-IsNearer :
    (count x j d : ℕ) (q : Pump) → IsNearer count x j d q → IsNearer count x j (suc d) q
weaken-IsNearer count x j d q (inl h) = inl h
weaken-IsNearer count x j d q (inr (e, le, s, c)) = inr (e, omega (arith, le), s, c)

module _ (r : Round) (calm : (x : ℕ) → is_dropped (r.answer x) ≡ false) (sessions : List ℕ)
    (x j : ℕ) (found : get_elem? sessions j ≡ some x) where
  visit-IsNearer :
      (turns i d : ℕ) (p : Pump)
      → p.live ≡ sessions
      → d < turns
      → i < length sessions
      → steps (length sessions) i d ≡ j
      → IsNearer (length sessions) x j d (visit r sessions turns i p)
  unfolding visit
  visit-IsNearer zero i d p l t n s = absurd (omega (arith, t))
  visit-IsNearer (suc turns) i zero p l t n s =
      let next = next_index (length sessions) i in
      let P = λ (q : Pump). IsNearer (length sessions) x j 0 q in
      subst (λ o. P (visit_one r (length sessions) o i p (λ q. visit r sessions turns next q)))
        (sym (ap (get_elem? sessions) s ∙ found))
        (if_ind P (not (has x p.live)) _ _
          (λ e. absurd (false≢true (sym (ap not (ap (has x) l ∙ has-get sessions j x found)) ∙ e)))
          (λ e.
            if_ind P (r.is_spent i) _ _ (λ f. inl (has-last x p.served))
              (λ f.
                inl
                  (visit-served r calm sessions x turns next (serve r x p) (has-last x p.served)))))
  visit-IsNearer (suc turns) i (suc d) p l t n s =
      let count = length sessions in
      let next = next_index count i in
      let le : d < turns = omega (arith, t) in
      let go = λ (q : Pump). λ (m : q.live ≡ sessions).
        weaken-IsNearer count x j d (visit r sessions turns next q)
          (visit-IsNearer turns next d q m le (next-lt count i n) s) in
      visit_ind r calm sessions (IsNearer count x j (suc d)) (get_elem? sessions i) i p
        (λ q. visit r sessions turns next q) (go p l)
        (λ y. inr (d, omega arith, s, next-lt count i n))
        (λ y. go (serve r y p) (serve-live r calm sessions y p ∙ l))

get-lt : (xs : List ℕ) (j x : ℕ) → get_elem? xs j ≡ some x → j < length xs
get-lt [] j x e = absurd (none-ne-some x e)
get-lt (y ∷ xs) zero x e = omega arith
get-lt (y ∷ xs) (suc j) x e = omega (arith, get-lt xs j x e)

-- No page is lost in the round.
abbrev pub IsCalm : Round → Type 0
IsCalm r = (x : ℕ) → is_dropped (r.answer x) ≡ false

module _ (first : ℕ) (others : List ℕ) (x j : ℕ)
    (found : get_elem? (first ∷ others) j ≡ some x) where
  abbrev pages : List ℕ
  pages = first ∷ others

  abbrev start : Pump → ℕ
  start p = p.cursor % suc (length others)

  once-IsNearer :
      (r : Round) (calm : IsCalm r) (d : ℕ) (p : Pump)
      → p.live ≡ pages
      → d < length pages
      → steps (length pages) (start p) d ≡ j
      → (IsNearer (length pages) x j d (pump_round r p)) × ((pump_round r p).live ≡ pages)
  unfolding pump_round
  once-IsNearer r calm d p l t s =
      subst
        (λ ss. (IsNearer (length pages) x j d (round_of r ss p)) × ((round_of r ss p).live ≡ pages))
        (sym l)
        (
          visit-IsNearer r calm pages x j found (length pages) (start p) d p l t
              (mod_lt p.cursor (length others)) s,
          visit-live r calm pages (length pages) (start p) p ∙ l,
        )

  once-served :
      (r : Round) (calm : IsCalm r) (p : Pump)
      → p.live ≡ pages
      → has x p.served ≡ true
      → (has x (pump_round r p).served ≡ true) × ((pump_round r p).live ≡ pages)
  unfolding pump_round
  once-served r calm p l h =
      subst (λ ss. (has x (round_of r ss p).served ≡ true) × ((round_of r ss p).live ≡ pages))
        (sym l)
        (
          visit-served r calm pages x (length pages) (start p) p h,
          visit-live r calm pages (length pages) (start p) p ∙ l,
        )

  stays_served :
      (rs : List Round) (p : Pump)
      → Every IsCalm rs
      → p.live ≡ pages
      → has x p.served ≡ true
      → has x (pump_rounds rs p).served ≡ true
  unfolding pump_rounds
  stays_served [] p c l h = h
  stays_served (r ∷ rs) p c l h =
      let (g, m) = once-served r c.0 p l h in stays_served rs (pump_round r p) c.1 m g

  gets_served :
      (rs : List Round) (d : ℕ) (p : Pump)
      → Every IsCalm rs
      → p.live ≡ pages
      → d < length pages
      → d < length rs
      → steps (length pages) (start p) d ≡ j
      → has x (pump_rounds rs p).served ≡ true
  unfolding pump_rounds
  gets_served [] d p c l t k s = absurd (omega (arith, k))
  gets_served (r ∷ rs) d p c l t k s =
      let (near, m) = once-IsNearer r c.0 d p l t s in
      after near m (λ e le below q.
        gets_served rs e (pump_round r p) c.1 m (omega (arith, le, t)) (omega (arith, le, k))
          (ap (λ i. steps (length pages) i e) (mod-eq_of_lt below) ∙ q))
    where
      after :
          IsNearer (length pages) x j d (pump_round r p)
          → (pump_round r p).live ≡ pages
          → ((e : ℕ)
              → e < d
              → (pump_round r p).cursor < length pages
              → steps (length pages) (pump_round r p).cursor e ≡ j
              → has x (pump_rounds rs (pump_round r p)).served ≡ true)
          → has x (pump_rounds rs (pump_round r p)).served ≡ true
      after (inl h) m go = stays_served rs (pump_round r p) c.1 m h
      after (inr (e, le, q, below)) m go = go e le below q

-- Over as many rounds as there are pages, every page is drained, however early each round's budget is spent and
-- wherever the first one begins, as long as no page is lost.
pub every_page_is_served :
    (rs : List Round) (p : Pump) (j x : ℕ)
    → get_elem? p.live j ≡ some x
    → Every IsCalm rs
    → length p.live ≤ length rs
    → has x (pump_rounds rs p).served ≡ true
every_page_is_served rs p j x found calm few = at p.live refl
  where
    at : (ss : List ℕ) → p.live ≡ ss → has x (pump_rounds rs p).served ≡ true
    at [] l = absurd (none-ne-some x (sym (ap (λ ss. get_elem? ss j) l) ∙ found))
    at (y ∷ ys) l =
        let here : get_elem? (y ∷ ys) j ≡ some x = sym (ap (λ ss. get_elem? ss j) l) ∙ found in
        let (d, t, s) =
          reached (length (y ∷ ys)) (p.cursor % suc (length ys)) j (mod_lt p.cursor (length ys))
            (get-lt (y ∷ ys) j x here) in
        gets_served y ys x j here rs d p calm l t (omega (arith, t, few, ap length l)) s
