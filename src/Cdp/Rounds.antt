-- ===== src/Cdp/Rounds.antt =====
-- The rounds in which bridge/pddbridge_source.py drains its pages: `_pump_round` and `_drop_session`. A page is
-- spelled by a number.
use pdd_bridge_agent.Prelude.{
  ℕ, zero, suc, ◌+◌, ◌%◌, Bool, true, false, not, Option, none, some, List, [], ◌∷◌, ◌++◌, nat_eq,
  if◌then◌else◌, length, some_of,
}

-- The answers of `_pump_session`
pub data Pumped : Type 0 where
  ok error lost fail : Pumped

abbrev pub is_dropped : Pumped → Bool
is_dropped ok = false
is_dropped error = false
is_dropped lost = true
is_dropped fail = true

-- `served` records the pages that were drained.
pub record Pump : Type 0 where
  pub live : List ℕ
  pub cursor : ℕ
  pub served : List ℕ
  pub full_turns : ℕ
  pub budget_hits : ℕ

-- What draining a page answers, and whether the budget of the round is spent after the page at an index
pub record Round : Type 0 where
  pub answer : ℕ → Pumped
  pub is_spent : ℕ → Bool

abbrev pub has : ℕ → List ℕ → Bool
has x xs = some_of (λ y. nat_eq y x) xs

-- `list.remove`, the first of its kind
abbrev pub remove_first : ℕ → List ℕ → List ℕ
remove_first x [] = []
remove_first x (y ∷ ys) = if nat_eq y x then ys else y ∷ remove_first x ys

abbrev pub get_elem? : List ℕ → ℕ → Option ℕ
get_elem? [] i = none
get_elem? (x ∷ xs) zero = some x
get_elem? (x ∷ xs) (suc i) = get_elem? xs i

-- `(index + 1) % count` of an index below the count
abbrev pub next_index : ℕ → ℕ → ℕ
next_index count i = if nat_eq (suc i) count then 0 else suc i

-- `_pump_session`, and `_drop_session` where it lost the page
abbrev pub serve : Round → ℕ → Pump → Pump
serve r x p = record p {
  served = p.served ++ x ∷ [];
  live = if is_dropped (r.answer x) then remove_first x p.live else p.live;
}

abbrev pub pause : ℕ → ℕ → Pump → Pump
pause count i p = record p { cursor = next_index count i; budget_hits = p.budget_hits + 1 }

-- One turn of the loop, and the turns after it
abbrev pub visit_one : Round → ℕ → Option ℕ → ℕ → Pump → (Pump → Pump) → Pump
visit_one r count none i p rest = rest p
visit_one r count (some x) i p rest =
    if not (has x p.live)
    then rest p
    else if r.is_spent i
    then pause count i (serve r x p)
    else rest (serve r x p)

-- The loop of `_pump_round`, for a number of turns and from an index
unfoldable pub visit : Round → List ℕ → ℕ → ℕ → Pump → Pump
visit r sessions zero i p = record p { cursor = 0; full_turns = p.full_turns + 1 }
visit r sessions (suc turns) i p =
    visit_one r (length sessions) (get_elem? sessions i) i p
      (λ q. visit r sessions turns (next_index (length sessions) i) q)

abbrev pub round_of : Round → List ℕ → Pump → Pump
round_of r [] p = p
round_of r (x ∷ xs) p = visit r (x ∷ xs) (length (x ∷ xs)) (p.cursor % suc (length xs)) p

-- `_pump_round`
unfoldable pub pump_round : Round → Pump → Pump
unfolding visit
pump_round r p = round_of r p.live p

unfoldable pub pump_rounds : List Round → Pump → Pump
unfolding pump_round
pump_rounds [] p = p
pump_rounds (r ∷ rs) p = pump_rounds rs (pump_round r p)
