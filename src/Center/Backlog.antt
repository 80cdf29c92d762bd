-- ===== src/Center/Backlog.antt =====
-- The results that bridge/center_ws.py keeps for `drain_results`.
use mathlib.Core.List.{append_assoc, append-nil}
use pdd_bridge_agent.Prelude.{
  ℕ, String, zero, suc, ◌+◌, ◌≤◌, Bool, true, false, not, Option, none, some, List, [], ◌∷◌, ◌++◌,
  ltb, if◌then◌else◌, take, drop, length, length-append, keep, ◌≡◌, inl, inr, refl, sym, ap, ◌∙◌,
  arith, Bool-cases, if_ind,
}
use pdd_bridge_agent.Text.{is_blank}
use pdd_bridge_agent.Json.{Fields}
use pdd_bridge_agent.Center.{
  Channel, Batch, Begun, Result, Numbers, Size, begin_send, finish_send, on_ack, on_result,
  drain_results, has_id, is_empty, put_frames, collected, acked, find_batch, result_backlog_limit,
}
use pdd_bridge_agent.Center.Answers.{
  Step, begins, finishes, acks, reports, drains, links, step, run,
}
use pdd_bridge_agent.Dict

-- The results that a step hands out, and those that it brings in
abbrev handed : Step → Channel → List Result
handed (drains limit) c = (drain_results limit c).1
handed _ c = []

abbrev brought : Step → List Result
brought (reports r) = if is_blank r.event_id then [] else r ∷ []
brought _ = []

unfoldable pub all_handed : List Step → Channel → List Result
all_handed [] c = []
all_handed (s ∷ rest) c = handed s c ++ all_handed rest (step s c)

unfoldable pub all_brought : List Step → List Result
all_brought [] = []
all_brought (s ∷ rest) = brought s ++ all_brought rest

begin-results :
    (n : Numbers) (size : Size) (h : ℕ) (es : List Fields) (c : Channel)
    → (begin_send n size h es c).0.results ≡ c.results
unfolding begin_send
begin-results n size h es c =
    let named = keep has_id es in
    let P = λ (r : Channel × Begun). r.0.results ≡ c.results in
    if_ind P (is_empty named) _ _ (λ e. refl)
      (λ e.
        if_ind P (not c.connected) _ _ (λ e. refl)
          (λ e.
            if_ind P (is_empty (put_frames n size c.sequence named).frames) _ _ (λ e. refl)
              (λ e. refl)))

collected-results : (o : Option Batch) (c : Channel) → (collected o c).0.results ≡ c.results
collected-results none c = refl
collected-results (some b) c = refl

acked-results :
    (o : Option ℕ) (id status code : String) (c : Channel)
    → (acked o id status code c).results ≡ c.results
acked-results none id status code c = refl
acked-results (some h) id status code c = refl

take-drop : (n : ℕ) (rs : List Result) → take n rs ++ drop n rs ≡ rs
take-drop zero rs = refl
take-drop (suc n) [] = refl
take-drop (suc n) (r ∷ rs) = ap (λ (t : List Result). r ∷ t) (take-drop n rs)

reports-results :
    (r : Result) (c : Channel)
    → length c.results + length (brought (reports r)) ≤ result_backlog_limit
    → (on_result r c).results ≡ c.results ++ brought (reports r)
unfolding on_result
reports-results r c room = elim (Bool-cases (is_blank r.event_id)) [
  | inl blank ↦ rw blank (sym (append-nil c.results))
  | inr named ↦ rw named (
      ap (λ t. if t then c.results ++ r ∷ [] else c.results)
        (has_room named (is_blank r.event_id) named room))
]
  where
    has_room :
        is_blank r.event_id ≡ false
        → (b : Bool) → b ≡ false
        → length c.results + length (if b then [] else r ∷ []) ≤ result_backlog_limit
        → ltb (length c.results) result_backlog_limit ≡ true
    has_room n b e le = ground (arith, e, le)

-- What a step hands out and what is left are what was there and, if there is room, what came in.
step-results :
    (s : Step) (c : Channel)
    → length c.results + length (brought s) ≤ result_backlog_limit
    → handed s c ++ (step s c).results ≡ c.results ++ brought s
unfolding step
step-results (begins n size h es) c room = begin-results n size h es c ∙ sym (append-nil c.results)
step-results (finishes h) c room =
    unfold finish_send in collected-results (find_batch h c.batches) c ∙ sym (append-nil c.results)
step-results (acks id status code) c room =
    unfold on_ack in
    if_ind (λ (x : Channel). x.results ≡ c.results ++ []) (is_blank id) _ _
      (λ e. sym (append-nil c.results))
      (λ e. acked-results (Dict.get c.owner id) id status code _ ∙ sym (append-nil c.results))
step-results (reports r) c room = reports-results r c room
step-results (drains limit) c room =
    unfold drain_results in take-drop limit c.results ∙ sym (append-nil c.results)
step-results (links up) c room = sym (append-nil c.results)

-- Results are handed out once each, in the order in which they came, and none is lost as long as no more
-- than ten thousand with an id have come in, whatever else goes on in between.
pub results_in_order :
    (steps : List Step) (c : Channel)
    → length c.results + length (all_brought steps) ≤ result_backlog_limit
    → all_handed steps c ++ (run steps c).results ≡ c.results ++ all_brought steps
unfolding all_handed all_brought run
results_in_order [] c room = sym (append-nil c.results)
results_in_order (s ∷ rest) c room =
    let b = length-append (brought s) (all_brought rest) in
    let one = step-results s c (omega (arith, room, b)) in
    let size = length-append (handed s c) (step s c).results in
    let size' = length-append c.results (brought s) in
    let later =
      results_in_order rest (step s c) (omega (arith, room, b, ap length one, size, size')) in
    append_assoc (handed s c) (all_handed rest (step s c)) (run rest (step s c)).results
    ∙ ap (λ (t : List Result). handed s c ++ t) later
    ∙ sym (append_assoc (handed s c) (step s c).results (all_brought rest))
    ∙ ap (λ (t : List Result). t ++ all_brought rest) one
    ∙ append_assoc c.results (brought s) (all_brought rest)

reports-bounded :
    (r : Result) (c : Channel)
    → length c.results ≤ result_backlog_limit
    → length (on_result r c).results ≤ result_backlog_limit
unfolding on_result
reports-bounded r c h =
    if_ind (λ (x : Channel). length x.results ≤ result_backlog_limit) (is_blank r.event_id) _ _
      (λ e. h) (λ e. ground (arith, length-append c.results (r ∷ [])))

-- A step that brings nothing in leaves no more than there was.
quiet-bounded :
    (s : Step) (c : Channel)
    → brought s ≡ []
    → length c.results ≤ result_backlog_limit
    → length (step s c).results ≤ result_backlog_limit
quiet-bounded s c quiet h =
    let one = step-results s c (rw quiet (omega (arith, h))) in
    let size = length-append (handed s c) (step s c).results in
    let size' = length-append c.results (brought s) in
    omega (arith, ap length one, ap length quiet, size, size', h)

step-bounded :
    (s : Step) (c : Channel)
    → length c.results ≤ result_backlog_limit
    → length (step s c).results ≤ result_backlog_limit
step-bounded (begins n size id es) c h = quiet-bounded (begins n size id es) c refl h
step-bounded (finishes id) c h = quiet-bounded (finishes id) c refl h
step-bounded (acks id status code) c h = quiet-bounded (acks id status code) c refl h
step-bounded (reports r) c h = unfold step in reports-bounded r c h
step-bounded (drains limit) c h = quiet-bounded (drains limit) c refl h
step-bounded (links up) c h = quiet-bounded (links up) c refl h

-- The kept results never exceed ten thousand, whatever comes in.
pub results_bounded :
    (steps : List Step) (c : Channel)
    → length c.results ≤ result_backlog_limit
    → length (run steps c).results ≤ result_backlog_limit
unfolding run
results_bounded [] c h = h
results_bounded (s ∷ rest) c h = results_bounded rest (step s c) (step-bounded s c h)
