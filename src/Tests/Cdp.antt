-- ===== src/Tests/Cdp.antt =====
-- Sends through two pages, of which two have the same text, and a table of ids that is pruned.
use pdd_bridge_agent.Prelude.{ℕ, true, false, none, List, [], ◌∷◌, ◌++◌, String, ◌≡◌, refl, arith}
use pdd_bridge_agent.Text.{or_text, strip, is_space, append}
use pdd_bridge_agent.Dict
use pdd_bridge_agent.Cdp.{
  Session, Send, Source, confirmed, World, asking, handing, page_tells, direct_returns,
  mall_id_from_account, behind, mall_digits, session_for_send, send_key, first_chars,
  handle_send_receipt, end_wait, perform, do_send, finish_send, take_actions,
}
use pdd_bridge_agent.Cdp.Sends.{
  Move, submits, takes, performs, page_answers, direct_answers, returns, gives_up, step, run,
  calls_of, given_up_is_not_sent,
}
use pdd_bridge_agent.Cdp.Confirms.{
  new_source, receipt-ConfirmsOwn, end_of_first_loses_second, ConfirmsOwn,
}
use pdd_bridge_agent.Cdp.Pages.{chosen-IsRight, IsRight}
use pdd_bridge_agent.Cdp.Rounds.{Round, Pump, ok, pump_rounds, pump_round, visit, has}
use pdd_bridge_agent.Cdp.Fairness.{every_page_is_served}
use pdd_bridge_agent.Cdp.Dedup.{
  decisions, table_after, prune_dedup, pruning_changes_nothing, seen_before, are_hex,
}

mall_test : mall_id_from_account " cs_123:45" ≡ "123"
unfolding mall_id_from_account behind mall_digits strip is_space
mall_test = refl

no_mall_test : mall_id_from_account "cs_12x:45" ≡ ""
unfolding mall_id_from_account behind mall_digits strip is_space
no_mall_test = refl

abbrev page : ℕ → String → Session
page port mall = record { port = port; mall_id = mall; account = "" }

abbrev pages : List Session
pages = page 9222 "7" ∷ page 9223 "123" ∷ []

chosen-IsRight_example : IsRight "cs_123:45" pages (page 9223 "123")
chosen-IsRight_example =
    chosen-IsRight "cs_123:45" pages (page 9223 "123")
      (unfold session_for_send mall_id_from_account behind mall_digits strip is_space in refl)

abbrev hello : ℕ → Send
hello handle = record { handle = handle; uid = "b1"; content = "hello"; account = "cs_123:45" }

abbrev calm : World
calm = record { is_late = false; page_mall = "123"; has_direct = true }

abbrev moves : List Move
moves =
    submits (hello 1)
    ∷ submits (hello 2)
    ∷ takes
    ∷ performs calm
    ∷ page_answers calm
    ∷ direct_answers none
    ∷ returns true
    ∷ performs calm
    ∷ page_answers calm
    ∷ direct_answers none
    ∷ returns true
    ∷ []

abbrev sent : Source
sent = run moves (new_source true pages)

-- Both texts were handed on, and the record of the second has replaced the first one's.
sent_test : sent.pending ≡ (send_key (hello 2), hello 2) ∷ []
unfolding run step perform do_send page_tells direct_returns finish_send take_actions
    session_for_send mall_id_from_account behind mall_digits strip is_space first_chars append
    Dict.put
sent_test = refl

abbrev waiting : Source
waiting = record (new_source true pages) {
  pending = (send_key (hello 2), hello 2) ∷ [];
  calls = 2 ∷ 1 ∷ [];
}

end_of_first_loses_second_example :
    ((handle_send_receipt "b1" "hello" waiting).results
      ≡ [] ++ (2, confirmed (or_text "b1" "b1")) ∷ [])
    × ((handle_send_receipt "b1" "hello" (end_wait (hello 1) waiting)).results ≡ [])
end_of_first_loses_second_example =
    end_of_first_loses_second (hello 1) (hello 2) waiting refl
      (unfold Dict.get first_chars append in refl) refl
      (unfold Dict.remove first_chars append in refl)

receipt-ConfirmsOwn_example : ConfirmsOwn "b1" "hello" sent (handle_send_receipt "b1" "hello" sent)
receipt-ConfirmsOwn_example = receipt-ConfirmsOwn moves true pages "b1" "hello"

-- The wait for the first send ends while the page is asked for its shop.
abbrev given_up : Source
given_up = record (new_source true pages) { work = asking (hello 1); cancelled = 1 ∷ [] }

given_up_is_not_sent_example :
    calls_of 1 (run (page_answers calm ∷ direct_answers none ∷ returns true ∷ []) given_up)
    ≡ calls_of 1 given_up
given_up_is_not_sent_example =
    given_up_is_not_sent (page_answers calm ∷ direct_answers none ∷ returns true ∷ []) 1 given_up
      refl refl

-- A wait that ends while the direct way has the text does not stop the page from being called.
abbrev overtaken : Source
overtaken = record (new_source true pages) { work = handing (hello 1); calls = 1 ∷ [] }

overtaken_test : calls_of 1 (run (gives_up (hello 1) ∷ direct_answers none ∷ []) overtaken) ≡ 2
unfolding run step end_wait direct_returns
overtaken_test = refl

abbrev before : List (ℕ × String)
before = (1000, "m1") ∷ (2000, "m2") ∷ (70000, "m3") ∷ []

abbrev rest : List (ℕ × String)
rest = (71000, "m1") ∷ (72000, "m3") ∷ (73000, "m1") ∷ []

prune_test :
    decisions false 60000 rest (prune_dedup 1 60000 71000 (table_after false 60000 before []))
    ≡ false ∷ true ∷ true ∷ []
unfolding decisions prune_dedup table_after seen_before are_hex Dict.get Dict.put
prune_test = refl

pruning_changes_nothing_example :
    decisions false 60000 rest (prune_dedup 1 60000 71000 (table_after false 60000 before []))
    ≡ decisions false 60000 rest (table_after false 60000 before [])
pruning_changes_nothing_example =
    pruning_changes_nothing false 60000 1 71000 before rest
      (omega arith, (omega arith, (omega arith, tt)))

-- The budget of each round is spent after its first page, and the first round begins at the last page.
abbrev slow : Round
slow = record { answer = λ x. ok; is_spent = λ i. true }

abbrev pump : Pump
pump = record { live = 10 ∷ 20 ∷ 30 ∷ []; cursor = 2; served = []; full_turns = 0; budget_hits = 0 }

rounds_test : (pump_rounds (slow ∷ slow ∷ []) pump).served ≡ 30 ∷ 10 ∷ []
unfolding pump_rounds pump_round visit
rounds_test = refl

every_page_is_served_example : has 20 (pump_rounds (slow ∷ slow ∷ slow ∷ []) pump).served ≡ true
every_page_is_served_example =
    every_page_is_served (slow ∷ slow ∷ slow ∷ []) pump 1 20 refl
      (λ x. refl, (λ x. refl, (λ x. refl, tt))) (omega arith)
