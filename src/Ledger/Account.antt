-- ===== src/Ledger/Account.antt =====
-- The account of reconcile.py adds up.
use pdd_bridge_agent.Prelude.{◌+◌, List, [], ◌∷◌, length, keep, ◌≡◌, arith}
use pdd_bridge_agent.Dict.{Dict}
use pdd_bridge_agent.Ledger.{
  Item, has_state, reached_brain, is_ignored, is_refused, is_unanswered, values, verdict,
}

-- Each event has reached the center or misses for exactly one of the three reasons.
one_reason :
    (items : List Item)
    → length items
      ≡ length (keep reached_brain items)
        + length (keep is_ignored items)
        + length (keep is_refused items)
        + length (keep is_unanswered items)
unfolding reached_brain
one_reason [] = omega arith
one_reason (i ∷ items) = ground (arith, one_reason items)

-- The captured events that did not reach the center are told apart without rest and overlap: the
-- refused, the ignored and the unanswered ones add up to the missing ones, and these and the
-- accepted ones to the total.
pub missing_explained :
    (events : Dict Item)
    → ((verdict events).missing
        ≡ (verdict events).refused + (verdict events).ignored + (verdict events).no_result)
      × ((verdict events).total ≡ (verdict events).accepted + (verdict events).missing)
unfolding verdict
missing_explained events =
    let all = one_reason (keep (has_state "captured") (values events)) in
    (omega (arith, all), omega (arith, all))
