-- ===== src/Ledger/States.antt =====
-- Which states `summarize` of bridge/ledger.py finds for an event.
use pdd_bridge_agent.Prelude.{
  ℕ, Bool, false, not, ◌&&◌, ◌||◌, Option, none, some, List, [], ◌∷◌, String, str_eq, some_of, ◌≡◌,
  refl, ◌∙◌, arith, eq_iff,
}
use pdd_bridge_agent.Text.{is_blank}
use pdd_bridge_agent.Dict
use pdd_bridge_agent.Dict.{Dict}
use pdd_bridge_agent.Dict.Laws
use pdd_bridge_agent.Ledger.{
  Row, Item, too_old, add_row, fresh_item, add_to, summarize_from, summarize, has_state,
}

-- The row is in the window, and gives the event the state.
abbrev pub tells : Option ℕ → String → String → Row → Bool
tells since id state row =
    not (too_old since row.at) && str_eq row.event_id id && str_eq row.state state

abbrev pub item_has : String → Option Item → Bool
item_has state none = false
item_has state (some item) = has_state state item

add_row-has_state :
    (row : Row) (item : Item) (state : String)
    → has_state state (add_row row item) ≡ (str_eq row.state state || has_state state item)
unfolding has_state add_row Dict.contains
add_row-has_state row item state = ground (arith, Laws.get-put item.states row.state state row.at)

fresh-has_state : (row : Row) (state : String) → has_state state (fresh_item row) ≡ false
unfolding has_state fresh_item Dict.contains Dict.get
fresh-has_state row state = refl

found-has_state :
    (row : Row) (state : String) (o : Option Item)
    → has_state state (add_row row (Dict.or_else o (fresh_item row)))
      ≡ (str_eq row.state state || item_has state o)
found-has_state row state none =
    add_row-has_state row (fresh_item row) state ∙ ground (arith, fresh-has_state row state)
found-has_state row state (some item) = add_row-has_state row item state

add_to-has :
    (since : Option ℕ) (row : Row) (d : Dict Item) (id state : String)
    → is_blank id ≡ false
    → item_has state (Dict.get (add_to since row d) id)
      ≡ (tells since id state row || item_has state (Dict.get d id))
unfolding add_to
add_to-has since row d id state n =
    let new : Item = add_row row (Dict.or_else (Dict.get d row.event_id) (fresh_item row)) in
    ground (
      arith,
      Laws.get-put d row.event_id id new,
      found-has_state row state (Dict.get d row.event_id),
      eq_iff row.event_id id,
    )

from-has :
    (since : Option ℕ) (rows : List Row) (d : Dict Item) (id state : String)
    → is_blank id ≡ false
    → item_has state (Dict.get (summarize_from since rows d) id)
      ≡ (some_of (tells since id state) rows || item_has state (Dict.get d id))
unfolding summarize_from
from-has since [] d id state n = refl
from-has since (row ∷ rows) d id state n =
    ground (
      arith,
      from-has since rows (add_to since row d) id state n,
      add_to-has since row d id state n,
    )

-- An event is listed with exactly the states that its rows in the window give it, in whatever order
-- and however often the rows stand in the ledger.
pub states_exact :
    (since : Option ℕ) (rows : List Row) (id state : String)
    → is_blank id ≡ false
    → item_has state (Dict.get (summarize since rows) id) ≡ some_of (tells since id state) rows
unfolding summarize Dict.get
states_exact since rows id state n = from-has since rows [] id state n ∙ ground arith
