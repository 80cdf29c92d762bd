-- ===== src/Ledger.antt =====
-- The delivery ledger: `summarize` of bridge/ledger.py, and the account that reconcile.py gives of it.
pub mod States
pub mod Account
use pdd_bridge_agent.Prelude.{
  ℕ, suc, ◌+◌, ◌-◌, min, Bool, true, false, not, ◌&&◌, ◌||◌, Option, none, some, List, [], ◌∷◌,
  ◌++◌, String, str_eq, ltb, if◌then◌else◌, member, keep, length,
}
use pdd_bridge_agent.Text.{is_blank, append}
use pdd_bridge_agent.Dict
use pdd_bridge_agent.Dict.{Dict}

-- A row of the ledger file; a text is blank where the key is missing. Times are ticks.
pub record Row : Type 0 where
  pub at : ℕ
  pub event_id : String
  pub state : String
  pub account : String
  pub buyer_id : String
  pub content_head : String
  pub detail : String

-- What `summarize` keeps of one event.
pub record Item : Type 0 where
  pub states : Dict ℕ
  pub chain : List String
  pub account : String
  pub buyer_id : String
  pub content : String
  pub at : ℕ
  pub detail : String

unfoldable pub fresh_item : Row → Item
fresh_item row = record {
  states = [];
  chain = [];
  account = "";
  buyer_id = "";
  content = "";
  at = row.at;
  detail = "";
}

abbrev first_text : String → String → String
first_text old new = if is_blank old then new else old

abbrev detail_states : List String
detail_states =
    "center_refused" ∷ "center_ignored" ∷ "center_retry" ∷ "local_fail" ∷ "dead_letter" ∷ []

-- What a row adds to its event.
unfoldable pub add_row : Row → Item → Item
add_row row item = record {
  states = Dict.put item.states row.state row.at;
  chain = item.chain ++ row.state ∷ [];
  account = first_text item.account row.account;
  buyer_id = first_text item.buyer_id row.buyer_id;
  content = first_text item.content row.content_head;
  at = min item.at row.at;
  detail =
      if not (is_blank row.detail) && member row.state detail_states
      then append row.state (append ": " row.detail)
      else item.detail;
}

abbrev pub too_old : Option ℕ → ℕ → Bool
too_old none at = false
too_old (some since) at = ltb at since

-- One turn of the loop of `summarize`
unfoldable pub add_to : Option ℕ → Row → Dict Item → Dict Item
unfolding add_row fresh_item
add_to since row d =
    if too_old since row.at || is_blank row.event_id
    then d
    else Dict.put d row.event_id
        (add_row row (Dict.or_else (Dict.get d row.event_id) (fresh_item row)))

unfoldable pub summarize_from : Option ℕ → List Row → Dict Item → Dict Item
unfolding add_to
summarize_from since [] d = d
summarize_from since (row ∷ rows) d = summarize_from since rows (add_to since row d)

-- `summarize`, without its counts
unfoldable pub summarize : Option ℕ → List Row → Dict Item
unfolding summarize_from
summarize since rows = summarize_from since rows []

-- `state in item["states"]`
unfoldable pub has_state : String → Item → Bool
unfolding Dict.contains
has_state state item = Dict.contains item.states state

-- `reached_brain` of reconcile.py
unfoldable pub reached_brain : Item → Bool
unfolding has_state
reached_brain item =
    if has_state "center_accepted" item
    then true
    else has_state "center_terminal" item
      && not (has_state "center_refused" item || has_state "center_ignored" item)

abbrev pub values : Dict Item → List Item
values [] = []
values ((k, item) ∷ d) = item ∷ values d

-- The figures of `verdict` of reconcile.py
pub record Verdict : Type 0 where
  pub total : ℕ
  pub accepted : ℕ
  pub ignored : ℕ
  pub refused : ℕ
  pub no_result : ℕ
  pub local_failed : ℕ
  pub missing : ℕ

abbrev pub is_ignored : Item → Bool
is_ignored i = has_state "center_ignored" i && not (has_state "center_accepted" i)

abbrev pub is_refused : Item → Bool
is_refused i =
    has_state "center_refused" i
    && not (has_state "center_accepted" i)
    && not (has_state "center_ignored" i)

abbrev pub is_unanswered : Item → Bool
is_unanswered i = not (
    has_state "center_accepted" i
    || has_state "center_terminal" i
    || has_state "center_ignored" i
    || has_state "center_refused" i)

-- `verdict` of reconcile.py, its figures
unfoldable pub verdict : Dict Item → Verdict
unfolding reached_brain has_state
verdict events =
    let captured = keep (has_state "captured") (values events) in
    let accepted = length (keep reached_brain captured) in
    record {
      total = length captured;
      accepted = accepted;
      ignored = length (keep is_ignored captured);
      refused = length (keep is_refused captured);
      no_result = length (keep is_unanswered captured);
      local_failed = length (keep (has_state "local_fail") captured);
      missing = length captured - accepted;
    }
