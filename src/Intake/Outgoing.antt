-- ===== src/Intake/Outgoing.antt =====
-- `_merge_outgoing_duplicate` of bridge/agent.py: of the records that several sources make of one
-- message that was sent, the most complete one is kept.
use pdd_bridge_agent.Prelude.{
  ℕ, suc, ◌+◌, ◌-◌, Bool, true, false, not, ◌&&◌, ◌||◌, List, [], ◌∷◌, ◌++◌, String, Char, str_eq,
  ltb, leb, nat_eq, if◌then◌else◌, keep, some_of, map,
}
use pdd_bridge_agent.Text.{strip, is_blank, has_prefix}
use pdd_bridge_agent.Commands.Verdicts.{sent_text_key}
use pdd_bridge_agent.Intake.{Event, Sent, Intake}

-- `len(s)`
abbrev pub text_length : String → ℕ
text_length String.[] = 0
text_length (String.◌∷◌ c s) = suc (text_length s)

abbrev all_chars : (Char → Bool) → String → Bool
all_chars p String.[] = true
all_chars p (String.◌∷◌ c s) = p c && all_chars p s

-- `_OUTGOING_KEEP` keeps what `_sent_text_key` keeps.
abbrev pub sent_text : Event → String
sent_text e = sent_text_key e.content

abbrev pub related : String → String → Bool
related text other = str_eq text other || has_prefix text other || has_prefix other text

-- The item is of the same account and buyer, and one text is a prefix of the other.
unfoldable pub matches : Event → Sent → Bool
unfolding strip has_prefix sent_text_key
matches e item =
    str_eq item.account (strip e.account)
    && str_eq item.buyer (strip e.buyer_id)
    && related (sent_text e) item.text

-- What the loop over the recent items finds
pub data Found : Type 0 where
  nothing : Found
  covered : Sent → Found
  superseded : Sent → Found

abbrev is_same : Sent → Sent → Bool
is_same a b =
    nat_eq a.at b.at
    && str_eq a.account b.account
    && str_eq a.buyer b.buyer
    && str_eq a.text b.text
    && nat_eq a.score b.score
    && str_eq a.event_id b.event_id

-- `recent.remove(item)`
unfoldable pub remove_item : Sent → List Sent → List Sent
remove_item item [] = []
remove_item item (x ∷ rest) = if is_same x item then rest else x ∷ remove_item item rest

abbrev pub has_event : String → List Event → Bool
has_event id = some_of (λ e. str_eq e.event_id id)

abbrev pub ids_of : List Event → List String
ids_of = map (λ e. e.event_id)

-- The older record leaves the queue.
abbrev pub without_event : String → List Event → List Event
without_event id = keep (λ x. not (str_eq x.event_id id))

abbrev replace : Sent → Sent → Intake → Intake
replace item new s = record s {
  pending = without_event item.event_id s.pending;
  pending_ids = ids_of (without_event item.event_id s.pending);
  recent_outgoing = remove_item item s.recent_outgoing ++ new ∷ [];
  outgoing_superseded = true;
}

-- The items that are young enough
unfoldable pub within : ℕ → ℕ → List Sent → List Sent
within window now = keep (λ x. leb (now - x.at) window)

-- `is_digit` is `str.isdigit` of one character.
module _ (is_digit : Char → Bool) where
  unfoldable pub score_of : Event → ℕ
  unfolding sent_text_key
  score_of e =
      text_length (sent_text e)
      + (if not (is_blank e.platform_message_id) && all_chars is_digit e.platform_message_id
          then 100000
          else 0)

  -- Whether the event is one to merge
  unfoldable pub is_merged : Event → Bool
  unfolding strip sent_text_key
  is_merged e =
      str_eq e.role "mall_cs"
      && not e.is_diagnostic
      && not (is_blank (strip e.account))
      && not (is_blank (strip e.buyer_id))
      && leb 4 (text_length (sent_text e))

  unfoldable pub scan : Event → List Sent → Found
  unfolding matches score_of
  scan e [] = nothing
  scan e (item ∷ rest) =
      let later = scan e rest in
      if matches e item
      then if ltb item.score (score_of e) then superseded item else covered item
      else later

  abbrev item_of : ℕ → Event → Sent
  item_of now e = record {
    at = now;
    account = strip e.account;
    buyer = strip e.buyer_id;
    text = sent_text e;
    score = score_of e;
    event_id = e.event_id;
  }

  unfoldable pub merge_found : ℕ → Event → Found → Intake → Intake × Bool
  unfolding remove_item score_of
  merge_found now e nothing s =
      (record s { recent_outgoing = s.recent_outgoing ++ item_of now e ∷ [] }, false)
  merge_found now e (covered item) s = (s, true)
  merge_found now e (superseded item) s =
      if has_event item.event_id s.pending
      then (replace item (item_of now e) s, false)
      else (s, true)

  -- `_merge_outgoing_duplicate`, with whether the event is dropped
  unfoldable pub merge_outgoing_duplicate : ℕ → ℕ → Event → Intake → Intake × Bool
  unfolding is_merged scan merge_found within
  merge_outgoing_duplicate window now e s =
      let recent = within window now s.recent_outgoing in
      if is_merged e
      then merge_found now e (scan e recent) (record s { recent_outgoing = recent })
      else (s, false)
