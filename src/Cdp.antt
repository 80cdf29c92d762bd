-- ===== src/Cdp.antt =====
-- How bridge/pddbridge_source.py sends a text through a page of the workbench: `send_and_wait`,
-- `_handle_actions`, `_session_for_send`, `_do_send` and `_handle_send_receipt`, with `mall_id_from_account`
-- of bridge/pdd_context.py.
pub mod Sends
pub mod Receipts
pub mod Confirms
pub mod Pages
pub mod Dedup
pub mod Rounds
pub mod Indices
pub mod Fairness
use pdd_bridge_agent.Prelude.{
  ℕ, zero, suc, ◌+◌, Bool, true, false, not, ◌&&◌, ◌||◌, Option, none, some, List, [], ◌∷◌, ◌++◌,
  String, Char, code, str_eq, nat_eq, leb, if◌then◌else◌, length, keep, some_of,
}
use pdd_bridge_agent.Text.{strip, is_blank, or_text, append}
use pdd_bridge_agent.Dict
use pdd_bridge_agent.Dict.{Dict}

abbrev is_digit : Char → Bool
is_digit c = leb b'0' (code c) && leb (code c) b'9'

abbrev is_end : Char → Bool
is_end c = nat_eq (code c) b':' || nat_eq (code c) b'_'

abbrev with_digit : Char → Option String → Option String
with_digit c none = none
with_digit c (some s) = some (String.◌∷◌ c s)

-- The digits up to a colon or an underscore
unfoldable pub mall_digits : String → Option String
mall_digits String.[] = none
mall_digits (String.◌∷◌ c s) =
    if is_digit c then with_digit c (mall_digits s) else if is_end c then some "" else none

-- The text behind a prefix
unfoldable pub behind : String → String → Option String
behind String.[] s = some s
behind (String.◌∷◌ c p) String.[] = none
behind (String.◌∷◌ c p) (String.◌∷◌ d s) = if nat_eq (code c) (code d) then behind p s else none

abbrev digits_of : Option String → String
digits_of none = ""
digits_of (some s) = Dict.or_else (mall_digits s) ""

-- `mall_id_from_account` of a text with ASCII digits
unfoldable pub mall_id_from_account : String → String
unfolding behind mall_digits strip
mall_id_from_account account = digits_of (behind "cs_" (strip account))

pub record Session : Type 0 where
  pub port : ℕ
  pub mall_id : String
  pub account : String

abbrev pub find : (Session → Bool) → List Session → Option Session
find p [] = none
find p (s ∷ ss) = if p s then some s else find p ss

abbrev pub or_find : Option Session → Option Session → Option Session
or_find none later = later
or_find (some s) later = some s

abbrev pub has_mall : String → Session → Bool
has_mall target s = not (is_blank target) && (not (is_blank s.mall_id) && str_eq s.mall_id target)

abbrev pub has_account : String → Session → Bool
has_account account s =
    not (is_blank account) && (not (is_blank s.account) && str_eq s.account account)

abbrev pub only : List Session → Option Session
only (s ∷ []) = some s
only _ = none

abbrev pub target_mall : String → String
target_mall account = if is_blank account then "" else mall_id_from_account account

-- `_session_for_send`
unfoldable pub session_for_send : String → List Session → Option Session
session_for_send account sessions =
    let target = target_mall account in
    or_find (find (has_mall target) sessions) (
      or_find (find (has_account account) sessions)
        (if is_blank target then only sessions else none))

-- The arguments of an action; `handle` stands for the object of its event.
pub record Send : Type 0 where
  pub handle : ℕ
  pub uid : String
  pub content : String
  pub account : String

-- What an event gets as its result: the statuses of the code, the answer of the other way, or the receipt
pub data Result : Type 0 where
  expired : Result
  not_ready : Result
  no_session : Result
  other_shop : Result
  call_failed : Result
  direct : ℕ → Result
  confirmed : String → Result

-- Where `_do_send` is: nowhere, while the page is asked for its shop, in the direct way's hands, or in the call
-- of the page
pub data Work : Type 0 where
  idle : Work
  asking : Send → Work
  handing : Send → Work
  calling : Send → Work

-- `acts` is the list that `_handle_actions` works on, `work` what it is about. `calls` records for
-- which events the text was handed on, to a page or to the direct way; `results` has what the events
-- were given, and `cancelled` those whose flag is set.
pub record Source : Type 0 where
  pub sessions : List Session
  pub is_listening : Bool
  pub queued : List Send
  pub acts : List Send
  pub work : Work
  pub pending : Dict Send
  pub cancelled : List ℕ
  pub calls : List ℕ
  pub results : List (ℕ × Result)

-- What `_do_send` meets at a test: whether the event has expired by its time or by the caller's test, the mall that
-- the page tells (blank if it tells none), and whether there is a direct way
pub record World : Type 0 where
  pub is_late : Bool
  pub page_mall : String
  pub has_direct : Bool

abbrev pub has_handle : ℕ → List ℕ → Bool
has_handle h hs = some_of (λ n. nat_eq n h) hs

-- `s[:n]`
unfoldable pub first_chars : ℕ → String → String
first_chars zero s = ""
first_chars (suc n) String.[] = ""
first_chars (suc n) (String.◌∷◌ c s) = String.◌∷◌ c (first_chars n s)

abbrev pub key_of : String → String → String
key_of uid content = append uid (append "|" (first_chars 48 content))

abbrev pub send_key : Send → String
send_key s = key_of s.uid s.content

-- `event.result = …; event.set()`, after which `_do_send` returns
abbrev pub resolve : ℕ → Result → Source → Source
resolve h r s = record s { results = s.results ++ (h, r) ∷ []; work = idle }

abbrev pub is_other_shop : String → String → Bool
is_other_shop told account =
    let target = mall_id_from_account account in
    not (is_blank told) && (not (is_blank target) && not (str_eq told target))

abbrev pub is_expired : World → Send → Source → Bool
is_expired w x s = has_handle x.handle s.cancelled || w.is_late

-- `_do_send` as far as the page is asked for its shop
unfoldable pub do_send : World → Send → Source → Source
do_send w x s =
    if is_expired w x s
    then resolve x.handle expired s
    else if not s.is_listening
    then resolve x.handle not_ready s
    else record s { work = asking x }

abbrev pub in_session : World → Send → Option Session → Source → Source
in_session w x none s = resolve x.handle no_session s
in_session w x (some page) s = do_send w x s

-- `_do_send_action` of the next action, when `_do_send` is nowhere
abbrev pub next_action : World → List Send → Work → Source → Source
next_action w (x ∷ rest) idle s =
    in_session w x (session_for_send x.account s.sessions) (record s { acts = rest })
next_action w _ _ s = s

unfoldable pub perform : World → Source → Source
unfolding do_send session_for_send
perform w s = next_action w s.acts s.work s

-- To the direct way if there is one, and else to the page
abbrev pub handed_on : Bool → Send → Source → Source
handed_on true x s = record s { calls = x.handle ∷ s.calls; work = handing x }
handed_on false x s = record s { calls = x.handle ∷ s.calls; work = calling x }

abbrev pub page_told : World → Work → Source → Source
page_told w (asking x) s =
    if is_other_shop w.page_mall x.account
    then resolve x.handle other_shop s
    else if is_expired w x s
    then resolve x.handle expired s
    else handed_on w.has_direct x s
page_told w _ s = s

-- The page has told its shop: the second test of `_do_send`, and the text is handed on.
unfoldable pub page_tells : World → Source → Source
page_tells w s = page_told w s.work s

abbrev pub direct_returned : Option ℕ → Work → Source → Source
direct_returned (some a) (handing x) s = resolve x.handle (direct a) s
direct_returned none (handing x) s = record s { calls = x.handle ∷ s.calls; work = calling x }
direct_returned o _ s = s

-- `direct_send.send` returns: with a result, or with None, and then the page is called, with no test in between.
unfoldable pub direct_returns : Option ℕ → Source → Source
direct_returns o s = direct_returned o s.work s

-- The call of the page returns.
abbrev pub call_returns : Bool → Work → Source → Source
call_returns ok (calling x) s =
    if ok
    then record s { work = idle; pending = Dict.put s.pending (send_key x) x }
    else resolve x.handle call_failed s
call_returns ok _ s = s

unfoldable pub finish_send : Bool → Source → Source
unfolding first_chars
finish_send ok s = call_returns ok s.work s

abbrev pub confirm : String → String → Send → Source → Source
confirm to_uid key x s = record s {
  pending = Dict.remove s.pending key;
  results = s.results ++ (x.handle, confirmed (or_text x.uid to_uid)) ∷ [];
}

abbrev pub has_content : String → String × Send → Bool
has_content content e = str_eq (first_chars 48 e.1.content) (first_chars 48 content)

abbrev pub confirm_only : String → Dict Send → Source → Source
confirm_only to_uid ((key, x) ∷ []) s = confirm to_uid key x s
confirm_only to_uid _ s = s

abbrev pub confirm_found : String → String → Option Send → Source → Source
confirm_found to_uid content (some x) s = confirm to_uid (key_of to_uid content) x s
confirm_found to_uid content none s = confirm_only to_uid (keep (has_content content) s.pending) s

-- `_handle_send_receipt`, on the buyer and the text that the frame tells
unfoldable pub handle_send_receipt : String → String → Source → Source
unfolding first_chars
handle_send_receipt to_uid content s =
    confirm_found to_uid content (Dict.get s.pending (key_of to_uid content)) s

-- `send_and_wait` puts its action into the queue, while the thread of the source is alive.
abbrev pub submit : Send → Source → Source
submit x s = record s { queued = s.queued ++ x ∷ [] }

-- `_handle_actions` takes the queue, once it is through with the one before.
abbrev pub take_if : List Send → Source → Source
take_if [] s = record s { queued = []; acts = s.queued }
take_if (x ∷ rest) s = s

unfoldable pub take_actions : Source → Source
take_actions s = take_if s.acts s

abbrev pub is_resolved : ℕ → Source → Bool
is_resolved h s = some_of (λ (r : ℕ × Result). nat_eq r.0 h) s.results

-- The wait of `send_and_wait` is over.
unfoldable pub end_wait : Send → Source → Source
unfolding first_chars
end_wait x s = if is_resolved x.handle s then s else record s {
  cancelled = x.handle ∷ s.cancelled;
  queued = keep (λ (y : Send). not (nat_eq y.handle x.handle)) s.queued;
  pending = Dict.remove s.pending (send_key x);
}
