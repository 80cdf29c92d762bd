-- ===== src/Watcher/Buffer.antt =====
-- The buffer of parsed messages of bridge/watcher.py: `_is_history_duplicate`, `_remember`,
-- `_queue_message` and `_flush_pending`. Times are milliseconds of the monotonic clock.
use pdd_bridge_agent.Prelude.{
  ℕ, suc, ◌+◌, ◌-◌, Bool, true, false, not, ◌&&◌, ◌||◌, Option, none, some, List, [], ◌∷◌, ◌++◌,
  String, Char, code, str_eq, nat_eq, ltb, leb, if◌then◌else◌, length, take, drop, keep, member,
  some_of,
}
use pdd_bridge_agent.Text.{strip, is_blank, is_space, has_prefix}
use pdd_bridge_agent.Dict
use pdd_bridge_agent.Dict.{Dict}

-- `re.sub(r"\s+", " ", s)`; the flag says that the character before is a white one.
unfoldable collapse : Bool → String → String
unfolding is_space
collapse after String.[] = ""
collapse after (String.◌∷◌ c s) = elim (is_space c) [
  | false ↦ String.◌∷◌ c (collapse false s)
  | true ↦ elim after [ true ↦ collapse true s | false ↦ String.◌∷◌ " " (collapse true s) ]
]

-- `_normalized_content`
unfoldable pub normalized_content : String → String
unfolding collapse strip
normalized_content s = strip (collapse false s)

abbrev text_length : String → ℕ
text_length String.[] = 0
text_length (String.◌∷◌ c s) = suc (text_length s)

abbrev is_dot : Char → Bool
is_dot c = nat_eq (code c) b'.' || nat_eq (code c) 0x2026

abbrev dot_before : Char → String → String
dot_before c String.[] = if is_dot c then "" else String.◌∷◌ c ""
dot_before c (String.◌∷◌ d s) = String.◌∷◌ c (String.◌∷◌ d s)

-- `s.rstrip(".…")`
unfoldable without_dots : String → String
without_dots String.[] = ""
without_dots (String.◌∷◌ c s) = dot_before c (without_dots s)

abbrev cut_of : String → String → Bool
cut_of shorter longer =
    leb 8 (text_length (without_dots shorter)) && has_prefix longer (without_dots shorter)

-- `_same_seller_content`
unfoldable pub same_seller_content : String → String → Bool
unfolding normalized_content without_dots has_prefix
same_seller_content left right =
    let first = normalized_content left in
    let second = normalized_content right in
    if str_eq first second
    then true
    else if leb (text_length first) (text_length second)
    then cut_of first second
    else cut_of second first

-- An entry of `_pending_events`; `scope` is `_seller_scope` of its message, and `semantic` is blank for a
-- message of the buyer. `handle` stands for the message itself; that a copy of better quality takes over
-- `captured_at` and `captured_at_ms` is left out. The qualities are only compared: a number that is added to
-- all of them keeps them from being negative.
pub record Item : Type 0 where
  pub handle : ℕ
  pub source : String
  pub scope : String
  pub content : String
  pub exact : String
  pub semantic : String
  pub quality : ℕ
  pub first_seen : ℕ
  pub due : ℕ

pub record Past : Type 0 where
  pub scope : String
  pub content : String
  pub at : ℕ

-- `delivered` has the messages that `on_event` took, `dropped` those that a flush found to be duplicates.
pub record Buffer : Type 0 where
  pub pending : Dict Item
  pub seen : List String
  pub semantic_seen : Dict ℕ
  pub history : List Past
  pub delivered : Dict Item
  pub dropped : Dict Item
  pub failed : Bool

-- A row of `_seller_history` within five seconds; the rows are in the order of time.
abbrev is_past : ℕ → Item → Past → Bool
is_past now i p =
    not (ltb 5000 (now - p.at)) && str_eq p.scope i.scope && same_seller_content p.content i.content

abbrev is_recent : ℕ → Option ℕ → Bool
is_recent now none = false
is_recent now (some at) = not (nat_eq at 0) && leb (now - at) 5000

-- `_is_history_duplicate`
unfoldable pub is_history_duplicate : ℕ → Item → Buffer → Bool
unfolding same_seller_content
is_history_duplicate now i b =
    member i.exact b.seen
    || (not (is_blank i.semantic)
        && (is_recent now (Dict.get b.semantic_seen i.semantic)
            || some_of (is_past now i) b.history))

-- `_remember`: the keys, the oldest first
unfoldable pub remember : String → List String → List String
remember key seen =
    if member key seen
    then seen
    else (let more = seen ++ key ∷ [] in if ltb 20000 (length more) then drop 5000 more else more)

-- What a message that was taken leaves behind
unfoldable pub taken : ℕ → String → Item → Buffer → Buffer
unfolding normalized_content remember
taken now key i b = record b {
  pending = Dict.remove b.pending key;
  seen = remember i.exact b.seen;
  semantic_seen =
      if is_blank i.semantic then b.semantic_seen else Dict.put b.semantic_seen i.semantic now;
  history =
      if is_blank i.semantic
      then b.history
      else b.history
        ++ record { scope = i.scope; content = normalized_content i.content; at = now } ∷ [];
  delivered = b.delivered ++ (key, i) ∷ [];
}

-- `accepts` says whether `on_event` returns for a message; where it raises, the item stays.
module _ (accepts : Item → Bool) where
  -- One turn of the loop of `_flush_pending`
  unfoldable pub flush_one : ℕ → String × Item → Buffer → Buffer
  unfolding is_history_duplicate taken
  flush_one now (key, i) b =
      if is_history_duplicate now i b
      then record b { pending = Dict.remove b.pending key; dropped = b.dropped ++ (key, i) ∷ [] }
      else if accepts i
      then taken now key i b
      else record b { failed = true }

  unfoldable pub flush_all : ℕ → Dict Item → Buffer → Buffer
  unfolding flush_one
  flush_all now [] b = b
  flush_all now (x ∷ rest) b = flush_all now rest (flush_one now x b)

-- `ready.sort(key=first_seen)`, which keeps the order of equal ones
unfoldable pub insert : String × Item → Dict Item → Dict Item
insert x [] = x ∷ []
insert x (y ∷ ys) = if leb x.1.first_seen y.1.first_seen then x ∷ y ∷ ys else y ∷ insert x ys

unfoldable pub sort : Dict Item → Dict Item
unfolding insert
sort [] = []
sort (x ∷ xs) = insert x (sort xs)

abbrev pub flush_batch : ℕ
flush_batch = 500

-- The items of one flush
unfoldable pub ready : Bool → ℕ → Dict Item → Dict Item
unfolding sort
ready force now pending =
    let sorted = sort (keep (λ e. force || leb e.1.due now) pending) in
    if force then sorted else take flush_batch sorted

-- What is older than ten seconds goes.
abbrev pub forget : ℕ → Buffer → Buffer
forget now b = record b {
  semantic_seen = keep (λ e. not (ltb e.1 (now - 10000))) b.semantic_seen;
  history = keep (λ p. not (ltb p.at (now - 10000))) b.history;
}

-- `_flush_pending`; it raises at its end if `failed` is set.
unfoldable pub flush_pending : (Item → Bool) → Bool → ℕ → Buffer → Buffer
unfolding flush_all ready
flush_pending accepts force now b =
    forget now (flush_all accepts now (ready force now b.pending) (record b { failed = false }))

abbrev pub group_of : Item → String
group_of i = if is_blank i.semantic then i.exact else i.semantic

-- The group of a pending message of the seller with the same content
unfoldable pub find_group : Item → Dict Item → Option String
unfolding same_seller_content
find_group i [] = none
find_group i ((key, p) ∷ rest) =
    let later = find_group i rest in
    if not (is_blank p.semantic)
      && str_eq p.scope i.scope
      && same_seller_content p.content i.content
    then some key
    else later

abbrev pub group_in : Item → Dict Item → String
group_in i pending =
    if is_blank i.semantic then group_of i else Dict.or_else (find_group i pending) (group_of i)

abbrev pub merged : String → Item → Option Item → Buffer → Buffer
merged group i none b = record b { pending = Dict.put b.pending group i }
merged group i (some old) b =
    if ltb old.quality i.quality
    then record b {
      pending = Dict.put b.pending group (record i { first_seen = old.first_seen; due = old.due });
    }
    else b

-- `_queue_message`, on an item with its times: 0.6 seconds until it is due for a message of the seller, 0.15
-- for one of the buyer
unfoldable pub queue_message : ℕ → Item → Buffer → Buffer
unfolding is_history_duplicate find_group
queue_message now i b =
    let timed = record i {
      first_seen = now;
      due = now + (if is_blank i.semantic then 150 else 600);
    } in
    let group = group_in i b.pending in
    if is_history_duplicate now i b then b else merged group timed (Dict.get b.pending group) b
