-- ===== src/Senders/SentBy.antt =====
-- Who has sent a message of the seat: `_classify_sent_by` of bridge/agent.py with `_same_sent_text` and
-- `_same_seat`. Digits are the ASCII digits; `similar` is the test on the ratio of `SequenceMatcher`.
use pdd_bridge_agent.Prelude.{
  ℕ, zero, suc, ◌+◌, ◌-◌, ◌≤◌, ◌<◌, Bool, true, false, not, ◌&&◌, ◌||◌, List, [], ◌∷◌, ◌++◌, String,
  str_eq, ltb, leb, if◌then◌else◌, length, drop, some_of, member, ◌≡◌, refl, sym, arith, eq_iff,
  eq_refl, if_ind, or_right, both, false≢true, ap,
}
use pdd_bridge_agent.Text.{strip, is_blank, has_prefix, occurs, append}
use pdd_bridge_agent.Seats.Account.{is_digit}
use pdd_bridge_agent.Commands.Channel.{SelfSend, Agent}
use pdd_bridge_agent.Commands.Verdicts.{sent_text_key}
use pdd_bridge_agent.Commands.Dispatch.{note_self_send}

abbrev text_length : String → ℕ
text_length String.[] = 0
text_length (String.◌∷◌ c s) = suc (text_length s)

-- `s[:n]` and `s[n:]`
abbrev first : ℕ → String → String
first zero s = ""
first (suc n) String.[] = ""
first (suc n) (String.◌∷◌ c s) = String.◌∷◌ c (first n s)

abbrev from : ℕ → String → String
from zero s = s
from (suc n) String.[] = ""
from (suc n) (String.◌∷◌ c s) = from n s

-- `short[:8] in long_ and short[-6:] in long_`
abbrev ends_occur : String → String → Bool
ends_occur short long =
    occurs (first 8 short) long && occurs (from (text_length short - 6) short) long

module _ (similar : String → String → Bool) where
  abbrev same_ordered : String → String → String → String → Bool
  same_ordered a b short long =
      (leb 6 (text_length short) && has_prefix long short)
      || (leb 12 (text_length short) && ends_occur short long)
      || similar a b

  abbrev same_keys : String → String → Bool
  same_keys a b =
      if is_blank a || is_blank b
      then false
      else if str_eq a b
      then true
      else if leb (text_length a) (text_length b)
      then same_ordered a b a b
      else same_ordered a b b a

  -- `_same_sent_text`
  unfoldable pub same_sent_text : String → String → Bool
  unfolding sent_text_key has_prefix occurs
  same_sent_text ours theirs = same_keys (sent_text_key ours) (sent_text_key theirs)

-- A run of digits that is long enough, and those behind it
abbrev run_before : String → List String → List String
run_before digits rest = if leb 6 (text_length digits) then digits ∷ rest else rest

unfoldable pub digit_runs : String → String → List String
unfolding append
digit_runs digits String.[] = run_before digits []
digit_runs digits (String.◌∷◌ c s) = elim (is_digit c) [
  | true ↦ digit_runs (append digits (String.◌∷◌ c "")) s
  | false ↦ run_before digits (digit_runs "" s)
]

abbrev shared : List String → List String → Bool
shared xs ys = some_of (λ x. member x ys) xs

-- `_same_seat`: texts of which one is missing are let through.
unfoldable pub same_seat : String → String → Bool
unfolding strip digit_runs
same_seat left right =
    let a = strip left in
    let b = strip right in
    is_blank a || is_blank b || str_eq a b || shared (digit_runs "" a) (digit_runs "" b)

-- Some row has the property and at most `n` rows behind it.
recent : (SelfSend → Bool) → ℕ → List SelfSend → Bool
recent p n [] = false
recent p n (x ∷ xs) = (p x && leb (length xs) n) || recent p n xs

length-last : (xs : List SelfSend) (x : SelfSend) → length (xs ++ x ∷ []) ≡ suc (length xs)
length-last [] x = refl
length-last (y ∷ ys) x = ap suc (length-last ys x)

recent-some :
    (p : SelfSend → Bool) (n : ℕ) (xs : List SelfSend) → recent p n xs ≡ true → some_of p xs ≡ true
unfolding recent
recent-some p n [] h = h
recent-some p n (x ∷ xs) h = ground (arith, recent-some p n xs)

recent-last :
    (p : SelfSend → Bool) (xs : List SelfSend) (x : SelfSend)
    → p x ≡ true
    → recent p 0 (xs ++ x ∷ []) ≡ true
unfolding recent
recent-last p [] x h = rw h refl
recent-last p (y ∷ ys) x h = or_right (p y && _) _ (recent-last p ys x h)

-- One more row, whichever it is
recent-next :
    (p : SelfSend → Bool) (n : ℕ) (xs : List SelfSend) (x : SelfSend)
    → recent p n xs ≡ true
    → recent p (suc n) (xs ++ x ∷ []) ≡ true
unfolding recent
recent-next p n [] x h = absurd (false≢true h)
recent-next p n (y ∷ ys) x h = ground (arith, length-last ys x, recent-next p n ys x)

recent-suc :
    (p : SelfSend → Bool) (n : ℕ) (xs : List SelfSend)
    → recent p n xs ≡ true
    → recent p (suc n) xs ≡ true
unfolding recent
recent-suc p n [] h = h
recent-suc p n (y ∷ ys) h = ground (arith, recent-suc p n ys)

-- The oldest row may go, if it is further away.
recent-drop :
    (p : SelfSend → Bool) (n : ℕ) (xs : List SelfSend)
    → recent p n xs ≡ true
    → suc n < length xs
    → recent p n (drop 1 xs) ≡ true
unfolding recent
recent-drop p n [] h l = h
recent-drop p n (y ∷ ys) h l = ground arith

-- What `_classify_sent_by` reads of a message
pub record Message : Type 0 where
  pub role : String
  pub content : String
  pub account : String
  pub buyer_id : String
  pub is_history : Bool

-- The sends are noted one after the other.
unfoldable pub note_all : List SelfSend → Agent → Agent
unfolding note_self_send
note_all [] a = a
note_all (r ∷ more) a = note_all more (note_self_send r.ts r.account r.buyer_id r.content a)

module _ (similar : String → String → Bool) where
  -- One row of the buffer; a `window` of 0 stands for one that is not positive.
  unfoldable pub is_own : ℕ → ℕ → Message → SelfSend → Bool
  unfolding same_sent_text same_seat
  is_own window now m row =
      not (ltb 0 window && ltb window (now - row.ts))
      && (is_blank row.account || is_blank m.account || same_seat row.account m.account)
      && (is_blank row.buyer_id || is_blank m.buyer_id || str_eq row.buyer_id m.buyer_id)
      && same_sent_text similar row.content m.content

  -- `_classify_sent_by`
  unfoldable pub classify_sent_by : ℕ → ℕ → Message → List SelfSend → String
  unfolding is_own
  classify_sent_by window now m rows =
      if not (str_eq m.role "mall_cs")
      then ""
      else if is_blank m.content
      then ""
      else if some_of (is_own window now m) rows
      then "agent"
      else if m.is_history
      then ""
      else "human"

  row_of : ℕ → String → String → String → SelfSend
  row_of now account buyer content = record {
    account = account;
    buyer_id = buyer;
    content = content;
    ts = now;
  }

  noted :
      (p : SelfSend → Bool) (now : ℕ) (account buyer content : String) (a : Agent)
      → is_blank (sent_text_key content) ≡ false
      → p (row_of now account buyer content) ≡ true
      → recent p 0 (note_self_send now account buyer content a).self_sends ≡ true
  unfolding note_self_send row_of
  noted p now account buyer content a text h =
      let row = row_of now account buyer content in
      let rows = a.self_sends ++ row ∷ [] in
      let own = recent-last p a.self_sends row h in
      rw text (
        if_ind (λ (rs : List SelfSend). recent p 0 rs ≡ true) (ltb 400 (length rows)) _ _
          (λ full. recent-drop p 0 rows own (ground (arith, full))) (λ room. own))

  -- A later send pushes out no row that has fewer than 399 rows behind it.
  noted_later :
      (p : SelfSend → Bool) (n now : ℕ) (account buyer content : String) (a : Agent)
      → n < 399
      → recent p n a.self_sends ≡ true
      → recent p (suc n) (note_self_send now account buyer content a).self_sends ≡ true
  unfolding note_self_send row_of
  noted_later p n now account buyer content a few h =
      let row = row_of now account buyer content in
      let rows = a.self_sends ++ row ∷ [] in
      let own = recent-next p n a.self_sends row h in
      if_ind (λ (b : Agent). recent p (suc n) b.self_sends ≡ true)
        (is_blank (sent_text_key content)) _ _ (λ blank. recent-suc p n a.self_sends h)
        (λ some_text.
          if_ind (λ (rs : List SelfSend). recent p (suc n) rs ≡ true) (ltb 400 (length rows)) _ _
            (λ full. recent-drop p (suc n) rows own (ground (arith, full))) (λ room. own))

  all_noted :
      (p : SelfSend → Bool) (n : ℕ) (more : List SelfSend) (a : Agent)
      → length more + n < 400
      → recent p n a.self_sends ≡ true
      → some_of p (note_all more a).self_sends ≡ true
  unfolding note_all
  all_noted p n [] a few h = recent-some p n a.self_sends h
  all_noted p n (r ∷ more) a few h =
      all_noted p (suc n) more (note_self_send r.ts r.account r.buyer_id r.content a)
        (omega (arith, few))
        (noted_later p n r.ts r.account r.buyer_id r.content a (omega (arith, few)) h)

  same_keys_refl : (a b : String) → is_blank a ≡ false → b ≡ a → same_keys similar a b ≡ true
  same_keys_refl a b h e = rw (e, h, eq_refl a) refl

  own_row :
      (window now later : ℕ) (account buyer content : String) (m : Message)
      → is_blank (sent_text_key content) ≡ false
      → sent_text_key m.content ≡ sent_text_key content
      → same_seat account m.account ≡ true
      → m.buyer_id ≡ buyer
      → later ≤ now + window
      → is_own window later m (row_of now account buyer content) ≡ true
  unfolding is_own row_of same_sent_text
  own_row window now later account buyer content m letters same seat to few =
      let text = same_keys_refl (sent_text_key content) (sent_text_key m.content) letters same in
      both _ _
        (both _ _ (both _ _ in_time (or_right (is_blank account || is_blank m.account) _ seat))
          to_buyer)
        text
    where
      in_time : not (ltb 0 window && ltb window (later - now)) ≡ true
      in_time = ground (arith, few)

      to_buyer : (is_blank buyer || is_blank m.buyer_id || str_eq buyer m.buyer_id) ≡ true
      to_buyer =
          or_right (is_blank buyer || is_blank m.buyer_id) _ ((eq_iff buyer m.buyer_id).1 (sym to))

  -- A message of the seat is put down to the agent if the bridge has sent one with the same letters and
  -- digits, of which there is one at least, to the same buyer from an account of the same seat, the time since
  -- then is within the window, and it has tried fewer than 400 sends after it, whatever it has sent before.
  pub own_send_is_agent :
      (window now later : ℕ) (account buyer content : String) (more : List SelfSend) (m : Message)
      (a : Agent)
      → str_eq m.role "mall_cs" ≡ true
      → is_blank m.content ≡ false
      → is_blank (sent_text_key content) ≡ false
      → sent_text_key m.content ≡ sent_text_key content
      → same_seat account m.account ≡ true
      → m.buyer_id ≡ buyer
      → later ≤ now + window
      → length more < 400
      → classify_sent_by window later m
          (note_all more (note_self_send now account buyer content a)).self_sends
        ≡ "agent"
  unfolding classify_sent_by
  own_send_is_agent window now later account buyer content more m a role some_text letters same seat
        to soon few =
      let own = own_row window now later account buyer content m letters same seat to soon in
      let p = is_own window later m in
      let kept =
        all_noted p 0 more (note_self_send now account buyer content a) (omega (arith, few))
          (noted p now account buyer content a letters own) in
      rw (role, some_text, kept) refl
