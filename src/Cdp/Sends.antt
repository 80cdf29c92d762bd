-- ===== src/Cdp/Sends.antt =====
-- What the sends of bridge/pddbridge_source.py promise, over any sequence of moves of the callers, the thread of
-- the source and the frames that come in.
use pdd_bridge_agent.Prelude.{
  ℕ, Bool, true, false, not, ◌||◌, Option, none, some, List, [], ◌∷◌, String, nat_eq, length, keep,
  ◌≡◌, ◌⊎◌, inl, inr, refl, sym, ap, subst, ◌∙◌, arith, Bool-cases, if_ind, false≢true, or_right,
}
use pdd_bridge_agent.Dict
use pdd_bridge_agent.Dict.{Dict}
use pdd_bridge_agent.Upload.Batches.{Every, keep-Every}
use pdd_bridge_agent.Center.Answers.{get-Every}
use pdd_bridge_agent.Cdp.{
  Work, idle, asking, handing, calling, is_expired, page_tells, page_told, direct_returns,
  direct_returned, Send, Source, Session, World, Result, expired, not_ready, no_session, other_shop,
  direct, confirmed, submit, take_actions, perform, finish_send, handle_send_receipt, end_wait,
  do_send, session_for_send, has_handle, is_resolved, key_of, has_content, take_if, is_other_shop,
  confirm_only, confirm_found, next_action, in_session, call_returns, handed_on, confirm, resolve,
}

-- A caller submits a send or stops waiting for it, the thread takes the queue, hands a send on or has the page tell its shop, the direct way answer, or its call
-- return, or a receipt comes in.
pub data Move : Type 0 where
  submits : Send → Move
  takes : Move
  performs : World → Move
  page_answers : World → Move
  direct_answers : Option ℕ → Move
  returns : Bool → Move
  receives : String → String → Move
  gives_up : Send → Move

unfoldable pub step : Move → Source → Source
step (submits x) s = submit x s
step takes s = take_actions s
step (performs w) s = perform w s
step (page_answers w) s = page_tells w s
step (direct_answers o) s = direct_returns o s
step (returns ok) s = finish_send ok s
step (receives uid content) s = handle_send_receipt uid content s
step (gives_up x) s = end_wait x s

unfoldable pub run : List Move → Source → Source
unfolding step
run [] s = s
run (m ∷ ms) s = run ms (step m s)

-- What every move keeps, every sequence of moves keeps.
module _ (P : Source → Type 0) (keeps : (m : Move) (s : Source) → P s → P (step m s)) where
  pub run_ind : (ms : List Move) (s : Source) → P s → P (run ms s)
  unfolding run
  run_ind [] s h = h
  run_ind (m ∷ ms) s h = run_ind ms (step m s) (keeps m s h)

abbrev pub calls_of : ℕ → Source → ℕ
calls_of h s = length (keep (λ n. nat_eq n h) s.calls)

-- What is given to an event that is not confirmed
abbrev pub is_confirmed : Result → Bool
is_confirmed (confirmed b) = true
is_confirmed _ = false

-- A property of every way out of `_do_send` up to the question to the page
pub perform_ind :
    (P : Source → Type 0) (w : World) (s : Source)
    → P s
    → ((x : Send) (rest : List Send) (r : Result)
        → is_confirmed r ≡ false
        → P (resolve x.handle r (record s { acts = rest })))
    → ((x : Send) (rest : List Send) → P (record s { acts = rest; work = asking x }))
    → P (perform w s)
unfolding perform do_send
perform_ind P w s same told asked = next s.acts s.work
  where
    at :
        (x : Send) (rest : List Send) (c : Option Session)
        → P (in_session w x c (record s { acts = rest }))
    at x rest none = told x rest no_session refl
    at x rest (some page) =
        if_ind P (is_expired w x (record s { acts = rest })) _ _ (λ e. told x rest expired refl)
          (λ e.
            if_ind P (not s.is_listening) _ _ (λ f. told x rest not_ready refl) (λ f. asked x rest))

    next : (l : List Send) (c : Work) → P (next_action w l c s)
    next [] c = same
    next (x ∷ rest) idle = at x rest (session_for_send x.account s.sessions)
    next (x ∷ rest) (asking y) = same
    next (x ∷ rest) (handing y) = same
    next (x ∷ rest) (calling y) = same

-- The text is handed on only if the event is not cancelled.
pub page_ind :
    (P : Source → Type 0) (w : World) (s : Source)
    → P s
    → ((x : Send)
        → s.work ≡ asking x
        → (r : Result) → is_confirmed r ≡ false
        → P (resolve x.handle r s))
    → ((x : Send)
        → s.work ≡ asking x
        → has_handle x.handle s.cancelled ≡ false
        → P (handed_on w.has_direct x s))
    → P (page_tells w s)
unfolding page_tells
page_ind P w s same told handed = next s.work refl
  where
    or_false : (a b : Bool) → (a || b) ≡ false → a ≡ false
    or_false true b h = h
    or_false false b h = refl

    next : (c : Work) → s.work ≡ c → P (page_told w c s)
    next idle e = same
    next (handing x) e = same
    next (calling x) e = same
    next (asking x) e =
        if_ind P (is_other_shop w.page_mall x.account) _ _ (λ d. told x e other_shop refl)
          (λ d.
            if_ind P (is_expired w x s) _ _ (λ l. told x e expired refl)
              (λ l. handed x e (or_false (has_handle x.handle s.cancelled) w.is_late l)))

pub direct_ind :
    (P : Source → Type 0) (o : Option ℕ) (s : Source)
    → P s
    → ((x : Send) → s.work ≡ handing x → (a : ℕ) → P (resolve x.handle (direct a) s))
    → ((x : Send)
        → s.work ≡ handing x
        → P (record s { calls = x.handle ∷ s.calls; work = calling x }))
    → P (direct_returns o s)
unfolding direct_returns
direct_ind P o s same told called = next o s.work refl
  where
    next : (b : Option ℕ) (c : Work) → s.work ≡ c → P (direct_returned b c s)
    next (some a) (handing x) e = told x e a
    next none (handing x) e = called x e
    next (some a) idle e = same
    next none idle e = same
    next (some a) (asking x) e = same
    next none (asking x) e = same
    next (some a) (calling x) e = same
    next none (calling x) e = same

-- The key of the receipt, or its text
abbrev pub IsOf : String → String → String → Send → Type 0
IsOf uid content key x = (key ≡ key_of uid content) ⊎ (has_content content (key, x) ≡ true)

abbrev Any : String × Send → Type 0
Any z = Unit

-- A receipt changes nothing, or it confirms a pending send that has its key or its text.
pub receipt_ind :
    (P : Source → Type 0) (uid content : String) (s : Source)
    → P s
    → ((key : String) (x : Send)
        → IsOf uid content key x
        → ((Q : String × Send → Type 0) → Every Q s.pending → Q (key, x))
        → P (confirm uid key x s))
    → P (handle_send_receipt uid content s)
unfolding handle_send_receipt
receipt_ind P uid content s same found = by_key (Dict.get s.pending (key_of uid content)) refl
  where
    by_text : (l : Dict Send) → keep (has_content content) s.pending ≡ l → P (confirm_only uid l s)
    by_text [] e = same
    by_text ((key, x) ∷ y ∷ l) e = same
    by_text ((key, x) ∷ []) e =
        let R = λ (Q : String × Send → Type 0). λ (t : Every Q s.pending).
          subst (Every Q) e (keep-Every Q Q (has_content content) s.pending (λ z p q. q) t) in
        let H = λ (z : String × Send). has_content content z ≡ true in
        found key x
          (inr
            (subst (Every H) e
              (keep-Every H Any (has_content content) s.pending (λ z p q. p) (all s.pending))).0)
          (λ Q t. (R Q t).0)
      where
        all : (l : Dict Send) → Every Any l
        all [] = tt
        all (z ∷ l) = (tt, all l)

    by_key :
        (o : Option Send)
        → Dict.get s.pending (key_of uid content) ≡ o
        → P (confirm_found uid content o s)
    by_key none e = by_text (keep (has_content content) s.pending) refl
    by_key (some x) e =
        found (key_of uid content) x (inl refl)
          (λ Q t. get-Every Q s.pending (key_of uid content) x e t)

-- The text of the event's send was handed on, and the direct way or the page has it.
abbrev pub is_out : ℕ → Work → Bool
is_out h (handing x) = nat_eq x.handle h
is_out h (calling x) = nat_eq x.handle h
is_out h _ = false

-- The event is cancelled, its text is in no one's hands, and it was handed on that many times.
abbrev IsOver : ℕ → ℕ → Source → Type 0
IsOver h n s = (has_handle h s.cancelled ≡ true) × (is_out h s.work ≡ false) × (calls_of h s ≡ n)

module _ (h n : ℕ) where
  -- The text of another send is handed on.
  calls-other :
      (k : ℕ) (s : Source)
      → nat_eq k h ≡ false
      → calls_of h s ≡ n
      → length (keep (λ m. nat_eq m h) (k ∷ s.calls)) ≡ n
  calls-other k s other e =
      ap
        (λ (b : Bool). length (elim b [
          | true ↦ k ∷ keep (λ m. nat_eq m h) s.calls
          | false ↦ keep (λ m. nat_eq m h) s.calls
        ]))
        other
      ∙ e

  handed_on-IsOver :
      (direct_way : Bool) (x : Send) (s : Source)
      → has_handle x.handle s.cancelled ≡ false
      → IsOver h n s
      → IsOver h n (handed_on direct_way x s)
  handed_on-IsOver d x s f (c, o, e) = elim (Bool-cases (nat_eq x.handle h)) [
    | inl same ↦
        let eq : x.handle ≡ h = ground (arith, same) in
        absurd (false≢true (sym f ∙ ap (λ (k : ℕ). has_handle k s.cancelled) eq ∙ c))
    | inr other ↦ at d other
  ]
    where
      at : (b : Bool) → nat_eq x.handle h ≡ false → IsOver h n (handed_on b x s)
      at true other = (c, other, calls-other x.handle s other e)
      at false other = (c, other, calls-other x.handle s other e)

  step-IsOver : (m : Move) (s : Source) → IsOver h n s → IsOver h n (step m s)
  unfolding step finish_send end_wait take_actions
  step-IsOver (submits x) s o = o
  step-IsOver takes s o = taken s.acts
    where
      taken : (l : List Send) → IsOver h n (take_if l s)
      taken [] = o
      taken (x ∷ l) = o
  step-IsOver (performs w) s o =
      perform_ind (IsOver h n) w s o (λ x rest r u. (o.0, refl, o.2)) (λ x rest. (o.0, refl, o.2))
  step-IsOver (page_answers w) s o =
      page_ind (IsOver h n) w s o (λ x e r u. (o.0, refl, o.2))
        (λ x e f. handed_on-IsOver w.has_direct x s f o)
  step-IsOver (direct_answers a) s o =
      direct_ind (IsOver h n) a s o (λ x e b. (o.0, refl, o.2))
        (λ x e.
          let other : nat_eq x.handle h ≡ false = ap (is_out h) (sym e) ∙ o.1 in
          (o.0, other, calls-other x.handle s other o.2))
  step-IsOver (returns ok) s o = back s.work
    where
      back : (c : Work) → IsOver h n (call_returns ok c s)
      back idle = o
      back (asking x) = o
      back (handing x) = o
      back (calling x) = if_ind (IsOver h n) ok _ _ (λ e. (o.0, refl, o.2)) (λ e. (o.0, refl, o.2))
  step-IsOver (receives uid content) s o = receipt_ind (IsOver h n) uid content s o (λ key x i f. o)
  step-IsOver (gives_up x) s o =
      if_ind (IsOver h n) (is_resolved x.handle s) _ _ (λ e. o)
        (λ e. (or_right (nat_eq x.handle h) _ o.0, o.1, o.2))

-- The text of a send whose caller has stopped waiting without a result is not handed on any more, whatever comes
-- after, unless it is already in the hands of the direct way or of the page.
pub given_up_is_not_sent :
    (ms : List Move) (h : ℕ) (s : Source)
    → has_handle h s.cancelled ≡ true
    → is_out h s.work ≡ false
    → calls_of h (run ms s) ≡ calls_of h s
given_up_is_not_sent ms h s c o =
    (run_ind (IsOver h (calls_of h s)) (step-IsOver h (calls_of h s)) ms s (c, o, refl)).2
