-- ===== src/Cdp/Confirms.antt =====
-- What a receipt that bridge/pddbridge_source.py gets confirms, after any run.
use pdd_bridge_agent.Prelude.{
  Bool, true, false, not, Option, none, some, List, [], ◌∷◌, ◌++◌, String, nat_eq, if◌then◌else◌,
  keep, ◌≡◌, ◌⊎◌, inl, inr, refl, sym, ap, subst, ◌∙◌, eq_iff, if_ind,
}
use pdd_bridge_agent.Text.{or_text}
use pdd_bridge_agent.Dict
use pdd_bridge_agent.Dict.{Dict}
use pdd_bridge_agent.Dict.Laws
use pdd_bridge_agent.Upload.Batches.{Every}
use pdd_bridge_agent.Intake.Cover.{Has}
use pdd_bridge_agent.Center.Answers.{put-Every, all-Has}
use pdd_bridge_agent.Cdp.{
  Work, idle, asking, handing, calling, Send, Source, Session, confirmed, take_actions, finish_send,
  handle_send_receipt, end_wait, has_handle, is_resolved, send_key, key_of, has_content,
  first_chars, take_if, call_returns, handed_on, confirm_only, confirm_found,
}
use pdd_bridge_agent.Cdp.Sends.{
  Move, submits, takes, performs, page_answers, direct_answers, returns, receives, gives_up, step,
  run, run_ind, perform_ind, receipt_ind, IsOf, page_ind, direct_ind,
}
use pdd_bridge_agent.Cdp.Receipts.{remove-Every, IsCalled, step-IsCalled, Called}

-- A source that has sent nothing yet
abbrev pub new_source : Bool → List Session → Source
new_source listening sessions = record {
  sessions = sessions;
  is_listening = listening;
  queued = [];
  acts = [];
  work = idle;
  pending = [];
  cancelled = [];
  calls = [];
  results = [];
}

abbrev Keyed : String × Send → Type 0
Keyed e = e.0 ≡ send_key e.1

abbrev IsKeyed : Source → Type 0
IsKeyed s = Every Keyed s.pending

handed_on-IsKeyed :
    (direct_way : Bool) (x : Send) (s : Source) → IsKeyed s → IsKeyed (handed_on direct_way x s)
handed_on-IsKeyed true x s h = h
handed_on-IsKeyed false x s h = h

step-IsKeyed : (m : Move) (s : Source) → IsKeyed s → IsKeyed (step m s)
unfolding step finish_send end_wait take_actions
step-IsKeyed (submits x) s h = h
step-IsKeyed takes s h = taken s.acts
  where
    taken : (l : List Send) → IsKeyed (take_if l s)
    taken [] = h
    taken (x ∷ l) = h
step-IsKeyed (performs w) s h = perform_ind IsKeyed w s h (λ x rest r u. h) (λ x rest. h)
step-IsKeyed (page_answers w) s h =
    page_ind IsKeyed w s h (λ x e r u. h) (λ x e f. handed_on-IsKeyed w.has_direct x s h)
step-IsKeyed (direct_answers o) s h = direct_ind IsKeyed o s h (λ x e a. h) (λ x e. h)
step-IsKeyed (returns ok) s h = back s.work
  where
    back : (c : Work) → IsKeyed (call_returns ok c s)
    back idle = h
    back (asking x) = h
    back (handing x) = h
    back (calling x) =
        if_ind IsKeyed ok _ _ (λ e. put-Every Keyed s.pending (send_key x) x refl h) (λ e. h)
step-IsKeyed (receives uid content) s h =
    receipt_ind IsKeyed uid content s h (λ key x i f. remove-Every Keyed s.pending key h)
step-IsKeyed (gives_up x) s h =
    if_ind IsKeyed (is_resolved x.handle s) _ _ (λ e. h)
      (λ e. remove-Every Keyed s.pending (send_key x) h)

-- Nothing has changed, or one of the records that waited was confirmed: its send was handed on before, the
-- record has the key of the receipt or its text the same first 48 characters, and it waits no more.
abbrev pub ConfirmsOwn : String → String → Source → Source → Type 0
ConfirmsOwn uid content s t =
    (t ≡ s)
    ⊎ ((x : Send) × Has (λ e. e ≡ (send_key x, x)) s.pending
        × (t.results ≡ s.results ++ (x.handle, confirmed (or_text x.uid uid)) ∷ [])
        × (t.pending ≡ Dict.remove s.pending (send_key x))
        × (has_handle x.handle s.calls ≡ true)
        × ((send_key x ≡ key_of uid content) ⊎ (first_chars 48 x.content ≡ first_chars 48 content)))

-- After any run of a new source, a receipt changes nothing, or it confirms one of the sends that wait for a
-- receipt, and takes its record away: the text of that send was handed on before, and the send has the
-- key of the receipt or a text with the same first 48 characters.
pub receipt-ConfirmsOwn :
    (ms : List Move) (listening : Bool) (sessions : List Session) (uid content : String)
    → let s = run ms (new_source listening sessions) in
      ConfirmsOwn uid content s (handle_send_receipt uid content s)
receipt-ConfirmsOwn ms listening sessions uid content =
    let start = new_source listening sessions in
    let s = run ms start in
    let keyed = run_ind IsKeyed step-IsKeyed ms start tt in
    let called =
      run_ind IsCalled step-IsCalled ms start (record { waiting = tt; running = tt; told = tt }) in
    receipt_ind (ConfirmsOwn uid content s) uid content s (inl refl) (λ key x i f.
      let k = f Keyed keyed in
      inr (
        x,
        subst (λ (t : String). Has (λ e. e ≡ (t, x)) s.pending) k
            (f (λ e. Has (λ y. y ≡ e) s.pending) (all-Has s.pending)),
        refl,
        ap (Dict.remove s.pending) k,
        f (Called s.calls) called.waiting,
        own key x k i,
      ))
  where
    own :
        (key : String) (x : Send)
        → key ≡ send_key x
        → IsOf uid content key x
        → (send_key x ≡ key_of uid content) ⊎ (first_chars 48 x.content ≡ first_chars 48 content)
    own key x k (inl e) = inl (sym k ∙ e)
    own key x k (inr e) = inr ((eq_iff (first_chars 48 x.content) (first_chars 48 content)).0 e)

-- If two sends have the same buyer and the same beginning of their texts, and the second one waits for its receipt,
-- its receipt confirms the second, but the end of the wait for the first takes that record away: after it the same
-- receipt changes nothing for anyone, if no other send with this text waits.
pub end_of_first_loses_second :
    (a b : Send) (s : Source)
    → send_key a ≡ send_key b
    → Dict.get s.pending (send_key b) ≡ some b
    → is_resolved a.handle s ≡ false
    → keep (has_content b.content) (Dict.remove s.pending (send_key b)) ≡ []
    → ((handle_send_receipt b.uid b.content s).results
        ≡ s.results ++ (b.handle, confirmed (or_text b.uid b.uid)) ∷ [])
      × ((handle_send_receipt b.uid b.content (end_wait a s)).results ≡ s.results)
unfolding handle_send_receipt end_wait
end_of_first_loses_second a b s same waits unresolved alone =
    let left = record s {
      cancelled = a.handle ∷ s.cancelled;
      queued = keep (λ (y : Send). not (nat_eq y.handle a.handle)) s.queued;
      pending = Dict.remove s.pending (send_key a);
    } in
    let p = left.pending in
    let gone : Dict.get p (send_key b) ≡ none =
      ap (λ (k : String). Dict.get (Dict.remove s.pending k) (send_key b)) same
      ∙ Laws.get-remove_self s.pending (send_key b) in
    let none_left : keep (has_content b.content) p ≡ [] =
      ap (λ (k : String). keep (has_content b.content) (Dict.remove s.pending k)) same ∙ alone in
    (
      ap (λ (o : Option Send). (confirm_found b.uid b.content o s).results) waits,
      ap (λ (t : Bool). (handle_send_receipt b.uid b.content (if t then s else left)).results)
            unresolved
          ∙ ap (λ (o : Option Send). (confirm_found b.uid b.content o left).results) gone
          ∙ ap (λ (l : Dict Send). (confirm_only b.uid l left).results) none_left,
    )
