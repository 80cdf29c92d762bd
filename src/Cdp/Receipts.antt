-- ===== src/Cdp/Receipts.antt =====
-- Which sends of bridge/pddbridge_source.py a receipt confirms, and which it misses.
use pdd_bridge_agent.Prelude.{
  ℕ, Bool, true, false, List, [], ◌∷◌, String, str_eq, nat_eq, ◌≡◌, refl, sym, arith, if_ind,
  false≢true, or_right,
}
use pdd_bridge_agent.Dict
use pdd_bridge_agent.Dict.{Dict}
use pdd_bridge_agent.Upload.Batches.{Every, append-Every, Every-map}
use pdd_bridge_agent.Center.Answers.{put-Every}
use pdd_bridge_agent.Cdp.{
  Work, idle, asking, handing, calling, Send, Source, Result, expired, not_ready, no_session,
  other_shop, call_failed, direct, confirmed, take_actions, finish_send, end_wait, has_handle,
  is_resolved, send_key, take_if, call_returns, handed_on, resolve,
}
use pdd_bridge_agent.Cdp.Sends.{
  Move, submits, takes, performs, page_answers, direct_answers, returns, receives, gives_up, step,
  is_confirmed, perform_ind, receipt_ind, page_ind, direct_ind,
}

pub remove-Every :
    {V : Type 0} (P : String × V → Type 0) (d : Dict V) (k : String)
    → Every P d
    → Every P (Dict.remove d k)
unfolding Dict.remove
remove-Every P [] k h = tt
remove-Every P ((j, v) ∷ d) k h =
    if_ind (Every P) (str_eq j k) _ _ (λ e. remove-Every P d k h.1)
      (λ e. (h.0, remove-Every P d k h.1))

-- The text of each send that waits for a receipt, of the one whose call runs, and of each one that was confirmed
-- was handed on.
abbrev pub Told : List ℕ → ℕ × Result → Type 0
Told calls (h, confirmed b) = has_handle h calls ≡ true
Told calls (h, _) = Unit

abbrev pub Called : List ℕ → String × Send → Type 0
Called calls e = has_handle e.1.handle calls ≡ true

abbrev pub Running : List ℕ → Work → Type 0
Running calls (handing x) = has_handle x.handle calls ≡ true
Running calls (calling x) = has_handle x.handle calls ≡ true
Running calls _ = Unit

pub record IsCalled (s : Source) : Type 0 where
  pub waiting : Every (Called s.calls) s.pending
  pub running : Running s.calls s.work
  pub told : Every (Told s.calls) s.results

more-Told : (h : ℕ) (calls : List ℕ) (r : ℕ × Result) → Told calls r → Told (h ∷ calls) r
more-Told h calls (k, confirmed b) t = or_right (nat_eq h k) _ t
more-Told h calls (k, expired) t = tt
more-Told h calls (k, not_ready) t = tt
more-Told h calls (k, no_session) t = tt
more-Told h calls (k, other_shop) t = tt
more-Told h calls (k, call_failed) t = tt
more-Told h calls (k, direct a) t = tt

no-Told : (h : ℕ) (calls : List ℕ) (r : Result) → is_confirmed r ≡ false → Told calls (h, r)
no-Told h calls (confirmed b) e = absurd (false≢true (sym e))
no-Told h calls expired e = tt
no-Told h calls not_ready e = tt
no-Told h calls no_session e = tt
no-Told h calls other_shop e = tt
no-Told h calls call_failed e = tt
no-Told h calls (direct a) e = tt

has_handle_self : (h : ℕ) (calls : List ℕ) → has_handle h (h ∷ calls) ≡ true
has_handle_self h calls = ground arith

more-Told_all :
    (h : ℕ) (calls : List ℕ) (rs : List (ℕ × Result))
    → Every (Told calls) rs
    → Every (Told (h ∷ calls)) rs
more-Told_all h calls rs t = Every-map (Told calls) (Told (h ∷ calls)) rs (more-Told h calls) t

more-Called_all :
    (h : ℕ) (calls : List ℕ) (d : Dict Send) → Every (Called calls) d → Every (Called (h ∷ calls)) d
more-Called_all h calls d t =
    Every-map (Called calls) (Called (h ∷ calls)) d (λ e c. or_right (nat_eq h e.1.handle) _ c) t

-- The text of a send is handed on once more.
all-IsCalled :
    (x : Send) (next : Work) (s : Source)
    → Running (x.handle ∷ s.calls) next
    → IsCalled s
    → IsCalled (record s { calls = x.handle ∷ s.calls; work = next })
all-IsCalled x next s r h = record {
  waiting = more-Called_all x.handle s.calls s.pending h.waiting;
  running = r;
  told = more-Told_all x.handle s.calls s.results h.told;
}

handed_on-IsCalled :
    (direct_way : Bool) (x : Send) (s : Source) → IsCalled s → IsCalled (handed_on direct_way x s)
handed_on-IsCalled true x s h = all-IsCalled x (handing x) s (has_handle_self x.handle s.calls) h
handed_on-IsCalled false x s h = all-IsCalled x (calling x) s (has_handle_self x.handle s.calls) h

resolve-IsCalled :
    (n : ℕ) (r : Result) (rest : List Send) (s : Source)
    → is_confirmed r ≡ false
    → IsCalled s
    → IsCalled (resolve n r (record s { acts = rest }))
resolve-IsCalled n r rest s u h = record {
  waiting = h.waiting;
  running = tt;
  told = append-Every (Told s.calls) s.results ((n, r) ∷ []) h.told (no-Told n s.calls r u, tt);
}

pub step-IsCalled : (m : Move) (s : Source) → IsCalled s → IsCalled (step m s)
unfolding step finish_send end_wait take_actions
step-IsCalled (submits x) s h = record { waiting = h.waiting; running = h.running; told = h.told }
step-IsCalled takes s h = taken s.acts
  where
    taken : (l : List Send) → IsCalled (take_if l s)
    taken [] = record { waiting = h.waiting; running = h.running; told = h.told }
    taken (x ∷ l) = h
step-IsCalled (performs w) s h =
    perform_ind IsCalled w s h (λ x rest r u. resolve-IsCalled x.handle r rest s u h)
      (λ x rest. record { waiting = h.waiting; running = tt; told = h.told })
step-IsCalled (page_answers w) s h =
    page_ind IsCalled w s h (λ x e r u. resolve-IsCalled x.handle r s.acts s u h)
      (λ x e f. handed_on-IsCalled w.has_direct x s h)
step-IsCalled (direct_answers o) s h =
    direct_ind IsCalled o s h (λ x e a. resolve-IsCalled x.handle (direct a) s.acts s refl h)
      (λ x e. all-IsCalled x (calling x) s (has_handle_self x.handle s.calls) h)
step-IsCalled (returns ok) s h = back s.work h.running
  where
    back : (c : Work) → Running s.calls c → IsCalled (call_returns ok c s)
    back idle r = h
    back (asking x) r = h
    back (handing x) r = h
    back (calling x) r =
        if_ind IsCalled ok _ _
          (λ e. record {
            waiting = put-Every (Called s.calls) s.pending (send_key x) x r h.waiting;
            running = tt;
            told = h.told;
          })
          (λ e. resolve-IsCalled x.handle call_failed s.acts s refl h)
step-IsCalled (receives uid content) s h = receipt_ind IsCalled uid content s h (λ key x i f.
    record {
      waiting = remove-Every (Called s.calls) s.pending key h.waiting;
      running = h.running;
      told = append-Every (Told s.calls) s.results _ h.told (f (Called s.calls) h.waiting, tt);
    })
step-IsCalled (gives_up x) s h =
    if_ind IsCalled (is_resolved x.handle s) _ _ (λ e. h)
      (λ e. record {
        waiting = remove-Every (Called s.calls) s.pending (send_key x) h.waiting;
        running = h.running;
        told = h.told;
      })
