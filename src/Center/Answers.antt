-- ===== src/Center/Answers.antt =====
-- The answers of `send_events` of bridge/center_ws.py over any interleaving of its calls, of several
-- threads, with the frames that come in.
use pdd_bridge_agent.Prelude.{
  ℕ, Bool, true, false, not, ◌&&◌, ◌||◌, Option, none, some, List, [], ◌∷◌, String, str_eq, nat_eq,
  keep, some_of, if◌then◌else◌, ◌≡◌, inl, inr, refl, sym, ap, subst, ◌∙◌, arith, eq_iff, eq_refl,
  Bool-cases, Option-cases, false≢true, or_left, or_right, if_ind, ◌+◌,
}
use mathlib.Core.Option.{some-injective, none-ne-some}
use pdd_bridge_agent.Text.{is_blank}
use pdd_bridge_agent.Json.{Fields, end}
use pdd_bridge_agent.Dict
use pdd_bridge_agent.Dict.{Dict}
use pdd_bridge_agent.Upload.Batches.{Every, keep-Every, Every-map}
use pdd_bridge_agent.Intake.Cover.{Has}
use pdd_bridge_agent.Center.{
  Row, Batch, Channel, Numbers, Size, Sent, Result, id_of, ack_row_for, by_id, new_batch,
  batch_on_ack, take_ack, begin_send, finish_send, on_ack, on_result, drain_results, event_in,
  find_batch, rows_of, put_frames, on_batch, has_id, is_empty, registered, collected, acked,
  row_before, Begun,
}

-- One step of any thread: `send_events` up to its wait, its end, a frame of an ack or of a result,
-- `drain_results`, and a change of the connection
pub data Step : Type 0 where
  begins : Numbers → Size → ℕ → List Fields → Step
  finishes : ℕ → Step
  acks : String → String → String → Step
  reports : Result → Step
  drains : ℕ → Step
  links : Bool → Step

unfoldable pub step : Step → Channel → Channel
unfolding begin_send finish_send on_ack on_result drain_results
step (begins n size h events) c = (begin_send n size h events c).0
step (finishes h) c = (finish_send h c).0
step (acks id status error_code) c = on_ack id status error_code c
step (reports r) c = on_result r c
step (drains limit) c = (drain_results limit c).0
step (links up) c = record c { connected = up }

unfoldable pub run : List Step → Channel → Channel
unfolding step
run [] c = c
run (s ∷ rest) c = run rest (step s c)

-- `__init__`
unfoldable pub new_channel : Channel
new_channel = record {
  connected = false;
  sequence = 0;
  owner = [];
  batches = [];
  outbound = [];
  results = [];
  frames_sent = 0;
  acks_received = 0;
  results_received = 0;
}

abbrev is_ack : String → String → String → Step → Bool
is_ack id status error_code (acks i s e) = str_eq i id && str_eq s status && str_eq e error_code
is_ack id status error_code _ = false

-- An ack with these fields came in.
abbrev pub heard : String → String → String → List Step → Bool
heard id status error_code = some_of (is_ack id status error_code)

not_or : (a b : Bool) → (not a || b) ≡ false → a ≡ true
not_or true b h = refl
not_or false b h = sym h

-- `send_events` was called with the event, for the waiter with the handle.
abbrev pub BeganWith : ℕ → Fields → Step → Type 0
BeganWith h e (begins n size handle es) = (handle ≡ h) × Has (λ x. x ≡ e) es
BeganWith h e _ = ⊥

-- The row was made of an ack that came in for its event, which is one of those that the call was given.
abbrev pub IsBacked : List Step → ℕ → Row → Type 0
IsBacked log h r =
    (e : Fields) × (status : String) × (error_code : String) × (r ≡ ack_row_for e status error_code)
    × (heard r.event_id status error_code log ≡ true)
    × Has (BeganWith h e) log

row_id :
    (e : Fields) (status error_code : String) → (ack_row_for e status error_code).event_id ≡ id_of e
unfolding ack_row_for
row_id e status error_code = ground arith

pub put-Every {ℓ κ} :
    {V : Type ℓ} (P : String × V → Type κ) (d : Dict V) (k : String) (v : V)
    → P (k, v)
    → Every P d
    → Every P (Dict.put d k v)
unfolding Dict.put
put-Every P [] k v p h = (p, tt)
put-Every P ((j, w) ∷ d) k v p h = elim (Bool-cases (str_eq j k)) [
  | inl same ↦ rw same (p, h.1)
  | inr other ↦ rw other (h.0, put-Every P d k v p h.1)
]

pub get-Every {ℓ κ} :
    {V : Type ℓ} (P : String × V → Type κ) (d : Dict V) (k : String) (v : V)
    → Dict.get d k ≡ some v
    → Every P d
    → P (k, v)
unfolding Dict.get
get-Every P [] k v e h = absurd (none-ne-some v e)
get-Every P ((j, w) ∷ d) k v e h = elim (Bool-cases (str_eq j k)) [
  | inl same ↦
      let value =
        some-injective w v (sym (ap (λ t. if t then some w else Dict.get d k) same) ∙ e) in
      subst P (λ i. ((eq_iff j k).0 same i, value i)) h.0
  | inr other ↦ get-Every P d k v (sym (ap (λ t. if t then some w else Dict.get d k) other) ∙ e) h.1
]

-- The events of a batch are under their ids, and are those that the call was given.
abbrev Keyed : List Step → ℕ → Dict Fields → Type 0
Keyed log h = Every (λ (x : String × Fields). (id_of x.1 ≡ x.0) × Has (BeganWith h x.1) log)

by_id-Keyed :
    (log : List Step) (h : ℕ) (es : List Fields) (d : Dict Fields)
    → Every (λ e. Has (BeganWith h e) log) es
    → Keyed log h d
    → Keyed log h (by_id es d)
unfolding by_id
by_id-Keyed log h [] d g k = k
by_id-Keyed log h (e ∷ es) d g k =
    by_id-Keyed log h es _ g.1 (put-Every _ d (id_of e) e (refl, g.0) k)

contains-get :
    {V : Type 0} (d : Dict V) (k : String)
    → Dict.contains d k ≡ true
    → (v : V) × (Dict.get d k ≡ some v)
unfolding Dict.contains
contains-get d k h = elim (Option-cases (Dict.get d k)) [
  | inl e ↦ absurd (false≢true (sym (ap Dict.has_value e) ∙ h))
  | inr found ↦ found
]

event_in-Keyed :
    (log : List Step) (h : ℕ) (events : Dict Fields) (id : String)
    → Keyed log h events
    → Dict.contains events id ≡ true
    → (id_of (event_in events id) ≡ id) × Has (BeganWith h (event_in events id)) log
event_in-Keyed log h events id k c =
    let (e, found) = contains-get events id c in
    subst
      (λ (o : Option Fields).
        (id_of (Dict.or_else o end) ≡ id) × Has (BeganWith h (Dict.or_else o end)) log)
      (sym found) (get-Every _ events id e found k)

pub all-Has : {A : Type 0} (xs : List A) → Every (λ e. Has (λ y. y ≡ e) xs) xs
all-Has [] = tt
all-Has (e ∷ xs) = (
  inl refl,
  Every-map (λ z. Has (λ y. y ≡ z) xs) (λ z. Has (λ y. y ≡ z) (e ∷ xs)) xs (λ z h. inr h)
      (all-Has xs),
)

module _ (log : List Step) where
  abbrev Backed : ℕ → Dict Row → Type 0
  Backed h = Every (λ (x : String × Row). IsBacked log h x.1)

  record IsSound (b : Batch) : Type 0 where
    keyed : Keyed log b.handle b.events
    backed : Backed b.handle b.rows

  new_batch-IsSound :
      (h : ℕ) (es : List Fields)
      → Every (λ e. Has (BeganWith h e) log) es
      → IsSound (new_batch h es)
  unfolding new_batch
  new_batch-IsSound h es g = record { keyed = by_id-Keyed log h es [] g tt; backed = tt }

  take_ack-IsSound :
      (id status error_code : String) (b : Batch)
      → heard id status error_code log ≡ true
      → IsSound b
      → IsSound (take_ack id status error_code b)
  unfolding take_ack batch_on_ack
  take_ack-IsSound id status error_code b there h =
      elim (Bool-cases (not (Dict.contains b.events id) || Dict.contains b.rows id)) [
        | inl stays ↦ rw stays h
        | inr new ↦
            let e = event_in b.events id in
            let (own, given) =
              event_in-Keyed log b.handle b.events id h.keyed
                (not_or (Dict.contains b.events id) _ new) in
            let backed : IsBacked log b.handle (ack_row_for e status error_code) = (
              e,
              status,
              error_code,
              refl,
              ap (λ (i : String). heard i status error_code log) (row_id e status error_code ∙ own)
                  ∙ there,
              given,
            ) in
            rw new (record { keyed = h.keyed; backed = put-Every _ b.rows id _ backed h.backed })
      ]

  abbrev Sound : List Batch → Type 0
  Sound = Every IsSound

  on_batch-Sound :
      (h : ℕ) (f : Batch → Batch) (bs : List Batch)
      → ((b : Batch) → IsSound b → IsSound (f b))
      → Sound bs
      → Sound (on_batch h f bs)
  on_batch-Sound h f [] k s = tt
  on_batch-Sound h f (b ∷ bs) k s = (chosen (nat_eq b.handle h), on_batch-Sound h f bs k s.1)
    where
      chosen : (t : Bool) → IsSound (if t then f b else b)
      chosen true = k b s.0
      chosen false = s.0

  registered-Sound :
      (sent : Sent) (b : Batch) (c : Channel)
      → IsSound b
      → Sound c.batches
      → Sound (registered sent b c).0.batches
  registered-Sound sent b c n s =
      if_ind (λ (r : Channel × Begun). Sound r.0.batches) (is_empty sent.frames) _ _ (λ e. s)
        (λ e. (n, s))

  collected-Sound :
      (o : Option Batch) (c : Channel) → Sound c.batches → Sound (collected o c).0.batches
  collected-Sound none c s = s
  collected-Sound (some b) c s =
      keep-Every IsSound IsSound (λ x. not (nat_eq x.handle b.handle)) c.batches (λ x e h. h) s

  acked-Sound :
      (o : Option ℕ) (id status error_code : String) (c : Channel)
      → heard id status error_code log ≡ true
      → Sound c.batches
      → Sound (acked o id status error_code c).batches
  acked-Sound none id status error_code c there s = s
  acked-Sound (some h) id status error_code c there s =
      on_batch-Sound h (take_ack id status error_code) c.batches
        (λ b k. take_ack-IsSound id status error_code b there k) s

  begin-Sound :
      (n : Numbers) (size : Size) (h : ℕ) (es : List Fields) (c : Channel)
      → ((e : Fields) → Has (λ x. x ≡ e) es → Has (BeganWith h e) log)
      → Sound c.batches
      → Sound (begin_send n size h es c).0.batches
  unfolding begin_send
  begin-Sound n size h es c g s =
      let named = keep has_id es in
      let P = λ (r : Channel × Begun). Sound r.0.batches in
      if_ind P (is_empty named) _ _ (λ e. s)
        (λ e.
          if_ind P (not c.connected) _ _ (λ e. s)
            (λ e.
              registered-Sound (put_frames n size c.sequence named) (new_batch h named) c
                (new_batch-IsSound h named (
                  keep-Every (λ e. Has (BeganWith h e) log) (λ e. Has (λ y. y ≡ e) es) has_id es
                    (λ e t m. g e m) (all-Has es)))
                s))

  finish-Sound : (h : ℕ) (c : Channel) → Sound c.batches → Sound (finish_send h c).0.batches
  unfolding finish_send
  finish-Sound h c s = collected-Sound (find_batch h c.batches) c s

  on_ack-Sound :
      (id status error_code : String) (c : Channel)
      → heard id status error_code log ≡ true
      → Sound c.batches
      → Sound (on_ack id status error_code c).batches
  unfolding on_ack
  on_ack-Sound id status error_code c there s = elim (Bool-cases (is_blank id)) [
    | inl blank ↦ rw blank s
    | inr named ↦ rw named (
        acked-Sound (Dict.get c.owner id) id status error_code
          (record c { acks_received = c.acks_received + 1 }) there s)
  ]

  -- The acks of a step are in the log.
  abbrev IsLogged : Step → Type 0
  IsLogged (acks id status error_code) = heard id status error_code log ≡ true
  IsLogged (begins n size h es) = (e : Fields) → Has (λ x. x ≡ e) es → Has (BeganWith h e) log
  IsLogged _ = Unit

  step-Sound : (s : Step) (c : Channel) → IsLogged s → Sound c.batches → Sound (step s c).batches
  unfolding step drain_results on_result
  step-Sound (begins n size h es) c l s = begin-Sound n size h es c l s
  step-Sound (finishes h) c l s = finish-Sound h c s
  step-Sound (acks id status error_code) c l s = on_ack-Sound id status error_code c l s
  step-Sound (reports r) c l s =
      if_ind (λ (x : Channel). Sound x.batches) (is_blank r.event_id) c _ (λ b. s) (λ b. s)
  step-Sound (drains limit) c l s = s
  step-Sound (links up) c l s = s

  run-Sound :
      (steps : List Step) (c : Channel)
      → Every IsLogged steps
      → Sound c.batches
      → Sound (run steps c).batches
  unfolding run
  run-Sound [] c l s = s
  run-Sound (t ∷ rest) c l s = run-Sound rest (step t c) l.1 (step-Sound t c l.0 s)

  row_before-Backed :
      (h : ℕ) (rows : Dict Row) (id : String) (o : Option Row) (rest : List Row)
      → Dict.get rows id ≡ o
      → Backed h rows
      → Every (IsBacked log h) rest
      → Every (IsBacked log h) (row_before o rest)
  row_before-Backed h rows id none rest e k r = r
  row_before-Backed h rows id (some row) rest e k r =
      (get-Every (λ (x : String × Row). IsBacked log h x.1) rows id row e k, r)

  rows_of-Backed :
      (h : ℕ) (events : Dict Fields) (rows : Dict Row)
      → Backed h rows
      → Every (IsBacked log h) (rows_of events rows)
  unfolding rows_of
  rows_of-Backed h [] rows k = tt
  rows_of-Backed h ((id, e) ∷ rest) rows k =
      row_before-Backed h rows id (Dict.get rows id) (rows_of rest rows) refl k
        (rows_of-Backed h rest rows k)

  find-handle : (h : ℕ) (bs : List Batch) (b : Batch) → find_batch h bs ≡ some b → b.handle ≡ h
  unfolding find_batch
  find-handle h [] b e = absurd (none-ne-some b e)
  find-handle h (x ∷ bs) b e = elim (Bool-cases (nat_eq x.handle h)) [
    | inl same ↦
        let found =
          some-injective x b (sym (ap (λ t. if t then some x else find_batch h bs) same) ∙ e) in
        ap (λ (y : Batch). y.handle) (sym found) ∙ ground (arith, same)
    | inr other ↦
        find-handle h bs b (sym (ap (λ t. if t then some x else find_batch h bs) other) ∙ e)
  ]

  find-Sound :
      (h : ℕ) (bs : List Batch) (b : Batch) → Sound bs → find_batch h bs ≡ some b → IsSound b
  unfolding find_batch
  find-Sound h [] b s e = absurd (none-ne-some b e)
  find-Sound h (x ∷ bs) b s e = elim (Bool-cases (nat_eq x.handle h)) [
    | inl same ↦
        subst IsSound
          (some-injective x b (sym (ap (λ t. if t then some x else find_batch h bs) same) ∙ e)) s.0
    | inr other ↦
        find-Sound h bs b s.1 (sym (ap (λ t. if t then some x else find_batch h bs) other) ∙ e)
  ]

  collected-Backed :
      (h : ℕ) (o : Option Batch) (c : Channel)
      → ((b : Batch) → o ≡ some b → (IsSound b) × (b.handle ≡ h))
      → Every (IsBacked log h) (collected o c).1
  collected-Backed h none c f = tt
  collected-Backed h (some b) c f =
      let (sound, handle) = f b refl in
      rows_of-Backed h b.events b.rows (subst (λ (n : ℕ). Backed n b.rows) handle sound.backed)

heard_later : (log : List Step) (t s : Step) → IsLogged log s → IsLogged (t ∷ log) s
heard_later log t (begins n size h es) l = λ e m. inr (l e m)
heard_later log t (finishes h) l = tt
heard_later log t (acks id status error_code) l = or_right (is_ack id status error_code t) _ l
heard_later log t (reports r) l = tt
heard_later log t (drains limit) l = tt
heard_later log t (links up) l = tt

heard_now : (log : List Step) (s : Step) → IsLogged (s ∷ log) s
heard_now log (begins n size h es) = λ e m. inl (refl, m)
heard_now log (finishes h) = tt
heard_now log (acks id status error_code) =
    or_left (is_ack id status error_code (acks id status error_code)) _ (simp eq_refl refl)
heard_now log (reports r) = tt
heard_now log (drains limit) = tt
heard_now log (links up) = tt

IsLogged-later :
    (log : List Step) (t : Step) (steps : List Step)
    → Every (IsLogged log) steps
    → Every (IsLogged (t ∷ log)) steps
IsLogged-later log t [] l = tt
IsLogged-later log t (s ∷ rest) l = (heard_later log t s l.0, IsLogged-later log t rest l.1)

all-IsLogged : (steps : List Step) → Every (IsLogged steps) steps
all-IsLogged [] = tt
all-IsLogged (s ∷ rest) = (heard_now rest s, IsLogged-later rest s rest (all-IsLogged rest))

-- Whatever the threads and the center have done, in any order, each row of an answer of `send_events` was
-- made, for an event with its id that this call was given, of an ack for that id that came in.
pub answer-IsBacked :
    (steps : List Step) (handle : ℕ)
    → Every (IsBacked steps handle) (finish_send handle (run steps new_channel)).1
unfolding finish_send new_channel
answer-IsBacked steps handle =
    let c = run steps new_channel in
    let sound = run-Sound steps steps new_channel (all-IsLogged steps) tt in
    collected-Backed steps handle (find_batch handle c.batches) c
      (λ b e. (find-Sound steps handle c.batches b sound e, find-handle steps handle c.batches b e))
