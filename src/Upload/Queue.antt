-- ===== src/Upload/Queue.antt =====
-- What a flush of bridge/agent.py does to the queue: nothing is lost.
use pdd_bridge_agent.Prelude.{
  ℕ, ◌+◌, Bool, true, false, not, Option, none, some, List, [], ◌∷◌, ◌++◌, String, if◌then◌else◌,
  nat_eq, str_eq, keep, some_of, length, ◌≡◌, refl, sym, subst, ap, ◌∙◌, arith, eq_iff, Bool-cases,
  inl, inr, false≢true,
}
use mathlib.Core.Option.{some-injective, none-ne-some}
use pdd_bridge_agent.Dict
use pdd_bridge_agent.Dict.{Dict}
use pdd_bridge_agent.Dict.Laws
use pdd_bridge_agent.Upload.{
  Event, Uploader, Response, failed, unversioned, answered, Ack, key_of, is_loss, find_sent,
  sent_id, reasons_from, dead_one, losses_of, record_event_loss, stays, attempted, rotate,
  take_answer, end_flush, no_version, take_acks,
}

-- How often an object stands in a queue.
abbrev pub count_of : ℕ → List Event → ℕ
count_of h es = length (keep (λ e. nat_eq e.handle h) es)

count-append : (h : ℕ) (xs ys : List Event) → count_of h (xs ++ ys) ≡ count_of h xs + count_of h ys
count-append h [] ys = omega arith
count-append h (x ∷ xs) ys = ground (arith, count-append h xs ys)

-- To turn some events to the end loses none and doubles none.
count-split :
    (h : ℕ) (p : Event → Bool) (xs : List Event)
    → count_of h (keep (λ e. not (p e)) xs) + count_of h (keep p xs) ≡ count_of h xs
count-split h p [] = omega arith
count-split h p (x ∷ xs) = ground (arith, count-split h p xs)

rotate-count :
    (h monotonic : ℕ) (batch : List Event) (u : Uploader)
    → count_of h (rotate monotonic batch u).pending ≡ count_of h u.pending
unfolding rotate
rotate-count h monotonic batch u =
    count-append h (keep (λ e. not (attempted batch e)) u.pending)
      (keep (attempted batch) u.pending)
    ∙ count-split h (attempted batch) u.pending

keep-all : (es : List Event) → keep (λ e. true) es ≡ es
keep-all [] = refl
keep-all (e ∷ es) = ap (λ (r : List Event). e ∷ r) (keep-all es)

acks-pending :
    (write : Bool) (acks : List Ack) (batch : List Event) (u : Uploader)
    → (take_acks write acks batch u).pending ≡ keep (stays (answered acks) batch) u.pending
unfolding record_event_loss
acks-pending true acks batch u = refl
acks-pending false acks batch u = refl

-- Whatever the center answers, and whatever was queued while the batch was on its way, the queue holds
-- afterwards each event as often as before, apart from those of this batch with a terminal ack; an
-- upload that failed and an answer without a version take nothing from it.
pub flush_loses_nothing :
    (h monotonic : ℕ) (write : Bool) (response : Response) (batch : List Event) (u : Uploader)
    → count_of h (end_flush write monotonic response batch u).pending
      ≡ count_of h (keep (stays response batch) u.pending)
unfolding end_flush take_answer
flush_loses_nothing h monotonic write failed batch u = ap (count_of h) (sym (keep-all u.pending))
flush_loses_nothing h monotonic write unversioned batch u =
    rotate-count h monotonic batch (no_version monotonic u)
    ∙ ap (count_of h) (sym (keep-all u.pending))
flush_loses_nothing h monotonic write (answered acks) batch u =
    rotate-count h monotonic batch (take_acks write acks batch u)
    ∙ ap (count_of h) (acks-pending write acks batch u)

-- A reason that stands for an id is only ever replaced by another.
reasons_from-keeps :
    (batch : List Event) (acks : List Ack) (d : Dict String) (id : String)
    → Dict.has_value (Dict.get d id) ≡ true
    → Dict.has_value (Dict.get (reasons_from batch acks d) id) ≡ true
unfolding reasons_from
reasons_from-keeps batch [] d id h = h
reasons_from-keeps batch (a ∷ rest) d id h =
    let d' = Dict.put d (sent_id (find_sent a.event_id batch)) a.reason in
    reasons_from-keeps batch rest d' id
      (ground (arith, Laws.get-put d (sent_id (find_sent a.event_id batch)) id a.reason))

reasons_from-has :
    (batch : List Event) (acks : List Ack) (d : Dict String) (e : Event)
    → find_sent e.event_id batch ≡ some e
    → some_of (λ a. str_eq a.event_id e.event_id) acks ≡ true
    → Dict.has_value (Dict.get (reasons_from batch acks d) e.event_id) ≡ true
unfolding reasons_from
reasons_from-has batch [] d e f h = absurd (false≢true h)
reasons_from-has batch (a ∷ rest) d e f h = elim (Bool-cases (str_eq a.event_id e.event_id)) [
  | inl same ↦
      let there : sent_id (find_sent a.event_id batch) ≡ e.event_id =
        ap (λ (i : String). sent_id (find_sent i batch)) ((eq_iff a.event_id e.event_id).0 same)
        ∙ ap sent_id f in
      reasons_from-keeps batch rest _ e.event_id
        (rw there (ap Dict.has_value (Laws.get-put_self d e.event_id a.reason)))
  | inr other ↦ reasons_from-has batch rest _ e f (ground arith)
]

-- The event is among the dead letters.
abbrev pub is_dead : ℕ → List (Event × String) → Bool
is_dead h ds = some_of (λ d. nat_eq d.0.handle h) ds

is_dead-append :
    (h : ℕ) (xs ys : List (Event × String)) → is_dead h ys ≡ true → is_dead h (xs ++ ys) ≡ true
is_dead-append h [] ys k = k
is_dead-append h (x ∷ xs) ys k = ground (arith, is_dead-append h xs ys k)

dead_one-has :
    (e : Event) (o : Option String) (rest : List (Event × String))
    → Dict.has_value o ≡ true
    → is_dead e.handle (dead_one e o rest) ≡ true
dead_one-has e none rest h = absurd (false≢true h)
dead_one-has e (some r) rest h = ground arith

dead_one-rest :
    (b : Event) (h : ℕ) (o : Option String) (rest : List (Event × String))
    → is_dead h rest ≡ true
    → is_dead h (dead_one b o rest) ≡ true
dead_one-rest b h none rest k = k
dead_one-rest b h (some r) rest k = ground arith

-- The event that is found under an id, at the head of the batch or behind it.
head_or_later :
    (reasons : Dict String) (id : String) (b e : Event) (rest : List (Event × String))
    (o : Option Event)
    → (o ≡ some e → is_dead e.handle rest ≡ true)
    → Dict.has_value (Dict.get reasons e.event_id) ≡ true
    → (elim o [ some g ↦ some g | none ↦ if str_eq (key_of b) id then some b else none ]) ≡ some e
    → is_dead e.handle (dead_one b (Dict.get reasons b.event_id) rest) ≡ true
head_or_later reasons id b e rest (some g) later h f =
    dead_one-rest b e.handle (Dict.get reasons b.event_id) rest (later f)
head_or_later reasons id b e rest none later h f = elim (Bool-cases (str_eq (key_of b) id)) [
  | inl key ↦
      let same : b ≡ e = some-injective b e (sym (ap (λ t. if t then some b else none) key) ∙ f) in
      subst (λ (x : Event). is_dead e.handle (dead_one x (Dict.get reasons x.event_id) rest) ≡ true)
        (sym same) (dead_one-has e (Dict.get reasons e.event_id) rest h)
  | inr other ↦ absurd (none-ne-some e (sym (ap (λ t. if t then some b else none) other) ∙ f))
]

losses_of-has :
    (reasons : Dict String) (id : String) (batch : List Event) (e : Event)
    → find_sent id batch ≡ some e
    → Dict.has_value (Dict.get reasons e.event_id) ≡ true
    → is_dead e.handle (losses_of reasons batch) ≡ true
unfolding losses_of find_sent
losses_of-has reasons id [] e f h = cc
losses_of-has reasons id (b ∷ bs) e f h =
    head_or_later reasons id b e (losses_of reasons bs) (find_sent id bs)
      (λ g. losses_of-has reasons id bs e g h) h f

-- An event of the batch, the last one under its id, that the center ignored or rejected, other than as
-- an echo of the plugin, is among the dead letters afterwards, if that file can be written.
pub refused_is_kept :
    (monotonic : ℕ) (acks : List Ack) (batch : List Event) (u : Uploader) (e : Event)
    → find_sent e.event_id batch ≡ some e
    → some_of (λ a. str_eq a.event_id e.event_id) (keep is_loss acks) ≡ true
    → is_dead e.handle (end_flush true monotonic (answered acks) batch u).dead_letters ≡ true
unfolding end_flush take_answer rotate record_event_loss
refused_is_kept monotonic acks batch u e f h = is_dead-append e.handle u.dead_letters _ (
    losses_of-has (reasons_from batch (keep is_loss acks) []) e.event_id batch e f
      (reasons_from-has batch (keep is_loss acks) [] e f h))
