-- ===== src/Watcher/Flush.antt =====
-- What a flush of bridge/watcher.py keeps, what it lets go, and in which order it delivers.
use mathlib.Core.List.{append_assoc}
use pdd_bridge_agent.Prelude.{
  ℕ, zero, suc, ◌≤◌, Bool, true, false, ◌||◌, Option, none, List, [], ◌∷◌, ◌++◌, String, str_eq,
  leb, if◌then◌else◌, take, keep, ◌≡◌, ◌⊎◌, inl, inr, refl, sym, ap, subst, ◌∙◌, arith, eq_iff,
  Bool-cases, if_ind, false≢true,
}
use pdd_bridge_agent.Dict
use pdd_bridge_agent.Dict.{Dict}
use pdd_bridge_agent.Dict.Laws
use pdd_bridge_agent.Upload.Batches.{Every, take-Every, append-Every, Every-map}
use pdd_bridge_agent.Intake.Cover.{Has}
use pdd_bridge_agent.Watcher.Buffer.{
  Item, Buffer, is_history_duplicate, taken, flush_one, flush_all, insert, sort, ready,
  flush_pending, forget, flush_batch,
}

remove-none :
    (d : Dict Item) (j k : String) → Dict.get d k ≡ none → Dict.get (Dict.remove d j) k ≡ none
remove-none d j k h = ground (arith, Laws.get-remove d j k, h)

Has-append : {A : Type 0} (P : A → Type 0) (xs : List A) (x : A) → P x → Has P (xs ++ x ∷ [])
Has-append P [] x h = inl h
Has-append P (y ∷ ys) x h = inr (Has-append P ys x h)

Has-left : {A : Type 0} (P : A → Type 0) (xs ys : List A) → Has P xs → Has P (xs ++ ys)
Has-left P [] ys h = absurd h
Has-left P (x ∷ xs) ys (inl h) = inl h
Has-left P (x ∷ xs) ys (inr h) = inr (Has-left P xs ys h)

module _ (accepts : Item → Bool) (now : ℕ) where
  -- What is not in the buffer does not come into it.
  one-none :
      (k : String) (x : String × Item) (b : Buffer)
      → Dict.get b.pending k ≡ none
      → Dict.get (flush_one accepts now x b).pending k ≡ none
  unfolding flush_one taken
  one-none k (key, i) b h =
      let P = λ (r : Buffer). Dict.get r.pending k ≡ none in
      if_ind P (is_history_duplicate now i b) _ _ (λ d. remove-none b.pending key k h)
        (λ d. if_ind P (accepts i) _ _ (λ a. remove-none b.pending key k h) (λ a. h))

  all-none :
      (k : String) (batch : Dict Item) (b : Buffer)
      → Dict.get b.pending k ≡ none
      → Dict.get (flush_all accepts now batch b).pending k ≡ none
  unfolding flush_all
  all-none k [] b h = h
  all-none k (x ∷ rest) b h = all-none k rest (flush_one accepts now x b) (one-none k x b h)

  one-gone :
      (key : String) (i : Item) (b : Buffer)
      → accepts i ≡ true
      → Dict.get (flush_one accepts now (key, i) b).pending key ≡ none
  unfolding flush_one taken
  one-gone key i b a =
      let P = λ (r : Buffer). Dict.get r.pending key ≡ none in
      if_ind P (is_history_duplicate now i b) _ _ (λ d. Laws.get-remove_self b.pending key)
        (λ d.
          if_ind P (accepts i) _ _ (λ a. Laws.get-remove_self b.pending key)
            (λ f. absurd (false≢true (sym f ∙ a))))

  all-gone :
      (key : String) (i : Item) (batch : Dict Item) (b : Buffer)
      → Has (λ x. x ≡ (key, i)) batch
      → accepts i ≡ true
      → Dict.get (flush_all accepts now batch b).pending key ≡ none
  unfolding flush_all
  all-gone key i [] b h a = absurd h
  all-gone key i (x ∷ rest) b (inl e) a = all-none key rest (flush_one accepts now x b) (
      subst (λ (y : String × Item). Dict.get (flush_one accepts now y b).pending key ≡ none) (sym e)
        (one-gone key i b a))
  all-gone key i (x ∷ rest) b (inr h) a = all-gone key i rest (flush_one accepts now x b) h a

  -- A message of the flush for which the callback returns is out of the buffer afterwards, whatever the
  -- callbacks of the messages before it do.
  pub failure_blocks_none :
      (force : Bool) (key : String) (i : Item) (b : Buffer)
      → Has (λ x. x ≡ (key, i)) (ready force now b.pending)
      → accepts i ≡ true
      → Dict.get (flush_pending accepts force now b).pending key ≡ none
  unfolding flush_pending
  failure_blocks_none force key i b h a =
      all-gone key i (ready force now b.pending) (record b { failed = false }) h a

  remove-other :
      (d : Dict Item) (key k : String) (old : Option Item)
      → str_eq key k ≡ false
      → Dict.get d k ≡ old
      → Dict.get (Dict.remove d key) k ≡ old
  remove-other d key k old n h =
      Laws.get-remove d key k ∙ ap (λ t. if t then none else Dict.get d k) n ∙ h

  -- What the messages of a flush lead to, from a buffer
  module _ (start : Buffer) where
    -- A message of the flush with this key was no duplicate of what was delivered before it, and the callback
    -- took it.
    abbrev pub WasDelivered : String → Dict Item → Buffer → Type 0
    WasDelivered k batch b =
        (before : Dict Item) × (i : Item) × (after : Dict Item) × (batch ≡ before ++ (k, i) ∷ after)
        × (is_history_duplicate now i (flush_all accepts now before start) ≡ false)
        × (accepts i ≡ true)
        × Has (λ y. y ≡ (k, i)) b.delivered

    -- A message of the flush with this key was a duplicate when its turn came.
    abbrev pub WasDuplicate : String → Dict Item → Type 0
    WasDuplicate k batch =
        (before : Dict Item) × (i : Item) × (after : Dict Item) × (batch ≡ before ++ (k, i) ∷ after)
        × (is_history_duplicate now i (flush_all accepts now before start) ≡ true)

    abbrev pub IsKept : String → Option Item → Dict Item → Buffer → Type 0
    IsKept k old batch b =
        (Dict.get b.pending k ≡ old) ⊎ WasDelivered k batch b ⊎ WasDuplicate k batch

    -- One more message: `before` is done, `rest` is to come.
    one-IsKept :
        (k : String) (old : Option Item) (before rest : Dict Item) (x : String × Item)
        → IsKept k old (before ++ x ∷ rest) (flush_all accepts now before start)
        → IsKept k old
            (before ++ x ∷ rest)
            (flush_one accepts now x (flush_all accepts now before start))
    unfolding flush_one taken
    one-IsKept k old before rest (key, i) (inr (inr h)) = inr (inr h)
    one-IsKept k old before rest (key, i) (inr (inl (bs, d, rs, e, n, a, h))) =
        let b = flush_all accepts now before start in
        let P = λ (c : Buffer). IsKept k old (before ++ (key, i) ∷ rest) c in
        if_ind P (is_history_duplicate now i b) _ _ (λ f. inr (inl (bs, d, rs, e, n, a, h)))
          (λ f.
            if_ind P (accepts i) _ _
              (λ g. inr (
                inl (bs, d, rs, e, n, a, Has-left (λ y. y ≡ (k, d)) b.delivered ((key, i) ∷ []) h)))
              (λ g. inr (inl (bs, d, rs, e, n, a, h))))
    one-IsKept k old before rest (key, i) (inl h) =
        let b = flush_all accepts now before start in
        let batch = before ++ (key, i) ∷ rest in
        let P = λ (c : Buffer). IsKept k old batch c in
        if_ind P (is_history_duplicate now i b) _ _
          (λ d. elim (Bool-cases (str_eq key k)) [
            | inl same ↦
                let key_is = (eq_iff key k).0 same in
                inr (inr (before, i, rest, ap (λ t. before ++ (t, i) ∷ rest) key_is, d))
            | inr other ↦ inl (remove-other b.pending key k old other h)
          ])
          (λ d.
            if_ind P (accepts i) _ _
              (λ a. elim (Bool-cases (str_eq key k)) [
                | inl same ↦
                    let key_is = (eq_iff key k).0 same in
                    inr (
                      inl (
                        before,
                        i,
                        rest,
                        ap (λ t. before ++ (t, i) ∷ rest) key_is,
                        d,
                        a,
                        Has-append (λ y. y ≡ (k, i)) b.delivered (key, i) (ap (λ t. (t, i)) key_is),
                      ))
                | inr other ↦ inl (remove-other b.pending key k old other h)
              ])
              (λ f. inl h))

    flush_all-append :
        (xs : Dict Item) (x : String × Item) (b : Buffer)
        → flush_all accepts now (xs ++ x ∷ []) b
          ≡ flush_one accepts now x (flush_all accepts now xs b)
    unfolding flush_all
    flush_all-append [] x b = refl
    flush_all-append (y ∷ ys) x b = flush_all-append ys x (flush_one accepts now y b)

    all-IsKept :
        (k : String) (old : Option Item) (before rest : Dict Item)
        → IsKept k old (before ++ rest) (flush_all accepts now before start)
        → IsKept k old
            (before ++ rest)
            (flush_all accepts now rest (flush_all accepts now before start))
    unfolding flush_all
    all-IsKept k old before [] h = h
    all-IsKept k old before (x ∷ rest) h =
        let done = flush_all-append before x start in
        let whole = append_assoc before (x ∷ []) rest in
        let one = one-IsKept k old before rest x h in
        let ready : IsKept k old ((before ++ x ∷ []) ++ rest)
            (flush_all accepts now (before ++ x ∷ []) start) =
          subst (λ l. IsKept k old l (flush_all accepts now (before ++ x ∷ []) start)) (sym whole)
            (subst (IsKept k old (before ++ x ∷ rest)) (sym done) one) in
        subst
          (λ l. IsKept k old l (
            flush_all accepts now rest
              (flush_one accepts now x (flush_all accepts now before start))))
          whole
          (subst (λ c. IsKept k old ((before ++ x ∷ []) ++ rest) (flush_all accepts now rest c))
            done (all-IsKept k old (before ++ x ∷ []) rest ready))

  -- A flush leaves each key as it was, unless a message of the flush under it was delivered, which was no duplicate
  -- of what was delivered before its turn and which the callback took, or was such a duplicate.
  pub flush-IsKept :
      (force : Bool) (k : String) (b : Buffer)
      → IsKept
          (record b { failed = false })
          k
          (Dict.get b.pending k)
          (ready force now b.pending)
          (flush_pending accepts force now b)
  unfolding flush_pending
  flush-IsKept force k b =
      let start : Buffer = record b { failed = false } in
      kept (all-IsKept start k (Dict.get b.pending k) [] (ready force now b.pending) first)
    where
      first :
          IsKept
            (record b { failed = false })
            k
            (Dict.get b.pending k)
            (ready force now b.pending)
            (flush_all accepts now [] (record b { failed = false }))
      first = unfold flush_all in inl refl

      kept :
          IsKept
            (record b { failed = false })
            k
            (Dict.get b.pending k)
            (ready force now b.pending)
            (flush_all accepts now
              (ready force now b.pending)
              (flush_all accepts now [] (record b { failed = false })))
          → IsKept
              (record b { failed = false })
              k
              (Dict.get b.pending k)
              (ready force now b.pending)
              (forget now
                (flush_all accepts now (ready force now b.pending) (record b { failed = false })))
      kept h = unfold flush_all in h

-- The messages from a time on, and messages in the order of their times
abbrev From : ℕ → Dict Item → Type 0
From n = Every (λ (x : String × Item). n ≤ x.1.first_seen)

abbrev Until : ℕ → Dict Item → Type 0
Until n = Every (λ (x : String × Item). x.1.first_seen ≤ n)

abbrev pub IsOrdered : Dict Item → Type 0
IsOrdered [] = Unit
IsOrdered (x ∷ xs) = From x.1.first_seen xs × IsOrdered xs

From-le : (m n : ℕ) (xs : Dict Item) → m ≤ n → From n xs → From m xs
From-le m n [] le h = tt
From-le m n (x ∷ xs) le h = (omega (arith, le, h.0), From-le m n xs le h.1)

insert-From :
    (n : ℕ) (x : String × Item) (xs : Dict Item)
    → n ≤ x.1.first_seen
    → From n xs
    → From n (insert x xs)
unfolding insert
insert-From n x [] le h = (le, tt)
insert-From n x (y ∷ ys) le h =
    if_ind (From n) (leb x.1.first_seen y.1.first_seen) _ _ (λ e. (le, h))
      (λ e. (h.0, insert-From n x ys le h.1))

insert-IsOrdered : (x : String × Item) (xs : Dict Item) → IsOrdered xs → IsOrdered (insert x xs)
unfolding insert
insert-IsOrdered x [] h = (tt, tt)
insert-IsOrdered x (y ∷ ys) h =
    if_ind IsOrdered (leb x.1.first_seen y.1.first_seen) _ _
      (λ e.
        let le : x.1.first_seen ≤ y.1.first_seen = ground (arith, e) in
        ((le, From-le x.1.first_seen y.1.first_seen ys le h.0), h))
      (λ e. (insert-From y.1.first_seen x ys (ground (arith, e)) h.0, insert-IsOrdered x ys h.1))

sort-IsOrdered : (xs : Dict Item) → IsOrdered (sort xs)
unfolding sort
sort-IsOrdered [] = tt
sort-IsOrdered (x ∷ xs) = insert-IsOrdered x (sort xs) (sort-IsOrdered xs)

take-IsOrdered : (n : ℕ) (xs : Dict Item) → IsOrdered xs → IsOrdered (take n xs)
take-IsOrdered zero xs h = tt
take-IsOrdered (suc n) [] h = tt
take-IsOrdered (suc n) (x ∷ xs) h = (
  take-Every (λ (y : String × Item). x.1.first_seen ≤ y.1.first_seen) n xs h.0,
  take-IsOrdered n xs h.1,
)

ready-IsOrdered :
    (force : Bool) (now : ℕ) (pending : Dict Item) → IsOrdered (ready force now pending)
unfolding ready
ready-IsOrdered force now pending =
    let sorted = sort (keep (λ e. force || leb e.1.due now) pending) in
    let s = sort-IsOrdered (keep (λ e. force || leb e.1.due now) pending) in
    if_ind IsOrdered force _ _ (λ e. s) (λ e. take-IsOrdered flush_batch sorted s)

snoc-IsOrdered :
    (xs : Dict Item) (x : String × Item)
    → IsOrdered xs
    → Until x.1.first_seen xs
    → IsOrdered (xs ++ x ∷ [])
snoc-IsOrdered [] x h u = (tt, tt)
snoc-IsOrdered (y ∷ ys) x h u = (
  append-Every (λ (z : String × Item). y.1.first_seen ≤ z.1.first_seen) ys (x ∷ []) h.0 (u.0, tt),
  snoc-IsOrdered ys x h.1 u.1,
)

-- What was delivered is in order, and no later than what is still to come.
record IsInOrder (batch : Dict Item) (b : Buffer) : Type 0 where
  ordered : IsOrdered b.delivered
  behind : Every (λ (d : String × Item). From d.1.first_seen batch) b.delivered

later-IsInOrder :
    (x : String × Item) (rest : Dict Item) (b : Buffer) → IsInOrder (x ∷ rest) b → IsInOrder rest b
later-IsInOrder x rest b h = record {
  ordered = h.ordered;
  behind =
      Every-map (λ d. From d.1.first_seen (x ∷ rest)) (λ d. From d.1.first_seen rest) b.delivered
        (λ d f. f.1) h.behind;
}

one-IsInOrder :
    (accepts : Item → Bool) (now : ℕ) (x : String × Item) (rest : Dict Item) (b : Buffer)
    → IsOrdered (x ∷ rest)
    → IsInOrder (x ∷ rest) b
    → IsInOrder rest (flush_one accepts now x b)
unfolding flush_one taken
one-IsInOrder accepts now (key, i) rest b o h =
    let later = later-IsInOrder (key, i) rest b h in
    let same : IsInOrder rest (record b { failed = true }) = record {
      ordered = later.ordered;
      behind = later.behind;
    } in
    if_ind (IsInOrder rest) (is_history_duplicate now i b) _ _
      (λ d. record { ordered = later.ordered; behind = later.behind })
      (λ d.
        if_ind (IsInOrder rest) (accepts i) _ _
          (λ a. record {
            ordered =
                snoc-IsOrdered b.delivered (key, i) h.ordered
                  (Every-map (λ d. From d.1.first_seen ((key, i) ∷ rest))
                    (λ d. d.1.first_seen ≤ i.first_seen) b.delivered (λ d f. f.0) h.behind);
            behind =
                append-Every (λ (d : String × Item). From d.1.first_seen rest) b.delivered
                  ((key, i) ∷ []) later.behind (o.0, tt);
          })
          (λ f. same))

all-IsInOrder :
    (accepts : Item → Bool) (now : ℕ) (batch : Dict Item) (b : Buffer)
    → IsOrdered batch
    → IsInOrder batch b
    → IsOrdered (flush_all accepts now batch b).delivered
unfolding flush_all
all-IsInOrder accepts now [] b o h = h.ordered
all-IsInOrder accepts now (x ∷ rest) b o h =
    all-IsInOrder accepts now rest (flush_one accepts now x b) o.1
      (one-IsInOrder accepts now x rest b o h)

-- A flush of a buffer with an empty record of what was delivered delivers in the order in which the messages
-- were first seen, whichever callbacks fail.
pub flush-IsOrdered :
    (accepts : Item → Bool) (force : Bool) (now : ℕ) (b : Buffer)
    → b.delivered ≡ []
    → IsOrdered (flush_pending accepts force now b).delivered
unfolding flush_pending
flush-IsOrdered accepts force now b e =
    all-IsInOrder accepts now (ready force now b.pending) (record b { failed = false })
      (ready-IsOrdered force now b.pending) start
  where
    start : IsInOrder (ready force now b.pending) (record b { failed = false })
    start = record {
      ordered = subst IsOrdered (sym e) tt;
      behind =
          subst (Every (λ (d : String × Item). From d.1.first_seen (ready force now b.pending)))
            (sym e) tt;
    }
