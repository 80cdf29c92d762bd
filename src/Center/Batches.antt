-- ===== src/Center/Batches.antt =====
-- `_Batch` of bridge/center_ws.py: when the wait of `send_events` ends, and what it then has.
use pdd_bridge_agent.Prelude.{
  ℕ, ◌+◌, ◌<◌, true, false, ◌||◌, none, some, List, [], ◌∷◌, String, str_eq, leb, length,
  if◌then◌else◌, ◌≡◌, ◌↔◌, inl, inr, refl, sym, ap, ◌∙◌, arith, eq_iff, Bool-cases, false≢true,
  or_left, str_eq-sym,
}
use pdd_bridge_agent.Json.{Fields}
use pdd_bridge_agent.Dict
use pdd_bridge_agent.Dict.{Dict}
use pdd_bridge_agent.Dict.Laws
use pdd_bridge_agent.Upload.Batches.{Every}
use pdd_bridge_agent.Center.{Row, Batch, by_id, new_batch, batch_on_ack}

abbrev IsDistinct {ℓ} : {V : Type ℓ} → Dict V → Type ℓ
IsDistinct [] = Unit
IsDistinct ((k, v) ∷ d) = (Dict.get d k ≡ none) × IsDistinct d

put-IsDistinct {ℓ} :
    {V : Type ℓ} (d : Dict V) (k : String) (v : V) → IsDistinct d → IsDistinct (Dict.put d k v)
unfolding Dict.put Dict.get
put-IsDistinct [] k v h = (refl, tt)
put-IsDistinct ((j, w) ∷ d) k v h = elim (Bool-cases (str_eq j k)) [
  | inl same ↦ rw same ((ap (Dict.get d) (sym ((eq_iff j k).0 same)) ∙ h.0), h.1)
  | inr other ↦ rw other (
    (ground (arith, eq_iff j k, eq_iff k j, Laws.get-put d k j v, h.0)),
    put-IsDistinct d k v h.1,
  )
]

by_id-IsDistinct : (es : List Fields) (d : Dict Fields) → IsDistinct d → IsDistinct (by_id es d)
unfolding by_id
by_id-IsDistinct [] d h = h
by_id-IsDistinct (e ∷ es) d h = by_id-IsDistinct es _ (put-IsDistinct d _ e h)

-- How many events have no row
missing : Dict Fields → Dict Row → ℕ
missing [] rows = 0
missing ((id, e) ∷ rest) rows = (if Dict.contains rows id then 0 else 1) + missing rest rows

put-contains :
    (rows : Dict Row) (k j : String) (r : Row)
    → Dict.contains (Dict.put rows k r) j ≡ (str_eq k j || Dict.contains rows j)
unfolding Dict.contains
put-contains rows k j r = ground (arith, Laws.get-put rows k j r)

missing-absent :
    (events : Dict Fields) (rows : Dict Row) (id : String) (r : Row)
    → Dict.get events id ≡ none
    → missing events (Dict.put rows id r) ≡ missing events rows
unfolding missing Dict.get
missing-absent [] rows id r h = refl
missing-absent ((j, e) ∷ rest) rows id r h =
    ground
      (arith, eq_iff id j, eq_iff j id, put-contains rows id j r, missing-absent rest rows id r)

missing-put :
    (events : Dict Fields) (rows : Dict Row) (id : String) (r : Row)
    → IsDistinct events
    → Dict.contains events id ≡ true
    → Dict.contains rows id ≡ false
    → missing events (Dict.put rows id r) + 1 ≡ missing events rows
unfolding missing Dict.get Dict.contains
missing-put [] rows id r d c n = absurd (false≢true c)
missing-put ((j, e) ∷ rest) rows id r d c n = elim (Bool-cases (str_eq j id)) [
  | inl same ↦
      let eq = (eq_iff j id).0 same in
      let there : Dict.contains (Dict.put rows id r) j ≡ true =
        put-contains rows id j r ∙ or_left (str_eq id j) _ ((eq_iff id j).1 (sym eq)) in
      let absent : Dict.contains rows j ≡ false = ap (Dict.contains rows) eq ∙ n in
      let later = missing-absent rest rows id r (ap (Dict.get rest) (sym eq) ∙ d.0) in
      rw (there, absent) (omega (arith, later))
  | inr other ↦
      let kept : Dict.contains (Dict.put rows id r) j ≡ Dict.contains rows j =
        put-contains rows id j r ∙ ap (λ t. t || Dict.contains rows j) (str_eq-sym id j ∙ other) in
      let there : Dict.contains rest id ≡ true =
        sym (ap (λ t. Dict.has_value (if t then some e else Dict.get rest id)) other) ∙ c in
      rw kept (omega (arith, missing-put rest rows id r d.1 there n))
]

length-put :
    (rows : Dict Row) (id : String) (r : Row)
    → Dict.contains rows id ≡ false
    → length (Dict.put rows id r) ≡ length rows + 1
unfolding Dict.put Dict.get Dict.contains
length-put [] id r h = omega arith
length-put ((j, w) ∷ d) id r h = ground (arith, length-put d id r)

none_missing :
    (events : Dict Fields) (rows : Dict Row)
    → missing events rows ≡ 0
    → Every (λ e. Dict.contains rows e.0 ≡ true) events
unfolding missing
none_missing [] rows h = tt
none_missing ((id, e) ∷ rest) rows h = (ground arith, none_missing rest rows (ground arith))

all_there :
    (events : Dict Fields) (rows : Dict Row)
    → Every (λ e. Dict.contains rows e.0 ≡ true) events
    → missing events rows ≡ 0
unfolding missing
all_there [] rows h = refl
all_there ((id, e) ∷ rest) rows h = rw h.0 (omega (arith, all_there rest rows h.1))

-- What holds of a batch while its acks come in
record IsCounted (b : Batch) : Type 0 where
  distinct : IsDistinct b.events
  counted : length b.events ≡ length b.rows + missing b.events b.rows
  ended : b.done ≡ true → missing b.events b.rows ≡ 0
  at_end : missing b.events b.rows ≡ 0 → b.done ≡ true

-- The batch with one more row
abbrev with_row : String → Row → Batch → Batch
with_row id row b = record b {
  rows = Dict.put b.rows id row;
  done = b.done || leb (length b.events) (length (Dict.put b.rows id row));
}

with_row-IsCounted :
    (id : String) (row : Row) (b : Batch)
    → Dict.contains b.events id ≡ true
    → Dict.contains b.rows id ≡ false
    → IsCounted b
    → IsCounted (with_row id row b)
with_row-IsCounted id row b c n h =
    let l = length-put b.rows id row n in
    let m = missing-put b.events b.rows id row h.distinct c n in
    record {
      distinct = h.distinct;
      counted = omega (arith, l, m, h.counted);
      ended = ground (arith, l, m, h.counted, h.ended);
      at_end = ground (arith, l, m, h.counted);
    }

on_ack-IsCounted :
    (id : String) (row : Row) (b : Batch) → IsCounted b → IsCounted (batch_on_ack id row b)
unfolding batch_on_ack
on_ack-IsCounted id row b h = elim (Bool-cases (Dict.contains b.events id)) [
  | inl c ↦ elim (Bool-cases (Dict.contains b.rows id)) [
    | inl n ↦ rw (c, n) h
    | inr n ↦ rw (c, n) (with_row-IsCounted id row b c n h)
  ]
  | inr c ↦ rw c h
]

-- Acks that come in, in this order
unfoldable pub acks_in : List (String × Row) → Batch → Batch
acks_in [] b = b
acks_in ((id, row) ∷ rest) b = acks_in rest (batch_on_ack id row b)

acks_in-IsCounted :
    (acks : List (String × Row)) (b : Batch) → IsCounted b → IsCounted (acks_in acks b)
unfolding acks_in
acks_in-IsCounted [] b h = h
acks_in-IsCounted ((id, row) ∷ rest) b h =
    acks_in-IsCounted rest (batch_on_ack id row b) (on_ack-IsCounted id row b h)

missing_none : (events : Dict Fields) → missing events [] ≡ length events
unfolding missing Dict.contains Dict.get
missing_none [] = refl
missing_none (e ∷ rest) = omega (arith, missing_none rest)

put-length_pos {ℓ} : {V : Type ℓ} (d : Dict V) (k : String) (v : V) → 0 < length (Dict.put d k v)
unfolding Dict.put
put-length_pos [] k v = omega arith
put-length_pos ((j, w) ∷ d) k v = ground arith

by_id-length_pos : (es : List Fields) (d : Dict Fields) → 0 < length d → 0 < length (by_id es d)
unfolding by_id
by_id-length_pos [] d h = h
by_id-length_pos (e ∷ es) d h = by_id-length_pos es _ (put-length_pos d _ e)

new_batch-IsCounted : (h : ℕ) (e : Fields) (es : List Fields) → IsCounted (new_batch h (e ∷ es))
unfolding new_batch by_id
new_batch-IsCounted h e es =
    let events = by_id (e ∷ es) [] in
    let pos : 0 < length events = by_id-length_pos es _ (put-length_pos [] _ e) in
    record {
      distinct = by_id-IsDistinct (e ∷ es) [] tt;
      counted = omega (arith, missing_none events);
      ended = λ d. absurd (false≢true d);
      at_end = λ m. absurd (omega (arith, missing_none events, pos, m));
    }

-- Every event of the batch has a row.
abbrev pub IsComplete : Batch → Type 0
IsComplete b = Every (λ e. Dict.contains b.rows e.0 ≡ true) b.events

-- Whatever acks come in for a batch with an event, again or for other ids, the flag that ends the wait for
-- it is set exactly when every event of it has a row.
pub done_exact :
    (handle : ℕ) (e : Fields) (es : List Fields) (acks : List (String × Row))
    → let b = acks_in acks (new_batch handle (e ∷ es)) in (b.done ≡ true) ↔ IsComplete b
done_exact handle e es acks =
    let b = acks_in acks (new_batch handle (e ∷ es)) in
    let h = acks_in-IsCounted acks (new_batch handle (e ∷ es)) (new_batch-IsCounted handle e es) in
    ((λ d. none_missing b.events b.rows (h.ended d)), (λ c. h.at_end (all_there b.events b.rows c)))
