-- ===== src/Center/Acks.antt =====
-- The rows that bridge/center_ws.py makes of acks, as `_flush_events` of bridge/agent.py reads them.
use pdd_bridge_agent.Prelude.{
  ℕ, Bool, true, false, not, ◌&&◌, ◌||◌, some, List, [], ◌∷◌, String, str_eq, map, keep, some_of,
  member, ◌≡◌, ◌⊎◌, inl, inr, refl, sym, ap, subst, ◌∙◌, or_true, or_left, or_right, both, arith,
  Bool-cases, false≢true, and_true, not-true, true_and_not,
}
use pdd_bridge_agent.Text.{is_blank, or_text}
use pdd_bridge_agent.Json.{Fields}
use pdd_bridge_agent.Upload.{
  Event, Uploader, Ack, answered, key_of, is_terminal, wants_retry, terminal_ids, is_loss,
  find_sent, stays, end_flush,
}
use pdd_bridge_agent.Upload.Batches.{Every}
use pdd_bridge_agent.Upload.Queue.{refused_is_kept, is_dead}
use pdd_bridge_agent.Center.{
  Row, ack_row_for, is_accepted, can_retry, lacks, retry_row, rejected_row,
}

-- A row as the dict that `_flush_events` reads; its reason is `reason or error.code or status`.
abbrev pub ack_of : Row → Ack
ack_of r = record {
  event_id = r.event_id;
  status = r.status;
  reason = or_text r.reason r.status;
  committed = r.committed;
  retryable = some r.retryable;
}

-- The reason that `_flush_events` takes for no loss
abbrev IsEcho : Row → Type 0
IsEcho r = str_eq (or_text r.reason r.status) "plugin_send_echo" ≡ true

row_retry :
    (e : Fields) (status error_code : String)
    → is_accepted status ≡ false
    → can_retry e error_code ≡ true
    → ack_row_for e status error_code ≡ retry_row e error_code
unfolding ack_row_for
row_retry e status error_code h k =
    let p = and_true (str_eq error_code "PERSISTENCE_UNAVAILABLE") _ k in
    rw (h, p.0, not-true (lacks e "account" || lacks e "buyer_id") p.1) refl

row_rejected :
    (e : Fields) (status error_code : String)
    → is_accepted status ≡ false
    → can_retry e error_code ≡ false
    → (reason : String) × (ack_row_for e status error_code ≡ rejected_row e reason)
unfolding ack_row_for
row_rejected e status error_code h k =
    elim (Bool-cases (str_eq error_code "PERSISTENCE_UNAVAILABLE")) [
      | inl p ↦
          let l = true_and_not (str_eq error_code "PERSISTENCE_UNAVAILABLE") _ p k in
          (error_code, rw (h, p, l) refl)
      | inr p ↦ (or_text error_code (or_text status "rejected"), rw (h, p) refl)
    ]

-- What `_flush_events` does with the row of an ack: the event leaves the queue unless the center could not
-- store it and it has an account and a buyer, in which case it is to be sent again; it counts as taken
-- exactly if it was accepted or a duplicate, and as a loss exactly if it leaves the queue otherwise and not
-- for the reason of an echo.
pub row_verdict :
    (e : Fields) (status error_code : String)
    → let a = ack_of (ack_row_for e status error_code) in
      (a.committed ≡ is_accepted status)
      × (is_terminal a ≡ (is_accepted status || not (can_retry e error_code)))
      × (wants_retry a ≡ (not (is_accepted status) && can_retry e error_code))
      × (is_loss a ≡ (
          not (is_accepted status)
          && not (can_retry e error_code)
          && not (str_eq a.reason "plugin_send_echo")))
unfolding ack_row_for
row_verdict e status error_code = elim (Bool-cases (is_accepted status)) [
  | inl h ↦ rw h (refl, refl, refl, refl)
  | inr h ↦ elim (Bool-cases (can_retry e error_code)) [
    | inl k ↦ rw (row_retry e status error_code h k, h, k) (refl, refl, refl, refl)
    | inr k ↦ rw ((row_rejected e status error_code h k).1, h, k) (refl, refl, refl, refl)
  ]
]

-- The row was made of an ack by `ack_row_for`.
abbrev pub IsMade : Row → Type 0
IsMade r =
    (e : Fields) × (status : String) × (error_code : String) × (r ≡ ack_row_for e status error_code)

-- A row that takes its event from the queue was accepted, or is a loss.
abbrev IsAccounted : Row → Type 0
IsAccounted r = is_terminal (ack_of r) ≡ true → (r.committed ≡ true) ⊎ (is_loss (ack_of r) ≡ true)

made-IsAccounted :
    (e : Fields) (status error_code : String)
    → str_eq (ack_of (ack_row_for e status error_code)).reason "plugin_send_echo" ≡ false
    → IsAccounted (ack_row_for e status error_code)
made-IsAccounted e status error_code n t = elim (Bool-cases (is_accepted status)) [
  | inl a ↦ inl ((row_verdict e status error_code).0 ∙ a)
  | inr a ↦ inr (ground (arith, row_verdict e status error_code, n, t, a))
]

-- No row has the reason of an echo.
abbrev pub NoEcho : List Row → Type 0
NoEcho = Every (λ r. str_eq (or_text r.reason r.status) "plugin_send_echo" ≡ false)

abbrev pub accepts : String → Row → Bool
accepts id r = r.committed && str_eq r.event_id id

row-IsAccounted :
    (r : Row) → IsMade r → str_eq (ack_of r).reason "plugin_send_echo" ≡ false → IsAccounted r
row-IsAccounted r (e, status, error_code, made) n = subst IsAccounted (sym made) (
    made-IsAccounted e status error_code
      (ap (λ (x : Row). str_eq (ack_of x).reason "plugin_send_echo") (sym made) ∙ n))

abbrev here : Bool → Ack → List Ack → List Ack
here t a rest = elim t [ true ↦ a ∷ rest | false ↦ rest ]

member-here :
    (t : Bool) (a : Ack) (id : String) (rest : List Ack)
    → member id (map (λ x. x.event_id) (here t a rest)) ≡ true
    → ((t && str_eq a.event_id id) ≡ true) ⊎ (member id (map (λ x. x.event_id) rest) ≡ true)
member-here true a id rest h = or_true (str_eq a.event_id id) _ h
member-here false a id rest h = inr h

abbrev named : String → List Ack → Bool
named id = some_of (λ a. str_eq a.event_id id)

here-named :
    (t : Bool) (a : Ack) (id : String) (rest : List Ack)
    → ((t && str_eq a.event_id id) ≡ true) ⊎ (named id rest ≡ true)
    → named id (here t a rest) ≡ true
here-named true a id rest (inl h) = or_left (str_eq a.event_id id) _ h
here-named true a id rest (inr h) = or_right (str_eq a.event_id id) _ h
here-named false a id rest (inl h) = absurd (false≢true h)
here-named false a id rest (inr h) = h

terminal_accounted :
    (id : String) (rows : List Row)
    → Every IsMade rows
    → NoEcho rows
    → member id (terminal_ids (map ack_of rows)) ≡ true
    → (some_of (accepts id) rows ≡ true) ⊎ (named id (keep is_loss (map ack_of rows)) ≡ true)
terminal_accounted id [] made quiet h = absurd (false≢true h)
terminal_accounted id (r ∷ rest) made quiet h =
    elim (member-here (is_terminal (ack_of r)) (ack_of r) id _ h) [
      | inl first ↦
          let p = and_true (is_terminal (ack_of r)) _ first in
          elim (row-IsAccounted r made.0 quiet.0 p.0) [
            | inl c ↦ inl (or_left (accepts id r) _ (both r.committed _ c p.1))
            | inr l ↦ inr (
                here-named (is_loss (ack_of r)) (ack_of r) id _
                  (inl (both (is_loss (ack_of r)) _ l p.1)))
          ]
      | inr later ↦ elim (terminal_accounted id rest made.1 quiet.1 later) [
        | inl c ↦ inl (or_right (accepts id r) _ c)
        | inr l ↦ inr (here-named (is_loss (ack_of r)) (ack_of r) id _ (inr l))
      ]
    ]

own_key : (s t : String) → is_blank s ≡ false → or_text s t ≡ s
own_key String.[] t h = absurd (false≢true (sym h))
own_key (String.◌∷◌ c s) t h = refl

not-false : (a : Bool) → not a ≡ false → a ≡ true
not-false true h = refl
not-false false h = sym h

-- An event of the batch, the last under its id, that leaves the queue because of the acks of the WebSocket
-- channel was accepted by the center, or is among the dead letters afterwards, if that file can be written
-- and no ack has the reason of an echo.
pub left_is_accounted :
    (monotonic : ℕ) (rows : List Row) (batch : List Event) (u : Uploader) (e : Event)
    → Every IsMade rows
    → NoEcho rows
    → is_blank e.event_id ≡ false
    → find_sent e.event_id batch ≡ some e
    → stays (answered (map ack_of rows)) batch e ≡ false
    → (some_of (accepts e.event_id) rows ≡ true)
      ⊎ (is_dead e.handle
            (end_flush true monotonic (answered (map ack_of rows)) batch u).dead_letters
          ≡ true)
left_is_accounted monotonic rows batch u e made quiet named_event found left =
    let gone =
      not-false
        (member (key_of e) (terminal_ids (map ack_of rows)) && member (key_of e) (map key_of batch))
        left in
    let t = and_true (member (key_of e) (terminal_ids (map ack_of rows))) _ gone in
    let id : member e.event_id (terminal_ids (map ack_of rows)) ≡ true =
      ap (λ (i : String). member i (terminal_ids (map ack_of rows)))
        (sym (own_key e.event_id e.idempotency_key named_event))
      ∙ t.0 in
    elim (terminal_accounted e.event_id rows made quiet id) [
      | inl c ↦ inl c
      | inr l ↦ inr (refused_is_kept monotonic (map ack_of rows) batch u e found l)
    ]
