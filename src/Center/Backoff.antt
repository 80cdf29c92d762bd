-- ===== src/Center/Backoff.antt =====
-- The times between two connections of the loop `_run` of bridge/center_ws.py.
use Prim.Native.Nat.{◌^◌}
use pdd_bridge_agent.Prelude.{
  ℕ, zero, suc, ◌*◌, ◌≤◌, min, max, Bool, true, false, List, [], ◌∷◌, ◌≡◌, refl, arith, ap, ◌∙◌,
  ◌⊎◌, inl, inr, some,
}
use pdd_bridge_agent.Json.{Value, Fields, null, bool, num, text, obj, other}
use pdd_bridge_agent.Json
use pdd_bridge_agent.Upload.Batches.{Every}
use pdd_bridge_agent.Center.Link.{
  Link, Attempt, Greeting, closed_with, lost, greeted, Outcome, returned, auth_failed, mismatch,
  disconnected, session, greet, is_ready, is_one, delay_after, turn, sleeps, start,
}

abbrev InRange : ℕ → Type 0
InRange d = (1 ≤ d) × (d ≤ 60)

delay_after-InRange :
    (o : Outcome) (established : Bool) (d : ℕ) → InRange d → InRange (delay_after o established d)
unfolding delay_after
delay_after-InRange returned established d h = ground arith
delay_after-InRange auth_failed established d h = ground arith
delay_after-InRange mismatch established d h = ground arith
delay_after-InRange disconnected true d h = ground arith
delay_after-InRange disconnected false d h = h

greet-delay : (a : Attempt) (g : Greeting) (l : Link) → (greet a g l).0.delay ≡ l.delay
unfolding greet
greet-delay a (closed_with c) l = refl
greet-delay a lost l = refl
greet-delay a (greeted null) l = refl
greet-delay a (greeted (bool b)) l = refl
greet-delay a (greeted (num n s)) l = refl
greet-delay a (greeted (text s)) l = refl
greet-delay a (greeted (other s b)) l = refl
greet-delay a (greeted (obj d)) l = ground arith

session-delay : (a : Attempt) (l : Link) → (session a l).0.delay ≡ l.delay
unfolding session
session-delay a l = ground (arith, greet-delay a a.greeting l)

-- The link as an attempt finds it
abbrev fresh : Link → Link
fresh l = record l { established = false }

turn-InRange :
    (a : Attempt) (l : Link) → InRange l.delay → InRange (turn a l).1 × InRange (turn a l).0.delay
unfolding turn
turn-InRange a l h =
    let r = session a (fresh l) in
    let kept : InRange r.0.delay = ground (arith, session-delay a (fresh l)) in
    ground (arith, delay_after-InRange r.1 r.0.established r.0.delay kept)

sleeps-InRange :
    (attempts : List Attempt) (l : Link) → InRange l.delay → Every InRange (sleeps attempts l)
unfolding sleeps
sleeps-InRange [] l h = tt
sleeps-InRange (a ∷ rest) l h =
    let t = turn-InRange a l h in (t.0, sleeps-InRange rest (turn a l).0 t.1)

-- However the connections end, between two of them the loop waits for one second at least and for sixty
-- at most.
pub sleeps_bounded : (attempts : List Attempt) → Every InRange (sleeps attempts start)
unfolding start
sleeps_bounded attempts = sleeps-InRange attempts start (ground arith)

-- The center cannot be reached: no socket, or it is lost before it has greeted
abbrev pub IsUnreached : Attempt → Type 0
IsUnreached a = (a.opened ≡ false) ⊎ (a.greeting ≡ lost)

unreached : (a : Attempt) (l : Link) → IsUnreached a → session a l ≡ (l, disconnected)
unfolding session greet
unreached a l (inl e) = ground arith
unreached a l (inr e) = rw e (ground arith)

turn-unreached :
    (a : Attempt) (l : Link) (d : ℕ)
    → l.delay ≡ d
    → IsUnreached a
    → ((turn a l).1 ≡ d) × ((turn a l).0.delay ≡ min 60 (max 1 (d * 2)))
unfolding turn delay_after
turn-unreached a l d e h = rw (unreached a (fresh l) h) (ground arith)

-- The powers of two from an exponent on, up to sixty, one for each attempt
abbrev pub powers : ℕ → List Attempt → List ℕ
powers i [] = []
powers i (a ∷ rest) = min 60 (2 ^ i) ∷ powers (suc i) rest

pow_pos : (i : ℕ) → 1 ≤ 2 ^ i
pow_pos zero = omega arith
pow_pos (suc i) = omega (arith, pow_pos i)

sleeps-powers :
    (attempts : List Attempt) (l : Link) (i : ℕ)
    → l.delay ≡ min 60 (2 ^ i)
    → Every IsUnreached attempts
    → sleeps attempts l ≡ powers i attempts
unfolding sleeps
sleeps-powers [] l i e h = refl
sleeps-powers (a ∷ rest) l i e h =
    let t = turn-unreached a l (min 60 (2 ^ i)) e h.0 in
    let next : (turn a l).0.delay ≡ min 60 (2 ^ suc i) = t.1 ∙ omega (arith, pow_pos i) in
    let later = sleeps-powers rest (turn a l).0 (suc i) next h.1 in
    ap (λ (d : ℕ). d ∷ sleeps rest (turn a l).0) t.0
    ∙ ap (λ (ds : List ℕ). min 60 (2 ^ i) ∷ ds) later

-- While the center cannot be reached, the waits of a new channel are 1, 2, 4, ... seconds, the powers of
-- two up to sixty.
pub sleeps_double :
    (attempts : List Attempt)
    → Every IsUnreached attempts
    → sleeps attempts start ≡ powers 0 attempts
unfolding start
sleeps_double attempts h = sleeps-powers attempts start 0 (ground arith) h

-- The handshake succeeds.
abbrev pub IsGreeted : Attempt → Type 0
IsGreeted a =
    (a.opened ≡ true)
    × ((d : Fields) × (a.greeting ≡ greeted (obj d))
        × (is_ready (Json.get d "type") ≡ true)
        × (is_one (Json.get d "protocol_version") ≡ true))
    × ((n : ℕ) × (a.inflight ≡ some n))

greeted_session :
    (a : Attempt) (l : Link)
    → IsGreeted a
    → ((session a l).0.established ≡ true)
      × (((session a l).1 ≡ returned) ⊎ ((session a l).1 ≡ disconnected))
unfolding session greet
greeted_session a l (o, (d, g, r, v), (n, i)) = rw (o, g) (ground arith)

greeted_turn :
    (r : Link × Outcome)
    → r.0.established ≡ true
    → (r.1 ≡ returned) ⊎ (r.1 ≡ disconnected)
    → delay_after r.1 r.0.established r.0.delay ≡ 1
unfolding delay_after
greeted_turn r e (inl o) = rw o refl
greeted_turn r e (inr o) = rw (o, e) refl

-- The center refuses the token, or greets with anything but a ready frame of version 1.
abbrev pub IsRefused : Attempt → Type 0
IsRefused a =
    (a.opened ≡ true)
    × ((a.greeting ≡ closed_with 4001)
        ⊎ ((v : Value) × (a.greeting ≡ greeted v)
            × ((is_ready (Json.get (Json.dict_or_empty v) "type") ≡ false)
                ⊎ (is_one (Json.get (Json.dict_or_empty v) "protocol_version") ≡ false))))

greet-mismatch :
    (a : Attempt) (v : Value) (l : Link)
    → (is_ready (Json.get (Json.dict_or_empty v) "type") ≡ false)
      ⊎ (is_one (Json.get (Json.dict_or_empty v) "protocol_version") ≡ false)
    → (greet a (greeted v) l).1 ≡ mismatch
unfolding greet Json.dict_or_empty
greet-mismatch a null l h = refl
greet-mismatch a (bool b) l h = refl
greet-mismatch a (num n s) l h = refl
greet-mismatch a (text s) l h = refl
greet-mismatch a (other s b) l h = refl
greet-mismatch a (obj d) l h = ground arith

refused_delay :
    (a : Attempt) (l : Link)
    → IsRefused a
    → ((session a l).1 ≡ auth_failed) ⊎ ((session a l).1 ≡ mismatch)
unfolding session
refused_delay a l (o, inl g) = inl (rw (o, g) closed)
  where
    closed : (greet a (closed_with 4001) l).1 ≡ auth_failed
    closed = unfold greet in refl
refused_delay a l (o, inr (v, g, h)) = inr (rw (o, g) (greet-mismatch a v l h))

refused_turn :
    (r : Link × Outcome)
    → (r.1 ≡ auth_failed) ⊎ (r.1 ≡ mismatch)
    → delay_after r.1 r.0.established r.0.delay ≡ 60
unfolding delay_after
refused_turn r (inl o) = rw o refl
refused_turn r (inr o) = rw o refl

-- A connection that was greeted is made again one second after its end, however long the waits were
-- before it, and leaves a delay of two seconds for a failure to connect.
pub greeted_reconnects :
    (a : Attempt) (l : Link) → IsGreeted a → ((turn a l).1 ≡ 1) × ((turn a l).0.delay ≡ 2)
unfolding turn
greeted_reconnects a l h =
    let s = greeted_session a (fresh l) h in
    let one = greeted_turn (session a (fresh l)) s.0 s.1 in (one, ground (arith, one))

-- After a refusal the wait is sixty seconds.
pub refused_waits : (a : Attempt) (l : Link) → IsRefused a → (turn a l).1 ≡ 60
unfolding turn
refused_waits a l h = refused_turn (session a (fresh l)) (refused_delay a (fresh l) h)
