-- ===== src/Seats/Members.antt =====
-- The members of the sets that `refresh` of bridge/seat_scope.py collects.
use pdd_bridge_agent.Prelude.{
  Bool, false, ◌||◌, List, [], ◌∷◌, String, str_eq, member, some_of, ◌≡◌, refl, sym, ap, ◌∙◌, arith,
  eq_iff, str_eq-sym, false≢true, str_eq-false,
}
use pdd_bridge_agent.Text.{is_blank}
use pdd_bridge_agent.Seats.Account.{seat_key}
use pdd_bridge_agent.Seats.Scope.{
  same_seat, in_seats, Found, add_seat, collect, add_exact, collect_exact,
}

-- One of the accounts is the given shop and seat, or the shop alone where the seat is blank.
abbrev pub named : String × String → List String → Bool
named seat xs = some_of (λ a. same_seat seat (seat_key a)) xs

blank_is_empty : (s : String) → is_blank s ≡ str_eq "" s
blank_is_empty String.[] = refl
blank_is_empty (String.◌∷◌ c s) =
    sym (str_eq-false "" (String.◌∷◌ c s) (λ e. false≢true (sym (ap is_blank e))))

add_seat-seats :
    (mall uid : String) (k : String × String) (f : Found)
    → is_blank mall ≡ false
    → is_blank uid ≡ false
    → in_seats (mall, uid) (add_seat k f).seats
      ≡ (same_seat (mall, uid) k || in_seats (mall, uid) f.seats)
add_seat-seats mall uid (m, u) f named' seated = ground (arith, eq_iff mall m, eq_iff uid u)

-- A shop alone is no seat: a seat without its second part is never collected.
add_seat-no_shop :
    (mall : String) (k : String × String) (f : Found)
    → in_seats (mall, "") (add_seat k f).seats ≡ in_seats (mall, "") f.seats
add_seat-no_shop mall (m, u) f = ground (arith, blank_is_empty u)

add_seat-shops :
    (mall : String) (k : String × String) (f : Found)
    → is_blank mall ≡ false
    → member mall (add_seat k f).shops ≡ (same_seat (mall, "") k || member mall f.shops)
add_seat-shops mall (m, u) f named' =
    ground (arith, eq_iff mall m, str_eq-sym mall m, blank_is_empty u)

pub collect-seats :
    (mall uid : String) (xs : List String) (f : Found)
    → is_blank mall ≡ false
    → is_blank uid ≡ false
    → in_seats (mall, uid) (collect xs f).seats
      ≡ (named (mall, uid) xs || in_seats (mall, uid) f.seats)
unfolding collect
collect-seats mall uid [] f n s = refl
collect-seats mall uid (x ∷ xs) f n s = ground (
  arith,
  collect-seats mall uid xs (add_seat (seat_key x) f) n s,
  add_seat-seats mall uid (seat_key x) f n s,
)

pub collect-no_shop :
    (mall : String) (xs : List String) (f : Found)
    → in_seats (mall, "") (collect xs f).seats ≡ in_seats (mall, "") f.seats
unfolding collect
collect-no_shop mall [] f = refl
collect-no_shop mall (x ∷ xs) f =
    collect-no_shop mall xs (add_seat (seat_key x) f) ∙ add_seat-no_shop mall (seat_key x) f

pub collect-shops :
    (mall : String) (xs : List String) (f : Found)
    → is_blank mall ≡ false
    → member mall (collect xs f).shops ≡ (named (mall, "") xs || member mall f.shops)
unfolding collect
collect-shops mall [] f n = refl
collect-shops mall (x ∷ xs) f n =
    ground (
      arith,
      collect-shops mall xs (add_seat (seat_key x) f) n,
      add_seat-shops mall (seat_key x) f n,
    )

add_exact-seats :
    (mall uid : String) (k : String × String) (f : Found)
    → is_blank mall ≡ false
    → is_blank uid ≡ false
    → (in_seats (mall, uid) (add_exact k f).seats
        ≡ (same_seat (mall, uid) k || in_seats (mall, uid) f.seats))
      × (in_seats (mall, "") (add_exact k f).seats ≡ in_seats (mall, "") f.seats)
      × ((add_exact k f).shops ≡ f.shops)
add_exact-seats mall uid (m, u) f n s =
    (ground (arith, eq_iff mall m, eq_iff uid u), ground (arith, blank_is_empty u), ground arith)

pub collect_exact-all :
    (mall uid : String) (xs : List String) (f : Found)
    → is_blank mall ≡ false
    → is_blank uid ≡ false
    → (in_seats (mall, uid) (collect_exact xs f).seats
        ≡ (named (mall, uid) xs || in_seats (mall, uid) f.seats))
      × (in_seats (mall, "") (collect_exact xs f).seats ≡ in_seats (mall, "") f.seats)
      × ((collect_exact xs f).shops ≡ f.shops)
unfolding collect_exact
collect_exact-all mall uid [] f n s = (refl, refl, refl)
collect_exact-all mall uid (x ∷ xs) f n s =
    let (a, b, c) = add_exact-seats mall uid (seat_key x) f n s in
    let (a', b', c') = collect_exact-all mall uid xs (add_exact (seat_key x) f) n s in
    (ground (arith, a, a'), b' ∙ b, c' ∙ c)
