-- ===== src/Seats/RoundTrip.antt =====
-- The spelling of a seat that the program writes, `cs_<shop>:<seat>`, and the ones that it reads:
-- `seat_key` of bridge/seat_scope.py finds the shop and the seat again.
use pdd_bridge_agent.Prelude.{
  Bool, true, false, ◌&&◌, ◌||◌, Option, none, some, String, Char, code, nat_eq, ◌≡◌, refl, sym, ap,
  ◌∙◌, false≢true, arith,
}
use pdd_bridge_agent.Text.{
  lower_code, strip, lstrip, rstrip, rstrip_cons, is_space, is_blank, append, has_prefix,
}
use pdd_bridge_agent.Seats.Account.{
  is_digit, is_separator, is_dash, span_digits, pair_tail, match_pair, account_here, account_search,
  after_cs, seat_text, is_s, canonical_account, canonical_stripped, key_of, after_prefix, full_seat,
  seat_key, plain_account,
}

abbrev only_digits : String → Bool
only_digits String.[] = true
only_digits (String.◌∷◌ c s) = is_digit c && only_digits s

-- A nonempty run of digits
abbrev IsNumber : String → Type 0
IsNumber s = (is_blank s ≡ false) × (only_digits s ≡ true)

span_digits-all : (s : String) → only_digits s ≡ true → span_digits s ≡ (s, "")
unfolding span_digits
span_digits-all String.[] h = refl
span_digits-all (String.◌∷◌ c s) h = ground (arith, span_digits-all s)

digit_no_space : (c : Char) → is_digit c ≡ true → is_space c ≡ false
unfolding is_space
digit_no_space c h = ground arith

span_digits-append :
    (s : String) (c : Char) (t : String)
    → only_digits s ≡ true
    → is_digit c ≡ false
    → span_digits (append s (String.◌∷◌ c t)) ≡ (s, String.◌∷◌ c t)
unfolding span_digits append
span_digits-append String.[] c t h n = ground arith
span_digits-append (String.◌∷◌ d s) c t h n = ground (arith, span_digits-append s c t)

rstrip-number : (s : String) → only_digits s ≡ true → rstrip s ≡ s
unfolding rstrip rstrip_cons
rstrip-number String.[] h = refl
rstrip-number (String.◌∷◌ c String.[]) h = ground (arith, digit_no_space c)
rstrip-number (String.◌∷◌ c (String.◌∷◌ d s)) h =
    ap (rstrip_cons c) (rstrip-number (String.◌∷◌ d s) (ground arith))

rstrip_cons-named : (c : Char) (s : String) → is_blank s ≡ false → rstrip_cons c s ≡ String.◌∷◌ c s
unfolding rstrip_cons
rstrip_cons-named c String.[] h = absurd (false≢true (sym h))
rstrip_cons-named c (String.◌∷◌ d s) h = refl

append-named : (t s : String) → is_blank s ≡ false → is_blank (append t s) ≡ false
unfolding append
append-named String.[] s h = h
append-named (String.◌∷◌ c t) s h = refl

-- A text that ends with a number has no white end.
rstrip-append : (t s : String) → IsNumber s → rstrip (append t s) ≡ append t s
unfolding append rstrip
rstrip-append String.[] s n = rstrip-number s n.1
rstrip-append (String.◌∷◌ c t) s n =
    ap (rstrip_cons c) (rstrip-append t s n)
    ∙ rstrip_cons-named c (append t s) (append-named t s n.0)

after_prefix-append : (m t : String) → after_prefix (append m t) m ≡ t
unfolding after_prefix append
after_prefix-append String.[] String.[] = refl
after_prefix-append String.[] (String.◌∷◌ c t) = refl
after_prefix-append (String.◌∷◌ c m) t = ground (arith, after_prefix-append m t)

-- The shop, a separator and the seat
abbrev pub pair_text : String → Char → String → String
pair_text mall sep uid = append mall (String.◌∷◌ sep uid)

abbrev colon : Char
colon = ":"

-- A dash or none
abbrev dashed : Option Char → String → String
dashed none s = s
dashed (some d) s = String.◌∷◌ d s

abbrev IsDash : Option Char → Type 0
IsDash none = Unit
IsDash (some d) = is_dash d ≡ true

-- `cs` in some case
abbrev IsCs : Char → Char → Type 0
IsCs a b = (nat_eq (lower_code (code a)) b'c' ≡ true) × (is_s b ≡ true)

abbrev pub spelled : Char → Char → Option Char → String → Char → String → String
spelled a b dash mall sep uid = String.◌∷◌ a (String.◌∷◌ b (dashed dash (pair_text mall sep uid)))

separator_no_digit : (c : Char) → is_separator c ≡ true → is_digit c ≡ false
separator_no_digit c h = ground arith

match_pair-pair_text :
    (mall uid : String) (sep : Char)
    → IsNumber mall
    → IsNumber uid
    → is_separator sep ≡ true
    → match_pair (pair_text mall sep uid) ≡ some (mall, uid, "")
unfolding match_pair
match_pair-pair_text mall uid sep m u h =
    ap pair_tail (span_digits-append mall sep uid m.1 (separator_no_digit sep h))
    ∙ rw (m.0, h, span_digits-all uid u.1) (rw u.0)

number_no_dash : (c : Char) → is_digit c ≡ true → is_dash c ≡ false
number_no_dash c h = ground arith

after_cs-number :
    (mall t : String) → IsNumber mall → after_cs (append mall t) ≡ match_pair (append mall t)
unfolding append
after_cs-number String.[] t m = absurd (false≢true (sym m.0))
after_cs-number (String.◌∷◌ c s) t m = rw (number_no_dash c (ground (arith, m.1)))

after_cs-dashed :
    (dash : Option Char) (mall t : String)
    → IsDash dash
    → IsNumber mall
    → after_cs (dashed dash (append mall t)) ≡ match_pair (append mall t)
after_cs-dashed none mall t d m = after_cs-number mall t m
after_cs-dashed (some c) mall t d m = rw d

account_here-spelled :
    (a b : Char) (dash : Option Char) (mall : String) (sep : Char) (uid : String)
    → IsCs a b
    → IsDash dash
    → IsNumber mall
    → IsNumber uid
    → is_separator sep ≡ true
    → account_here (spelled a b dash mall sep uid) ≡ some (mall, uid, "")
unfolding account_here
account_here-spelled a b dash mall sep uid c d m u h = ground (
  arith,
  c.0,
  c.1,
  after_cs-dashed dash mall (String.◌∷◌ sep uid) d m,
  match_pair-pair_text mall uid sep m u h,
)

-- Every spelling is found where it starts.
account_search-spelled :
    (a b : Char) (dash : Option Char) (mall : String) (sep : Char) (uid : String)
    → IsCs a b
    → IsDash dash
    → IsNumber mall
    → IsNumber uid
    → is_separator sep ≡ true
    → account_search (spelled a b dash mall sep uid) ≡ some (mall, uid, "")
unfolding account_search
account_search-spelled a b dash mall sep uid c d m u h =
    ground (arith, account_here-spelled a b dash mall sep uid c d m u h)

letter_no_space : (a : Char) → nat_eq (lower_code (code a)) b'c' ≡ true → is_space a ≡ false
unfolding is_space
letter_no_space a h = ground arith

append_assoc : (r s t : String) → append (append r s) t ≡ append r (append s t)
unfolding append
append_assoc String.[] s t = refl
append_assoc (String.◌∷◌ c r) s t = ap (String.◌∷◌ c) (append_assoc r s t)

-- A spelling ends with its seat.
spelled-ends :
    (a b : Char) (dash : Option Char) (mall : String) (sep : Char) (uid : String)
    → spelled a b dash mall sep uid ≡ append (spelled a b dash mall sep "") uid
unfolding append
spelled-ends a b none mall sep uid =
    ap (λ s. String.◌∷◌ a (String.◌∷◌ b s)) (sym (append_assoc mall (String.◌∷◌ sep "") uid))
spelled-ends a b (some d) mall sep uid =
    ap (λ s. String.◌∷◌ a (String.◌∷◌ b (String.◌∷◌ d s)))
      (sym (append_assoc mall (String.◌∷◌ sep "") uid))

strip-spelled :
    (a b : Char) (dash : Option Char) (mall : String) (sep : Char) (uid : String)
    → IsCs a b
    → IsNumber uid
    → strip (spelled a b dash mall sep uid) ≡ spelled a b dash mall sep uid
unfolding strip lstrip
strip-spelled a b dash mall sep uid c u = rw (letter_no_space a c.0) (
    ap rstrip (spelled-ends a b dash mall sep uid)
    ∙ rstrip-append (spelled a b dash mall sep "") uid u
    ∙ sym (spelled-ends a b dash mall sep uid))

canonical-spelled :
    (a b : Char) (dash : Option Char) (mall : String) (sep : Char) (uid : String)
    → IsCs a b
    → IsDash dash
    → IsNumber mall
    → IsNumber uid
    → is_separator sep ≡ true
    → canonical_account (spelled a b dash mall sep uid) ≡ seat_text mall uid
unfolding canonical_account canonical_stripped
canonical-spelled a b dash mall sep uid c d m u h =
    ap canonical_stripped (strip-spelled a b dash mall sep uid c u)
    ∙ ground (arith, account_search-spelled a b dash mall sep uid c d m u h)

full_seat-seat_text :
    (mall uid : String)
    → IsNumber mall
    → IsNumber uid
    → full_seat (seat_text mall uid) ≡ some (mall, uid)
unfolding seat_text append after_prefix has_prefix
full_seat-seat_text mall uid m u =
    let rest : after_prefix (seat_text mall uid) "cs_" ≡ pair_text mall colon uid =
      after_prefix-append "" (pair_text mall colon uid) in
    let starts : has_prefix (seat_text mall uid) "cs_" ≡ true = refl in
    let sep : has_prefix (pair_text "" colon uid) ":" ≡ true = refl in
    ground (
      arith,
      rest,
      starts,
      sep,
      ap match_pair rest ∙ match_pair-pair_text mall uid colon m u refl,
      ap (λ (t : String). after_prefix t mall) rest
          ∙ after_prefix-append mall (pair_text "" colon uid),
    )

key-spelled :
    (a b : Char) (dash : Option Char) (mall : String) (sep : Char) (uid : String)
    → IsCs a b
    → IsDash dash
    → IsNumber mall
    → IsNumber uid
    → is_separator sep ≡ true
    → seat_key (spelled a b dash mall sep uid) ≡ (mall, uid)
unfolding seat_key key_of
key-spelled a b dash mall sep uid c d m u h =
    ap (λ s. key_of (canonical_account s)) (strip-spelled a b dash mall sep uid c u)
    ∙ ap key_of (canonical-spelled a b dash mall sep uid c d m u h)
    ∙ ground (arith, full_seat-seat_text mall uid m u)

abbrev is_c : Char → Bool
is_c c = nat_eq (lower_code (code c)) b'c'

-- No spelling with `cs` starts anywhere.
abbrev has_c : String → Bool
has_c String.[] = false
has_c (String.◌∷◌ c s) = is_c c || has_c s

search-plain : (s : String) → has_c s ≡ false → account_search s ≡ none
unfolding account_search account_here
search-plain String.[] h = refl
search-plain (String.◌∷◌ a String.[]) h = refl
search-plain (String.◌∷◌ a (String.◌∷◌ b s)) h = ground (arith, h, search-plain (String.◌∷◌ b s))

number-has_c : (s : String) → only_digits s ≡ true → has_c s ≡ false
number-has_c String.[] h = refl
number-has_c (String.◌∷◌ c s) h = ground (arith, number-has_c s)

append-has_c : (s t : String) → has_c s ≡ false → has_c t ≡ false → has_c (append s t) ≡ false
unfolding append
append-has_c String.[] t h k = k
append-has_c (String.◌∷◌ c s) t h k = ground (arith, append-has_c s t)

pair-has_c :
    (mall uid : String) (sep : Char)
    → IsNumber mall
    → IsNumber uid
    → is_separator sep ≡ true
    → has_c (pair_text mall sep uid) ≡ false
pair-has_c mall uid sep m u h =
    append-has_c mall (String.◌∷◌ sep uid) (number-has_c mall m.1)
      (ground (arith, number-has_c uid u.1))

lstrip-number : (s t : String) → IsNumber s → lstrip (append s t) ≡ append s t
unfolding lstrip append
lstrip-number String.[] t m = absurd (false≢true (sym m.0))
lstrip-number (String.◌∷◌ c s) t m = rw (digit_no_space c (ground (arith, m.1))) refl

strip-pair :
    (mall uid : String) (sep : Char)
    → IsNumber mall
    → IsNumber uid
    → strip (pair_text mall sep uid) ≡ pair_text mall sep uid
unfolding strip append
strip-pair mall uid sep m u =
    let ends = append_assoc mall (String.◌∷◌ sep "") uid in
    ap rstrip (lstrip-number mall (String.◌∷◌ sep uid) m)
    ∙ ap rstrip (sym ends)
    ∙ rstrip-append (append mall (String.◌∷◌ sep "")) uid u
    ∙ ends

canonical-pair :
    (mall uid : String) (sep : Char)
    → IsNumber mall
    → IsNumber uid
    → is_separator sep ≡ true
    → canonical_account (pair_text mall sep uid) ≡ seat_text mall uid
unfolding canonical_account canonical_stripped plain_account
canonical-pair mall uid sep m u h =
    let s = pair_text mall sep uid in
    ap canonical_stripped (strip-pair mall uid sep m u)
    ∙ ground (
      arith,
      search-plain s (pair-has_c mall uid sep m u h),
      match_pair-pair_text mall uid sep m u h,
    )

key-pair :
    (mall uid : String) (sep : Char)
    → IsNumber mall
    → IsNumber uid
    → is_separator sep ≡ true
    → seat_key (pair_text mall sep uid) ≡ (mall, uid)
unfolding seat_key key_of
key-pair mall uid sep m u h =
    ap (λ (t : String). key_of (canonical_account t)) (strip-pair mall uid sep m u)
    ∙ ap key_of (canonical-pair mall uid sep m u h)
    ∙ ground (arith, full_seat-seat_text mall uid m u)

-- The spellings of a seat without white space around them, `cs` in any case or nothing, after `cs` a dash or
-- none, the shop, a colon or a dash, and the seat, are read as the shop and the seat, where these are nonempty
-- runs of digits; the form that the program writes is one of them.
pub seat_key-spelled :
    (a b : Char) (dash : Option Char) (mall : String) (sep : Char) (uid : String)
    → IsCs a b
    → IsDash dash
    → IsNumber mall
    → IsNumber uid
    → is_separator sep ≡ true
    → (seat_key (spelled a b dash mall sep uid) ≡ (mall, uid))
      × (seat_key (pair_text mall sep uid) ≡ (mall, uid))
      × (seat_key (seat_text mall uid) ≡ (mall, uid))
unfolding seat_text append
seat_key-spelled a b dash mall sep uid c d m u h = (
  key-spelled a b dash mall sep uid c d m u h,
  key-pair mall uid sep m u h,
  key-spelled "c" "s" (some "_") mall colon uid (refl, refl) refl m u refl,
)
