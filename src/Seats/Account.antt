-- ===== src/Seats/Account.antt =====
-- `_canonical_account` of bridge/parser.py on a text, and `seat_key` of bridge/seat_scope.py. Digits
-- are the ASCII digits.
use pdd_bridge_agent.Prelude.{
  Bool, not, ◌&&◌, ◌||◌, Option, none, some, String, Char, code, leb, nat_eq, if◌then◌else◌, ◌≡◌,
  refl,
}
use pdd_bridge_agent.Text.{strip, is_blank, append, has_prefix, lower_code}

abbrev pub is_digit : Char → Bool
is_digit c = leb b'0' (code c) && leb (code c) b'9'

-- `[:_\-]`
abbrev pub is_separator : Char → Bool
is_separator c = nat_eq (code c) b':' || nat_eq (code c) b'_' || nat_eq (code c) b'-'

-- `[_\-]`
abbrev pub is_dash : Char → Bool
is_dash c = nat_eq (code c) b'_' || nat_eq (code c) b'-'

-- The digits that a text starts with, and the rest.
unfoldable pub span_digits : String → String × String
span_digits String.[] = (String.[], String.[])
span_digits (String.◌∷◌ c s) =
    let (digits, rest) = span_digits s in
    if is_digit c then (String.◌∷◌ c digits, rest) else (String.[], String.◌∷◌ c s)

abbrev pair_rest : String → String × String → Option (String × String × String)
pair_rest mall (uid, rest) = if is_blank uid then none else some (mall, uid, rest)

abbrev pub pair_tail : String × String → Option (String × String × String)
pair_tail (mall, String.[]) = none
pair_tail (mall, String.◌∷◌ c s) =
    if not (is_blank mall) && is_separator c then pair_rest mall (span_digits s) else none

-- `(?P<mall>\d+)[:_\-](?P<uid>\d+)` at the start of a text, with what follows it
unfoldable pub match_pair : String → Option (String × String × String)
unfolding span_digits
match_pair s = pair_tail (span_digits s)

abbrev pub after_cs : String → Option (String × String × String)
after_cs String.[] = none
after_cs (String.◌∷◌ c s) = if is_dash c then match_pair s else match_pair (String.◌∷◌ c s)

-- An s in any case; Python's `re.I` takes the long s for one too.
abbrev pub is_s : Char → Bool
is_s c = nat_eq (lower_code (code c)) b's' || nat_eq (code c) 0x17f

-- `ACCOUNT_RE` at the start of a text: `cs` in any case, one `_` or `-` at most, and the pair
unfoldable pub account_here : String → Option (String × String × String)
unfolding match_pair
account_here (String.◌∷◌ a (String.◌∷◌ b s)) =
    if nat_eq (lower_code (code a)) b'c' && is_s b then after_cs s else none
account_here _ = none

-- `ACCOUNT_RE.search`: the first place where it matches
unfoldable pub account_search : String → Option (String × String × String)
unfolding account_here
account_search String.[] = none
account_search (String.◌∷◌ c s) =
    let later = account_search s in
    elim (account_here (String.◌∷◌ c s)) [ some m ↦ some m | none ↦ later ]

-- `PLAIN_ACCOUNT_RE.fullmatch`
unfoldable pub plain_account : String → Option (String × String)
unfolding match_pair
plain_account s = elim (match_pair s) [
  | none ↦ none
  | some (mall, uid, rest) ↦ if is_blank rest then some (mall, uid) else none
]

-- `f"cs_{mall}:{uid}"`
unfoldable pub seat_text : String → String → String
unfolding append
seat_text mall uid = append "cs_" (append mall (append ":" uid))

-- `text.replace("cs-", "cs_")`
unfoldable replace_cs : String → String
replace_cs (String.◌∷◌ a (String.◌∷◌ b (String.◌∷◌ c s))) =
    let rest = replace_cs s in
    let on = String.◌∷◌ a (replace_cs (String.◌∷◌ b (String.◌∷◌ c s))) in
    if nat_eq (code a) b'c' && nat_eq (code b) b's' && nat_eq (code c) b'-'
    then append "cs_" rest
    else on
replace_cs s = s

-- What `_canonical_account` makes of the stripped text. The last test of the source, for
-- `cs_<digits>_<digits>`, is not reached: `ACCOUNT_RE` has matched such a text.
unfoldable pub canonical_stripped : String → String
unfolding account_search plain_account seat_text replace_cs
canonical_stripped s = elim (account_search s) [
  | some (mall, uid, rest) ↦ seat_text mall uid
  | none ↦ elim (plain_account s) [ some (mall, uid) ↦ seat_text mall uid | none ↦ replace_cs s ]
]

-- `_canonical_account` of a text
unfoldable pub canonical_account : String → String
unfolding canonical_stripped
canonical_account value = canonical_stripped (strip value)

-- What follows a prefix that the text has; the text itself otherwise.
unfoldable pub after_prefix : String → String → String
after_prefix (String.◌∷◌ c s) (String.◌∷◌ d t) =
    if nat_eq (code c) (code d) then after_prefix s t else String.◌∷◌ c s
after_prefix s _ = s

abbrev all_digits_of : String × String → Bool
all_digits_of (digits, rest) = not (is_blank digits) && is_blank rest

-- `\d+` on the whole text
unfoldable all_digits : String → Bool
unfolding span_digits
all_digits s = all_digits_of (span_digits s)

abbrev pub full_seat : String → Option (String × String)
full_seat s =
    if has_prefix s "cs_"
    then (elim (match_pair (after_prefix s "cs_")) [
      | none ↦ none
      | some (mall, uid, rest) ↦
          if is_blank rest && has_prefix (after_prefix (after_prefix s "cs_") mall) ":"
          then some (mall, uid)
          else none
    ])
    else none

abbrev shop_of : String → String
shop_of s =
    if has_prefix s "mall_" && all_digits (after_prefix s "mall_")
    then after_prefix s "mall_"
    else if has_prefix s "cs_" && all_digits (after_prefix s "cs_")
    then after_prefix s "cs_"
    else if all_digits s
    then s
    else ""

-- What `seat_key` makes of the canonical text: the shop and the seat, each blank where it is not
-- recognized.
unfoldable pub key_of : String → String × String
unfolding after_prefix all_digits
key_of s = elim (full_seat s) [ some (mall, uid) ↦ (mall, uid) | none ↦ (shop_of s, "") ]

-- `seat_key`
unfoldable pub seat_key : String → String × String
unfolding canonical_account key_of
seat_key value = key_of (canonical_account (strip value))

spellings :
    (seat_key " cs_100000001:200000007" ≡ ("100000001", "200000007"))
    × (seat_key "CS-100000001_200000007" ≡ ("100000001", "200000007"))
    × (seat_key "100000001:200000007" ≡ ("100000001", "200000007"))
    × (seat_key "mall_100000001" ≡ ("100000001", ""))
    × (seat_key "cs-100000001" ≡ ("100000001", ""))
    × (seat_key "主账号" ≡ ("", ""))
unfolding seat_key strip has_prefix
spellings = (refl, refl, refl, refl, refl, refl)
