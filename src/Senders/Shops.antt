-- ===== src/Senders/Shops.antt =====
-- Which shops use the pool of senders: `_account_shop_id` and `_command_sender_enabled` of
-- bridge/agent.py. `is_digit` is `str.isdigit` of one character.
use pdd_bridge_agent.Prelude.{
  Bool, true, false, not, ◌&&◌, ◌||◌, Option, none, some, List, [], ◌∷◌, String, Char, code, str_eq,
  nat_eq, if◌then◌else◌, member, keep, map, ◌≡◌, refl, ap,
}
use pdd_bridge_agent.Text.{strip, is_blank, or_text, append, has_prefix}
use pdd_bridge_agent.Dict
use pdd_bridge_agent.Dict.{Dict}

-- The text before the first character that a test finds; all of it where there is none
unfoldable pub before : (Char → Bool) → String → String
before p String.[] = ""
before p (String.◌∷◌ c s) = if p c then "" else String.◌∷◌ c (before p s)

-- `s[len(t):]`
abbrev pub behind : String → String → String
behind s String.[] = s
behind String.[] (String.◌∷◌ d t) = ""
behind (String.◌∷◌ c s) (String.◌∷◌ d t) = behind s t

abbrev pub is_colon : Char → Bool
is_colon c = nat_eq (code c) b':'

abbrev pub is_underscore : Char → Bool
is_underscore c = nat_eq (code c) b'_'

abbrev any_colon : Char → Bool
any_colon c = is_colon c || nat_eq (code c) 0xff1a

-- `_taobao_store_account`; an account without a colon is its own store.
unfoldable pub taobao_store_account : String → String
unfolding before strip
taobao_store_account account = let a = strip account in or_text (strip (before any_colon a)) a

-- `platform` is the agent's; `shop_map` is empty where it is missing.
pub record Shops : Type 0 where
  pub platform : String
  pub shop_map : Dict String
  pub enabled : Bool
  pub disabled_ids : List String
  pub shop_ids : List String

-- A shop of the map
unfoldable pub mapped_shop : Shops → String → String → String
unfolding taobao_store_account
mapped_shop cfg account mapped =
    let store = taobao_store_account account in
    if str_eq cfg.platform "taobao" && has_prefix mapped "tb_nick_" && not (str_eq store account)
    then append "tb_nick_" store
    else mapped

abbrev mapped_text : Option String → String
mapped_text none = ""
mapped_text (some s) = strip s

module _ (is_digit : Char → Bool) where
  abbrev pub all_digits : String → Bool
  all_digits String.[] = true
  all_digits (String.◌∷◌ c s) = is_digit c && all_digits s

  -- The shop number of a seat's account, of the text behind `cs_`
  unfoldable pub seat_shop : String → String
  unfolding before append
  seat_shop rest =
      let mall = before is_underscore (before is_colon rest) in
      if not (is_blank mall) && all_digits mall then append "mall_" mall else ""

  -- The shop of an account that the map does not know
  unfoldable pub unmapped_shop : Shops → String → String
  unfolding seat_shop taobao_store_account append
  unmapped_shop cfg account =
      if has_prefix account "cs_"
      then seat_shop (behind account "cs_")
      else if has_prefix account "mall_" || has_prefix account "tb_"
      then account
      else if str_eq cfg.platform "taobao"
      then append "tb_nick_" (taobao_store_account account)
      else ""

  -- `_account_shop_id`
  unfoldable pub account_shop_id : Shops → String → String
  unfolding strip mapped_shop unmapped_shop
  account_shop_id cfg account =
      let a = strip account in
      let mapped = mapped_text (Dict.get cfg.shop_map a) in
      if is_blank a
      then ""
      else if not (is_blank mapped)
      then mapped_shop cfg a mapped
      else unmapped_shop cfg a

  -- The texts of a list that are not blank
  abbrev pub cleaned : List String → List String
  cleaned xs = keep (λ s. not (is_blank s)) (map strip xs)

  -- `_shop_in_list`
  abbrev pub shop_in_list : List String → String → Bool
  shop_in_list xs shop = not (is_blank shop) && member shop (cleaned xs)

  abbrev is_none : List String → Bool
  is_none [] = true
  is_none (x ∷ xs) = false

  -- `_command_sender_enabled`; a list that is missing or no list is an empty one.
  unfoldable pub command_sender_enabled : Shops → String → Bool
  unfolding account_shop_id
  command_sender_enabled cfg account =
      let shop = strip (account_shop_id cfg account) in
      if not cfg.enabled
      then false
      else if shop_in_list cfg.disabled_ids shop
      then false
      else is_none (cleaned cfg.shop_ids) || shop_in_list (cleaned cfg.shop_ids) shop

  -- No character of the text is found by the test.
  abbrev FreeOf : (Char → Bool) → String → Type 0
  FreeOf p String.[] = Unit
  FreeOf p (String.◌∷◌ c s) = (p c ≡ false) × FreeOf p s

  before-append :
      (p : Char → Bool) (s : String) (c : Char) (t : String)
      → FreeOf p s
      → p c ≡ true
      → before p (append s (String.◌∷◌ c t)) ≡ s
  unfolding before append
  before-append p String.[] c t f h = rw h refl
  before-append p (String.◌∷◌ d s) c t f h =
      rw f.0 (ap (λ (r : String). String.◌∷◌ d r) (before-append p s c t f.1 h))

  before-free : (p : Char → Bool) (s : String) → FreeOf p s → before p s ≡ s
  unfolding before
  before-free p String.[] f = refl
  before-free p (String.◌∷◌ d s) f =
      rw f.0 (ap (λ (r : String). String.◌∷◌ d r) (before-free p s f.1))

  -- The seat behind the number of a shop may be divided from it by a colon or by an underscore: the shop of the
  -- seat is that of the number, for every number of digits without either character.
  pub seat_shop-spelled :
      (mall seat : String) (colon underscore : Char)
      → is_blank mall ≡ false
      → all_digits mall ≡ true
      → FreeOf is_colon mall
      → FreeOf is_underscore mall
      → is_colon colon ≡ true
      → is_underscore underscore ≡ true
      → FreeOf is_colon (append mall (String.◌∷◌ underscore seat))
      → (seat_shop (append mall (String.◌∷◌ colon seat)) ≡ append "mall_" mall)
        × (seat_shop (append mall (String.◌∷◌ underscore seat)) ≡ append "mall_" mall)
  unfolding seat_shop
  seat_shop-spelled mall seat colon underscore some_digit digits f g c u h = (
    rw
        (
          before-append is_colon mall colon seat f c,
          before-free is_underscore mall g,
          some_digit,
          digits,
        )
        refl,
    rw
        (
          before-free is_colon (append mall (String.◌∷◌ underscore seat)) h,
          before-append is_underscore mall underscore seat g u,
          some_digit,
          digits,
        )
        refl,
  )
