-- ===== src/Seats/Scope.antt =====
-- `SeatScope` of bridge/seat_scope.py: the seats of this machine, and which messages are let through.
-- A set is a list of which only the members count. Times are ticks of `time.time()`.
use pdd_bridge_agent.Prelude.{
  ℕ, ◌+◌, ◌-◌, Bool, true, false, not, ◌&&◌, ◌||◌, List, [], ◌∷◌, String, str_eq, leb,
  if◌then◌else◌, member, keep, map, some_of,
}
use pdd_bridge_agent.Text.{strip, is_blank, lower_is}
use pdd_bridge_agent.Seats.Account.{seat_key}

-- `SCOPE_ALLOW`, `SCOPE_BLOCK`, `SCOPE_UNKNOWN`
pub data Verdict : Type 0 where
  allow block unknown : Verdict

-- The configuration: `enforce_seat_scope`, the interval, and the two lists, empty where they are
-- missing or no list.
pub record Config : Type 0 where
  pub enabled : Bool
  pub refresh_ticks : ℕ
  pub allowed_shop_ids : List String
  pub allowed_seat_accounts : List String

-- `accounts_provider`: there is none, it raises, or it returns accounts.
pub data Provider : Type 0 where
  absent : Provider
  fails : Provider
  accounts : List String → Provider

pub data LastBlocked : Type 0 where
  nothing : LastBlocked
  no_owner shop_only other_seat : String → LastBlocked

pub record Stats : Type 0 where
  pub refreshes : ℕ
  pub allowed : ℕ
  pub blocked : ℕ
  pub unknown_passed : ℕ
  pub inbound_passed : ℕ
  pub blocked_empty_account : ℕ
  pub blocked_other_seat : ℕ
  pub blocked_shop_only : ℕ
  pub shrink_warnings : ℕ
  pub last_blocked : LastBlocked

pub record Scope : Type 0 where
  pub seats : List (String × String)
  pub shops : List String
  pub discovered : List String
  pub refreshed_at : ℕ
  pub stats : Stats

abbrev pub same_seat : String × String → String × String → Bool
same_seat (mall, uid) (mall', uid') = str_eq mall mall' && str_eq uid uid'

abbrev pub in_seats : String × String → List (String × String) → Bool
in_seats seat seats = some_of (same_seat seat) seats

-- The seats and the shops that accounts name.
pub record Found : Type 0 where
  pub seats : List (String × String)
  pub shops : List String

abbrev pub add_seat : String × String → Found → Found
add_seat (mall, uid) f =
    if is_blank mall
    then f
    else if is_blank uid
    then record f { shops = mall ∷ f.shops }
    else record f { seats = (mall, uid) ∷ f.seats }

unfoldable pub collect : List String → Found → Found
collect [] f = f
collect (a ∷ xs) f = collect xs (add_seat (seat_key a) f)

abbrev pub add_exact : String × String → Found → Found
add_exact (mall, uid) f =
    if is_blank mall || is_blank uid then f else record f { seats = (mall, uid) ∷ f.seats }

unfoldable pub collect_exact : List String → Found → Found
collect_exact [] f = f
collect_exact (a ∷ xs) f = collect_exact xs (add_exact (seat_key a) f)

-- `_configured_allowlist`, added to what was found
unfoldable pub configured_allowlist : Config → Found → Found
unfolding collect collect_exact
configured_allowlist cfg f =
    collect_exact cfg.allowed_seat_accounts (collect cfg.allowed_shop_ids f)

-- `[str(a or "").strip() for a in accounts if ...]`
unfoldable pub cleaned : List String → List String
cleaned xs = keep (λ a. not (is_blank a)) (map strip xs)

abbrev shrank : List (String × String) → List (String × String) → Bool
shrank previous seats = some_of (λ s. not (in_seats s seats)) previous

-- `refresh` with the accounts at hand
unfoldable pub refresh_with : Config → ℕ → List String → Scope → Scope
unfolding cleaned collect configured_allowlist
refresh_with cfg now xs s =
    let raw = cleaned xs in
    let found = configured_allowlist cfg (collect raw (record { seats = []; shops = [] })) in
    let st = s.stats in
    record {
      seats = found.seats;
      shops = found.shops;
      discovered = raw;
      refreshed_at = now;
      stats = record st {
        refreshes = st.refreshes + 1;
        shrink_warnings =
            if shrank s.seats found.seats then st.shrink_warnings + 1 else st.shrink_warnings;
      };
    }

-- `refresh()`: a provider that raises leaves everything as it was.
unfoldable pub refresh : Config → ℕ → Provider → Scope → Scope
unfolding refresh_with
refresh cfg now absent s = refresh_with cfg now [] s
refresh cfg now fails s = s
refresh cfg now (accounts xs) s = refresh_with cfg now xs s

-- `_ensure_fresh`
unfoldable pub ensure_fresh : Config → ℕ → Provider → Scope → Scope
unfolding refresh
ensure_fresh cfg now provider s =
    if leb cfg.refresh_ticks (now - s.refreshed_at) then refresh cfg now provider s else s

abbrev pub is_empty {ℓ} : {A : Type ℓ} → List A → Bool
is_empty [] = true
is_empty (x ∷ xs) = false

abbrev count_blocked : LastBlocked → Stats → Stats
count_blocked reason st = record st { blocked = st.blocked + 1; last_blocked = reason }

-- The verdict on an account that is recognized as a shop and a seat.
unfoldable pub decide : String → String × String → Scope → Scope × Verdict
decide account (mall, uid) s =
    let st = s.stats in
    if is_blank mall
    then (
      record s {
        stats = record (count_blocked (no_owner account) st) {
          blocked_empty_account = st.blocked_empty_account + 1;
        };
      },
      block,
    )
    else if is_blank uid
    then (
      record s {
        stats = record (count_blocked (shop_only account) st) {
          blocked_shop_only = st.blocked_shop_only + 1;
        };
      },
      block,
    )
    else if in_seats (mall, uid) s.seats || in_seats (mall, "") s.seats || member mall s.shops
    then (record s { stats = record st { allowed = st.allowed + 1 } }, allow)
    else (
      record s {
        stats = record (count_blocked (other_seat account) st) {
          blocked_other_seat = st.blocked_other_seat + 1;
        };
      },
      block,
    )

-- An outbound message, on the sets as they are now.
unfoldable pub judge : String → Scope → Scope × Verdict
unfolding decide
judge account s =
    let st = s.stats in
    if is_empty s.seats && is_empty s.shops
    then (
      record s {
        stats = record st { unknown_passed = st.unknown_passed + 1; last_blocked = nothing };
      },
      unknown,
    )
    else decide account (seat_key account) s

abbrev pub is_outbound : String → Bool
is_outbound role = lower_is (strip role) "mall_cs"

-- `allows`
unfoldable pub allows : Config → ℕ → Provider → String → String → Scope → Scope × Verdict
unfolding ensure_fresh judge
allows cfg now provider account role s =
    let st = s.stats in
    if not cfg.enabled
    then (s, allow)
    else if not (is_outbound role)
    then (record s { stats = record st { inbound_passed = st.inbound_passed + 1 } }, allow)
    else judge account (ensure_fresh cfg now provider s)
