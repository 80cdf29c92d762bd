-- ===== src/Seats/Verdicts.antt =====
-- What `SeatScope.allows` of bridge/seat_scope.py lets through: exactly the seats that the workbench and
-- the configuration name.
use pdd_bridge_agent.Prelude.{
  ℕ, ◌-◌, ◌≤◌, Bool, true, false, ◌&&◌, ◌||◌, List, [], ◌∷◌, String, member, ◌≡◌, ◌↔◌, refl, ap,
  arith, false≢true,
}
use pdd_bridge_agent.Text.{is_blank}
use pdd_bridge_agent.Seats.Account.{seat_key}
use pdd_bridge_agent.Seats.Scope.{
  allow, Config, accounts, Scope, in_seats, Found, collect, configured_allowlist, cleaned,
  refresh_with, refresh, ensure_fresh, decide, judge, is_outbound, allows, is_empty,
}
use pdd_bridge_agent.Seats.Members.{
  named, collect-seats, collect-no_shop, collect-shops, collect_exact-all,
}

-- The message's seat is one that the workbench or the configuration names, or its whole shop is.
abbrev pub owns : Config → List String → String × String → Bool
owns cfg xs (mall, uid) =
    named (mall, uid) cfg.allowed_seat_accounts
    || (named (mall, uid) cfg.allowed_shop_ids || named (mall, uid) (cleaned xs))
    || (named (mall, "") cfg.allowed_shop_ids || named (mall, "") (cleaned xs))

-- What the three tests of `allows` see after a refresh.
refreshed-owns :
    (cfg : Config) (now : ℕ) (xs : List String) (mall uid : String) (s : Scope)
    → is_blank mall ≡ false
    → is_blank uid ≡ false
    → let r = refresh_with cfg now xs s in
      (in_seats (mall, uid) r.seats || in_seats (mall, "") r.seats || member mall r.shops)
      ≡ owns cfg xs (mall, uid)
unfolding refresh_with configured_allowlist
refreshed-owns cfg now xs mall uid s n u =
    let f0 : Found = record { seats = []; shops = [] } in
    let f1 : Found = collect (cleaned xs) f0 in
    let f2 : Found = collect cfg.allowed_shop_ids f1 in
    let (a, b, c) = collect_exact-all mall uid cfg.allowed_seat_accounts f2 n u in
    ground (
      arith,
      a,
      b,
      ap (member mall) c,
      collect-seats mall uid cfg.allowed_shop_ids f1 n u,
      collect-seats mall uid (cleaned xs) f0 n u,
      collect-no_shop mall cfg.allowed_shop_ids f1,
      collect-no_shop mall (cleaned xs) f0,
      collect-shops mall cfg.allowed_shop_ids f1 n,
      collect-shops mall (cleaned xs) f0 n,
    )

abbrev within : Scope → String × String → Bool
within s (mall, uid) =
    in_seats (mall, uid) s.seats || in_seats (mall, "") s.seats || member mall s.shops

-- A scope that has a seat or a shop is known.
within-known :
    (seats : List (String × String)) (shops : List String) (mall uid : String)
    → (in_seats (mall, uid) seats || in_seats (mall, "") seats || member mall shops) ≡ true
    → (is_empty seats && is_empty shops) ≡ false
within-known [] [] mall uid h = absurd (false≢true h)
within-known [] (x ∷ xs) mall uid h = refl
within-known (x ∷ xs) shops mall uid h = refl

-- Both parts of the account are recognized.
abbrev pub IsSeat : String × String → Type 0
IsSeat (mall, uid) = (is_blank mall ≡ false) × (is_blank uid ≡ false)

decide_exact :
    (account : String) (k : String × String) (s : Scope)
    → ((decide account k s).1 ≡ allow) ↔ (IsSeat k × (within s k ≡ true))
unfolding decide
decide_exact account (mall, uid) s = ground arith

judge_exact :
    (account : String) (s : Scope)
    → ((judge account s).1 ≡ allow)
      ↔ (IsSeat (seat_key account) × (within s (seat_key account) ≡ true))
unfolding judge
judge_exact account s =
    let known = within-known s.seats s.shops (seat_key account).0 (seat_key account).1 in
    ground (arith, decide_exact account (seat_key account) s, known)

within-refreshed :
    (cfg : Config) (now : ℕ) (xs : List String) (k : String × String) (s : Scope)
    → IsSeat k
    → within (refresh_with cfg now xs s) k ≡ owns cfg xs k
within-refreshed cfg now xs (mall, uid) s (n, u) = refreshed-owns cfg now xs mall uid s n u

-- An outbound message that comes when the filter is on and the sets are due, and the provider answers: it is allowed
-- exactly if its account is recognized as a shop and a seat and the provider's accounts or the
-- configuration name that seat, or the whole shop. So another seat of the same shop does not pass.
pub outbound_allowed_exact :
    (cfg : Config) (now : ℕ) (xs : List String) (account role : String) (s : Scope)
    → cfg.enabled ≡ true
    → is_outbound role ≡ true
    → cfg.refresh_ticks ≤ now - s.refreshed_at
    → ((allows cfg now (accounts xs) account role s).1 ≡ allow)
      ↔ (IsSeat (seat_key account) × (owns cfg xs (seat_key account) ≡ true))
unfolding allows ensure_fresh refresh
outbound_allowed_exact cfg now xs account role s on out due =
    let r = refresh_with cfg now xs s in
    let fresh : allows cfg now (accounts xs) account role s ≡ judge account r = ground arith in
    rw fresh
      (ground (arith, judge_exact account r, within-refreshed cfg now xs (seat_key account) s))
