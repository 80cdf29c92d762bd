-- ===== src/Seats/Counters.antt =====
-- The counters of `SeatScope` of bridge/seat_scope.py against the verdicts that it gave.
use pdd_bridge_agent.Prelude.{ℕ, ◌+◌, true, List, [], ◌∷◌, String, ◌≡◌, arith}
use pdd_bridge_agent.Seats.Account.{seat_key}
use pdd_bridge_agent.Seats.Scope.{
  Verdict, allow, block, unknown, Config, Provider, Stats, Scope, refresh_with, refresh,
  ensure_fresh, decide, judge, allows,
}

-- One call of `allows`: the time, what the provider would answer, and the message.
pub record Call : Type 0 where
  pub now : ℕ
  pub provider : Provider
  pub account : String
  pub role : String

unfoldable pub allows_all : Config → List Call → Scope → Scope × List Verdict
allows_all cfg [] s = (s, [])
allows_all cfg (c ∷ cs) s =
    let (s', v) = allows cfg c.now c.provider c.account c.role s in
    let (s'', vs) = allows_all cfg cs s' in (s'', v ∷ vs)

abbrev pub is_allow : Verdict → ℕ
is_allow allow = 1
is_allow _ = 0

abbrev pub is_block : Verdict → ℕ
is_block block = 1
is_block _ = 0

abbrev pub is_unknown : Verdict → ℕ
is_unknown unknown = 1
is_unknown _ = 0

abbrev pub count : (Verdict → ℕ) → List Verdict → ℕ
count p [] = 0
count p (v ∷ vs) = p v + count p vs

-- The counters have grown by what was counted, and the three reasons add up to the blocked ones.
pub record Counts (before after : Stats) (allows blocks unknowns : ℕ) : Type 0 where
  pub allowed :
      after.allowed + after.inbound_passed ≡ before.allowed + before.inbound_passed + allows
  pub blocked : after.blocked ≡ before.blocked + blocks
  pub unknown_passed : after.unknown_passed ≡ before.unknown_passed + unknowns
  pub reasons :
      after.blocked_empty_account + after.blocked_shop_only + after.blocked_other_seat
      ≡ before.blocked_empty_account + before.blocked_shop_only + before.blocked_other_seat + blocks

decide-Counts :
    (account : String) (k : String × String) (s : Scope)
    → let r = decide account k s in
      Counts s.stats r.0.stats (is_allow r.1) (is_block r.1) (is_unknown r.1)
unfolding decide
decide-Counts account (mall, uid) s = record {
  allowed = ground arith;
  blocked = ground arith;
  unknown_passed = ground arith;
  reasons = ground arith;
}

judge-Counts :
    (account : String) (s : Scope)
    → let r = judge account s in
      Counts s.stats r.0.stats (is_allow r.1) (is_block r.1) (is_unknown r.1)
unfolding judge
judge-Counts account s =
    let c = decide-Counts account (seat_key account) s in
    record {
      allowed = ground (arith, c.allowed);
      blocked = ground (arith, c.blocked);
      unknown_passed = ground (arith, c.unknown_passed);
      reasons = ground (arith, c.reasons);
    }

-- A refresh counts no verdict.
ensure_fresh-Counts :
    (cfg : Config) (now : ℕ) (provider : Provider) (s : Scope)
    → Counts s.stats (ensure_fresh cfg now provider s).stats 0 0 0
unfolding ensure_fresh refresh refresh_with
ensure_fresh-Counts cfg now provider s = record {
  allowed = ground arith;
  blocked = ground arith;
  unknown_passed = ground arith;
  reasons = ground arith;
}

allows-Counts :
    (cfg : Config) (c : Call) (s : Scope)
    → cfg.enabled ≡ true
    → let r = allows cfg c.now c.provider c.account c.role s in
      Counts s.stats r.0.stats (is_allow r.1) (is_block r.1) (is_unknown r.1)
unfolding allows
allows-Counts cfg c s on =
    let f = ensure_fresh-Counts cfg c.now c.provider s in
    let j = judge-Counts c.account (ensure_fresh cfg c.now c.provider s) in
    record {
      allowed = ground (arith, f.allowed, j.allowed);
      blocked = ground (arith, f.blocked, j.blocked);
      unknown_passed = ground (arith, f.unknown_passed, j.unknown_passed);
      reasons = ground (arith, f.reasons, j.reasons);
    }

-- While the filter is on, every call is counted once: over any sequence of calls the blocked
-- verdicts, the unknown ones and the allowed ones are what their counters have grown by, and each
-- blocked one is counted under exactly one of the three reasons.
pub counters_exact :
    (cfg : Config) (calls : List Call) (s : Scope)
    → cfg.enabled ≡ true
    → let r = allows_all cfg calls s in
      Counts s.stats r.0.stats (count is_allow r.1) (count is_block r.1) (count is_unknown r.1)
unfolding allows_all
counters_exact cfg [] s on = record {
  allowed = omega arith;
  blocked = omega arith;
  unknown_passed = omega arith;
  reasons = omega arith;
}
counters_exact cfg (c ∷ cs) s on =
    let s' = (allows cfg c.now c.provider c.account c.role s).0 in
    let a = allows-Counts cfg c s on in
    let b = counters_exact cfg cs s' on in
    record {
      allowed = omega (arith, a.allowed, b.allowed);
      blocked = omega (arith, a.blocked, b.blocked);
      unknown_passed = omega (arith, a.unknown_passed, b.unknown_passed);
      reasons = omega (arith, a.reasons, b.reasons);
    }
