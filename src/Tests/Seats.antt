-- ===== src/Tests/Seats.antt =====
-- A shop of two seats, of which one is this machine's.
use pdd_bridge_agent.Prelude.{true, some, List, Char, [], ◌∷◌, ◌≡◌, ◌↔◌, refl, arith}
use pdd_bridge_agent.Text.{lower_is, strip}
use pdd_bridge_agent.Seats.Account.{seat_key, seat_text}
use pdd_bridge_agent.Seats.RoundTrip.{seat_key-spelled, spelled, pair_text}
use pdd_bridge_agent.Seats.Scope.{allow, Config, accounts, fails, Scope, nothing, allows}
use pdd_bridge_agent.Seats.Verdicts.{outbound_allowed_exact, IsSeat, owns}
use pdd_bridge_agent.Seats.Counters.{Call}

abbrev dash : Char
dash = "-"

abbrev upper_c : Char
upper_c = "C"

abbrev upper_s : Char
upper_s = "S"

seat_key-spelled_example :
    (seat_key (spelled upper_c upper_s (some dash) "100" dash "27") ≡ ("100", "27"))
    × (seat_key (pair_text "100" dash "27") ≡ ("100", "27"))
    × (seat_key (seat_text "100" "27") ≡ ("100", "27"))
seat_key-spelled_example =
    seat_key-spelled upper_c upper_s (some dash) "100" dash "27" (refl, refl) refl (refl, refl)
      (refl, refl) refl

abbrev config : Config
config = record {
  enabled = true;
  refresh_ticks = 30;
  allowed_shop_ids = [];
  allowed_seat_accounts = [];
}

abbrev scope : Scope
scope = record {
  seats = [];
  shops = [];
  discovered = [];
  refreshed_at = 0;
  stats = record {
    refreshes = 0;
    allowed = 0;
    blocked = 0;
    unknown_passed = 0;
    inbound_passed = 0;
    blocked_empty_account = 0;
    blocked_other_seat = 0;
    blocked_shop_only = 0;
    shrink_warnings = 0;
    last_blocked = nothing;
  };
}

outbound_allowed_exact_example :
    ((allows config 100 (accounts ("cs_100:27" ∷ [])) "cs_100:28" "mall_cs" scope).1 ≡ allow) ↔ (
      IsSeat (seat_key "cs_100:28")
      × (owns config ("cs_100:27" ∷ []) (seat_key "cs_100:28") ≡ true))
outbound_allowed_exact_example =
    outbound_allowed_exact config 100 ("cs_100:27" ∷ []) "cs_100:28" "mall_cs" scope refl
      (unfold strip lower_is in refl) (omega arith)

abbrev calls : List Call
calls =
    record {
      now = 100;
      provider = accounts ("cs_100:27" ∷ []);
      account = "cs_100:28";
      role = "mall_cs";
    }
    ∷ record { now = 101; provider = fails; account = "cs_100:27"; role = "mall_cs" }
    ∷ []
