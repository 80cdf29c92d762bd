-- ===== src/Tests/Hub.antt =====
-- A hub with one legacy token, and a queue of two commands.
use pdd_bridge_agent.Prelude.{
  true, false, [], ◌∷◌, String, take, drop, member, ◌≡◌, ◌≢◌, refl, arith,
}
use pdd_bridge_agent.Text.{strip, lower_is}
use pdd_bridge_agent.Dict
use pdd_bridge_agent.Json.{Fields, end, field, bool}
use pdd_bridge_agent.Hub.Tokens.{Tokens, normalize_platform, resolve_agent_id}
use pdd_bridge_agent.Hub.Identity.{identity_is_stable, resolve_all}
use pdd_bridge_agent.Hub.Queue.{
  Hub, Command, send_text, new_command, pull_commands, complete_command, returns, finish_command,
}
use pdd_bridge_agent.Hub.Delivery.{pull_is_fifo, outstanding}

abbrev digest : String → String
digest s = "0123456789abcdef"

abbrev tokens : Tokens
tokens = record {
  tokens = "t" ∷ "u" ∷ [];
  token_principals = ("u", "seat-1") ∷ [];
  legacy_tokens = "t" ∷ [];
  legacy_token_principals = [];
  legacy_token_channels = [];
}

identity_is_stable_example :
    (resolve_agent_id digest "t" "pdd-0123456789abcdef" " PDD "
      (resolve_all digest (("t", "", "tb") ∷ []) (resolve_agent_id digest "t" "" "pdd" tokens).0)).1
    ≡ (resolve_agent_id digest "t" "" "pdd" tokens).1
identity_is_stable_example =
    identity_is_stable digest "t" "" "pdd-0123456789abcdef" "pdd" " PDD " (("t", "", "tb") ∷ [])
      tokens (unfold strip normalize_platform lower_is in (refl, refl, refl, refl))
      (unfold strip normalize_platform lower_is in refl)

abbrev hello : Command
hello = new_command 5 send_text "a1" "7" "cs_1:2" "hi" end

abbrev hub : Hub
hub = record {
  agents = [];
  commands = ("c1", hello) ∷ [];
  queues = ("a1", "c1" ∷ []) ∷ [];
  events = [];
}

pull_is_fifo_example :
    ((pull_commands 9 " a1" 1 hub).1 ≡ take 1 (outstanding hub (strip " a1")))
    × (outstanding (pull_commands 9 " a1" 1 hub).0 (strip " a1")
        ≡ drop 1 (outstanding hub (strip " a1")))
    × ((a : String)
        → strip " a1" ≢ a
        → outstanding (pull_commands 9 " a1" 1 hub).0 a ≡ outstanding hub a)
pull_is_fifo_example = pull_is_fifo 9 " a1" 1 hub

-- No queue of the hub has a second command.
unqueued_there : (a : String) → member "c2" (Dict.or_else (Dict.get hub.queues a) []) ≡ false
unfolding Dict.get
unqueued_there a = ground arith

abbrev done : Fields
done = field "ok" (bool true) end

abbrev hub_done : Hub
hub_done = record hub { commands = ("c1", finish_command 9 done hello) ∷ [] }

completed : complete_command 9 "c1" "a1" done hub ≡ returns (hub_done, finish_command 9 done hello)
unfolding complete_command strip Dict.get Dict.put
completed = refl
