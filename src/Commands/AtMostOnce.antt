-- ===== src/Commands/AtMostOnce.antt =====
-- How often bridge/agent.py sends a command to a buyer, against how often the center has taken its result over.
use pdd_bridge_agent.Prelude.{List, [], ◌∷◌, String}
use pdd_bridge_agent.Journal
use pdd_bridge_agent.Journal.{
  Journal, Entry, Outcome, value_error, returns, open_journal, State, result_pending,
}
use pdd_bridge_agent.Journal.Invariants
use pdd_bridge_agent.Journal.Invariants.{IsDurable, settle, command_id_stripped}
use pdd_bridge_agent.Commands.Channel.{Agent}
use pdd_bridge_agent.Commands.Steps.{Step, step}
use pdd_bridge_agent.Commands.Bounded.{Bounded}
use pdd_bridge_agent.Commands.Single.{KeepsClaim}
use pdd_bridge_agent.Commands.Flights.{Single}

-- Along the steps, no cut of the claimed set drops the id.
abbrev pub KeepsClaims : String → List Step → Agent → Type 0
KeepsClaims id [] a = Unit
KeepsClaims id (s ∷ rest) a = KeepsClaim id s a × KeepsClaims id rest (step s a)
