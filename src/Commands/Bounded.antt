-- ===== src/Commands/Bounded.antt =====
-- How often a command is sent, against how often the center took it over and whether the journal still
-- has it: the bound that every step of the channel keeps.
use pdd_bridge_agent.Prelude.{
  ℕ, ◌+◌, ◌≤◌, Bool, true, List, [], ◌∷◌, String, str_eq, if◌then◌else◌, ◌≡◌, refl, sym, subst,
  arith,
}
use pdd_bridge_agent.Json.{Fields}
use pdd_bridge_agent.Journal
use pdd_bridge_agent.Journal.{
  Journal, Entry, File, Outcome, value_error, returns, open_journal, State, result_pending,
}
use pdd_bridge_agent.Journal.Invariants.{IsDurable}
use pdd_bridge_agent.Journal.Presence.{has, file_has, Kept}
use pdd_bridge_agent.Commands.Channel.{
  Agent, World, Running, claimed, looked, admitted, performed, Effect, sent, opened, pulled,
  applied, settled,
}
use pdd_bridge_agent.Commands.Admission.{claim, report}
use pdd_bridge_agent.Commands.Conclusion.{report_all}

abbrev pub one_if : Bool → ℕ
one_if b = if b then 1 else 0

-- How often a message of the command went to the platform.
unfoldable pub count_sent : String → List Effect → ℕ
count_sent id [] = 0
count_sent id (sent i a b c ∷ es) = one_if (str_eq i id) + count_sent id es
count_sent id (opened i ∷ es) = count_sent id es
count_sent id (pulled i ∷ es) = count_sent id es
count_sent id (applied i ∷ es) = count_sent id es
count_sent id (settled i ∷ es) = count_sent id es

-- How often the center took the command's result over, so that its record was removed.
unfoldable pub count_settled : String → List Effect → ℕ
count_settled id [] = 0
count_settled id (settled i ∷ es) = one_if (str_eq i id) + count_settled id es
count_settled id (sent i a b c ∷ es) = count_settled id es
count_settled id (opened i ∷ es) = count_settled id es
count_settled id (pulled i ∷ es) = count_settled id es
count_settled id (applied i ∷ es) = count_settled id es

abbrev weight : String → Running → ℕ
weight id (claimed cmd) = 0
weight id (looked cmd) = 0
weight id (admitted cmd) = one_if (str_eq (Journal.command_id cmd) id)
weight id (performed i result) = 0

-- How many workers have admitted the command and not yet dispatched it.
unfoldable pub waiting : String → List Running → ℕ
waiting id [] = 0
waiting id (r ∷ rs) = weight id r + waiting id rs

pub record Bounded (id : String) (a : Agent) : Type 0 where
  pub durable : IsDurable a.journal
  pub memory :
      count_sent id a.effects + waiting id a.running ≤ count_settled id a.effects + has a.journal id
  pub file :
      count_sent id a.effects + waiting id a.running
      ≤ count_settled id a.effects + file_has a.journal.disk id

abbrev pub Same : Agent → Agent → Type 0
Same a a' = (a'.journal ≡ a.journal) × (a'.running ≡ a.running) × (a'.effects ≡ a.effects)

-- What does not touch the journal, the workers and the world keeps the bound.
pub Bounded-Same : (id : String) (a a' : Agent) → Same a a' → Bounded id a → Bounded id a'
Bounded-Same id a a' s b = record {
  durable = subst IsDurable (sym s.0) b.durable;
  memory = ground (arith, b.memory);
  file = ground (arith, b.file);
}

pub claim-Same : (w : World) (id : String) (a : Agent) → Same a (claim w id a).0
unfolding claim
claim-Same w id a = ground arith

pub report-Same : (id : String) (result : Fields) (a : Agent) → Same a (report id result a)
unfolding report
report-Same id result a = ground arith

pub report_all-Same : (rows : List (String × Fields)) (a : Agent) → Same a (report_all rows a)
unfolding report_all
report_all-Same [] a = (refl, refl, refl)
report_all-Same ((id, result) ∷ rest) a =
    ground (arith, report-Same id result a, report_all-Same rest (report id result a))

-- A change of the journal alone that forgets no id keeps the bound.
pub Bounded-Kept :
    (id : String) (a : Agent) (j : Journal)
    → IsDurable j
    → Kept a.journal j id
    → Bounded id a
    → Bounded id (record a { journal = j })
Bounded-Kept id a j v k b = record {
  durable = v;
  memory = ground (arith, b.memory, k.0);
  file = ground (arith, b.file, b.memory, k);
}

-- One more command is waiting, and the id that was missing is there.
pub one_more :
    (b : Bool) (s w t p p' : ℕ)
    → s + w ≤ t + p
    → (b ≡ true → p ≡ 0)
    → p' ≡ (if b then 1 else p)
    → s + (one_if b + w) ≤ t + p'
one_more b s w t p p' h z e = ground arith
