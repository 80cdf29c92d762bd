-- ===== src/Commands/Flights.antt =====
-- The threads of bridge/agent.py that are about a command, and the steps that change nothing for it.
use pdd_bridge_agent.Prelude.{
  ℕ, zero, suc, ◌+◌, ◌≤◌, Bool, true, false, ◌||◌, some, List, [], ◌∷◌, String, str_eq, member, ◌≡◌,
  refl, ap, ◌∙◌, inl, inr, arith, Option-cases, if_ind,
}
use pdd_bridge_agent.Text.{strip, is_blank}
use pdd_bridge_agent.Json.{Fields}
use pdd_bridge_agent.Journal
use pdd_bridge_agent.Journal.{Journal, Entry, Outcome, State, result_pending, value_error, returns}
use pdd_bridge_agent.Journal.Invariants.{IsDurable}
use pdd_bridge_agent.Journal.Presence.{has, remove_presence}
use pdd_bridge_agent.Commands.Channel.{Agent, World, Running, claimed, looked, admitted, performed}
use pdd_bridge_agent.Commands.Admission.{replay, report, result_or_empty}
use pdd_bridge_agent.Commands.Conclusion.{report_all}
use pdd_bridge_agent.Commands.Steps.{
  pick, report_turn, send_command_result, refused_result, committed_result, finished, Reply,
  failure, acknowledged, unacknowledged, no_dict, clear_error, bound_done, gone,
}
use pdd_bridge_agent.Commands.Bounded.{one_if}

-- Whether a command between its steps is the one with this id
abbrev pub is_flight : String → Running → Bool
is_flight id (claimed cmd) = str_eq (Journal.command_id cmd) id
is_flight id (looked cmd) = str_eq (Journal.command_id cmd) id
is_flight id (admitted cmd) = str_eq (Journal.command_id cmd) id
is_flight id (performed i result) = str_eq (strip i) id

abbrev pub is_looked : String → Running → Bool
is_looked id (looked cmd) = str_eq (Journal.command_id cmd) id
is_looked id _ = false

unfoldable pub flights : String → List Running → ℕ
flights id [] = 0
flights id (r ∷ rs) = one_if (is_flight id r) + flights id rs

unfoldable pub lookers : String → List Running → ℕ
lookers id [] = 0
lookers id (r ∷ rs) = one_if (is_looked id r) + lookers id rs

looked-le : (id : String) (r : Running) → one_if (is_looked id r) ≤ one_if (is_flight id r)
looked-le id (claimed cmd) = omega arith
looked-le id (looked cmd) = omega arith
looked-le id (admitted cmd) = omega arith
looked-le id (performed i result) = omega arith

pub lookers-le : (id : String) (rs : List Running) → lookers id rs ≤ flights id rs
unfolding flights lookers
lookers-le id [] = omega arith
lookers-le id (r ∷ rs) = omega (arith, looked-le id r, lookers-le id rs)

-- One thread at most is about the command, and none unless it is claimed; the journal does not have what
-- was looked up and not found.
pub record Single (id : String) (a : Agent) : Type 0 where
  pub flight : flights id a.running ≤ one_if (member id a.claimed)
  pub missing : lookers id a.running + has a.journal id ≤ 1

pub new_when_looked :
    (id : String) (cmd : Fields) (rest : List Running) (a : Agent)
    → lookers id (looked cmd ∷ rest) + has a.journal id ≤ 1
    → str_eq (Journal.command_id cmd) id ≡ true
    → has a.journal id ≡ 0
unfolding lookers
new_when_looked id cmd rest a h e = ground (arith, h, e)

-- The claims and the workers are as they were, and the journal has not got the id.
abbrev pub Fades : String → Agent → Agent → Type 0
Fades id a a' =
    (a'.running ≡ a.running) × (a'.claimed ≡ a.claimed) × (has a'.journal id ≤ has a.journal id)

pub Fades-Single : (id : String) (a a' : Agent) → Fades id a a' → Single id a → Single id a'
Fades-Single id a a' (r, c, h) s = record {
  flight = omega (arith, s.flight, ap (flights id) r, ap (λ l. one_if (member id l)) c);
  missing = omega (arith, s.missing, ap (lookers id) r, h);
}

finished-Fades :
    (id : String) (w : World) (key : String) (a : Agent)
    → IsDurable a.journal
    → Fades id a (finished w key a).0
finished-Fades id w key a v =
    let (mem, file) = remove_presence w.write key id a.journal v in
    (refl, refl, ground (arith, mem))

refused-Fades :
    (id : String) (w : World) (key : String) (over : Bool) (a : Agent)
    → IsDurable a.journal
    → Fades id a (refused_result w key over a)
refused-Fades id w key false a v = (refl, refl, omega arith)
refused-Fades id w key true a v = finished-Fades id w key a v

cleared-Fades :
    (id : String) (removed : Bool) (a b : Agent) → Fades id a b → Fades id a (clear_error removed b)
cleared-Fades id true a b f = f
cleared-Fades id false a b f = f

committed-Fades :
    (id : String) (w : World) (key : String) (over : Bool) (a : Agent)
    → IsDurable a.journal
    → Fades id a (committed_result w key over a)
committed-Fades id w key false a v = (refl, refl, omega arith)
committed-Fades id w key true a v =
    cleared-Fades id (finished w key a).1 a (bound_done w (finished w key a).0)
      (finished-Fades id w key a v)

answered-Fades :
    (id : String) (w : World) (reply : Reply) (key : String) (a : Agent)
    → IsDurable a.journal
    → Fades id a (send_command_result w reply key a)
unfolding send_command_result
answered-Fades id w (failure status stale) key a v = refused-Fades id w key (gone status stale) a v
answered-Fades id w (acknowledged over) key a v = committed-Fades id w key over a v
answered-Fades id w (unacknowledged ok) key a v = committed-Fades id w key ok a v
answered-Fades id w no_dict key a v = committed-Fades id w key false a v

pub turn-Fades :
    (id : String) (w : World) (reply : Reply) (queue : List (String × Fields)) (a : Agent)
    → IsDurable a.journal
    → Fades id a (report_turn w reply queue a)
turn-Fades id w reply [] a v = (refl, refl, omega arith)
turn-Fades id w reply ((key, result) ∷ rest) a v =
    answered-Fades id w reply key (record a { report_queue = rest }) v

pub report-Fades :
    (id key : String) (result : Fields) (a : Agent) → Fades id a (report key result a)
unfolding report
report-Fades id key result a =
    if_ind (Fades id a) (is_blank key || member key a.report_pending) _ _
      (λ e. (refl, refl, omega arith)) (λ e. (refl, refl, omega arith))

Fades-trans : (id : String) (a b c : Agent) → Fades id a b → Fades id b c → Fades id a c
Fades-trans id a b c (r, s, h) (r', s', h') = (r' ∙ r, s' ∙ s, omega (arith, h, h'))

pub replay-Fades : (id key : String) (e : Entry) (a : Agent) → Fades id a (replay key e a)
replay-Fades id key e a = at e.state
  where
    at :
        (t : State)
        → Fades id a (elim t [ result_pending ↦ report key (result_or_empty e.result) a | _ ↦ a ])
    at result_pending = report-Fades id key (result_or_empty e.result) a
    at _ = (refl, refl, omega arith)

pub all-Fades :
    (id : String) (rows : List (String × Fields)) (a : Agent) → Fades id a (report_all rows a)
unfolding report_all
all-Fades id [] a = (refl, refl, omega arith)
all-Fades id ((key, result) ∷ rest) a =
    if_ind (Fades id a) (is_blank key) _ _ (λ e. (refl, refl, omega arith))
      (λ e.
        Fades-trans id a (report key result a) (report_all rest (report key result a))
          (report-Fades id key result a) (all-Fades id rest (report key result a)))

pub pick-flights :
    (id : String) (n : ℕ) (rs : List Running) (r : Running) (rest : List Running)
    → pick n rs ≡ some (r, rest)
    → (flights id rs ≡ flights id (r ∷ rest)) × (lookers id rs ≡ lookers id (r ∷ rest))
unfolding pick flights lookers
pick-flights id n [] r rest h = (cc, cc)
pick-flights id zero (x ∷ xs) r rest h = (ground arith, ground arith)
pick-flights id (suc n) (x ∷ xs) r rest h = elim (Option-cases (pick n xs)) [
  | inl gone ↦ (ground arith, ground arith)
  | inr ((y, ys), found) ↦
      let (f, l) = pick-flights id n xs y ys found in (ground (arith, f), ground (arith, l))
]

-- A command that is taken up with its worker's other ones
abbrev pub Taken : String → Running → List Running → Agent → Type 0
Taken id r rest a =
    (flights id (r ∷ rest) ≤ one_if (member id a.claimed))
    × (lookers id (r ∷ rest) + has a.journal id ≤ 1)
