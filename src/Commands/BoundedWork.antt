-- ===== src/Commands/BoundedWork.antt =====
-- The bound over the admission, the dispatch and the conclusion of commands.
use pdd_bridge_agent.Prelude.{
  ℕ, zero, suc, ◌+◌, ◌≤◌, Bool, true, false, Option, none, some, List, [], ◌∷◌, String, str_eq,
  member, ◌≡◌, refl, sym, ap, subst, inl, inr, arith, Option-cases, if_ind,
}
use pdd_bridge_agent.Text.{strip, is_blank}
use pdd_bridge_agent.Json.{Fields}
use pdd_bridge_agent.Journal
use pdd_bridge_agent.Journal.{
  Journal, Entry, File, Outcome, value_error, returns, open_journal, State, result_pending,
}
use pdd_bridge_agent.Journal.Invariants
use pdd_bridge_agent.Journal.Invariants.{
  IsDurable, open-IsDurable, settle, step-IsDurable, command_id_stripped,
}
use pdd_bridge_agent.Journal.Presence.{
  has, Kept, store_result-Kept, start_presence, start_failed_presence, present,
}
use pdd_bridge_agent.Commands.Channel.{
  Agent, World, Running, claimed, looked, admitted, performed, field_of,
}
use pdd_bridge_agent.Commands.Admission.{
  claim, receive, take_claimed, look_up, look_found, start_command, admit_started, replay,
  result_or_empty,
}
use pdd_bridge_agent.Commands.Dispatch.{dispatch, send, note_self_send}
use pdd_bridge_agent.Commands.Conclusion.{conclude, stored_result}
use pdd_bridge_agent.Commands.Steps.{pick, perform, dispatched, gone}
use pdd_bridge_agent.Commands.Bounded.{
  one_if, count_sent, count_settled, waiting, Bounded, Same, Bounded-Same, claim-Same, report-Same,
  Bounded-Kept, one_more,
}

-- A command that is admitted for the first time.
admit_started-Bounded :
    (id : String) (w : World) (cmd : Fields) (a : Agent) (o : Outcome (Journal × Bool))
    → Journal.start w.write w.now cmd a.journal ≡ o
    → (str_eq (Journal.command_id cmd) id ≡ true → has a.journal id ≡ 0)
    → Bounded id a
    → Bounded id (admit_started cmd a o)
unfolding waiting
admit_started-Bounded id w cmd a value_error h new b = b
admit_started-Bounded id w cmd a (returns (j, false)) h new b =
    let (mem, file) = start_failed_presence w.write w.now cmd a.journal j id h in
    record {
      durable = subst IsDurable (ap (settle a.journal) h) (
          unfold Invariants.step in
          step-IsDurable (Invariants.Op.start w.write w.now cmd) a.journal b.durable);
      memory = ground (arith, b.memory);
      file = ground (arith, b.file);
    }
admit_started-Bounded id w cmd a (returns (j, true)) h new b =
    let (mem, file) = start_presence w.write w.now cmd a.journal j id b.durable h in
    let more = one_more _ _ _ _ _ _ b.memory new mem in
    record {
      durable = subst IsDurable (ap (settle a.journal) h) (
          unfold Invariants.step in
          step-IsDurable (Invariants.Op.start w.write w.now cmd) a.journal b.durable);
      memory = more;
      file = ground (arith, more);
    }

pub has-none : (j : Journal) (id : String) → Journal.get j id ≡ none → has j (strip id) ≡ 0
unfolding Journal.get has
has-none j id h = ap present h

replay-Same : (id : String) (e : Entry) (a : Agent) → Same a (replay id e a)
replay-Same id e a = ground (arith, report-Same id (result_or_empty e.result) a)

-- What looks a command up in the journal changes nothing that counts.
look_up-Bounded :
    (id : String) (cmd : Fields) (a : Agent) (o : Option Entry)
    → Bounded id a
    → Bounded id (look_found (Journal.command_id cmd) cmd a o)
unfolding waiting
look_up-Bounded id cmd a (some e) b =
    Bounded-Same id a _ (replay-Same (Journal.command_id cmd) e a) b
look_up-Bounded id cmd a none b =
    if_ind (Bounded id) (member (Journal.command_id cmd) a.done) _ _ (λ d. b)
      (λ d. record {
        durable = b.durable;
        memory = omega (arith, b.memory);
        file = omega (arith, b.file);
      })

pub receive-Bounded :
    (id : String) (w : World) (cmd : Fields) (a : Agent)
    → Bounded id a
    → Bounded id (receive w cmd a)
unfolding receive
receive-Bounded id w cmd a b =
    if_ind (Bounded id) (is_blank (Journal.command_id cmd)) _ _
      (λ e. Bounded-Same id a _ (refl, refl, refl) b)
      (λ e.
        took (claim w (Journal.command_id cmd) a)
          (Bounded-Same id a _ (claim-Same w (Journal.command_id cmd) a) b))
  where
    took : (c : Agent × Bool) → Bounded id c.0 → Bounded id (take_claimed cmd c)
    took (c, false) d = d
    took (c, true) d =
        unfold waiting in
        record {
          durable = d.durable;
          memory = omega (arith, d.memory);
          file = omega (arith, d.file);
        }

-- What the dispatch of a command may do: send it once, and nothing else that counts.
pub record Spends (id i : String) (a a' : Agent) : Type 0 where
  pub journal : a'.journal ≡ a.journal
  pub running : a'.running ≡ a.running
  pub sends : count_sent id a'.effects ≤ one_if (str_eq i id) + count_sent id a.effects
  pub settles : count_settled id a'.effects ≡ count_settled id a.effects

note_self_send-Same : (now : ℕ) (x y z : String) (a : Agent) → Same a (note_self_send now x y z a)
unfolding note_self_send
note_self_send-Same now x y z a = ground arith

send-Spends :
    (id i : String) (w : World) (cmd : Fields) (a : Agent) → Spends id i a (send w i cmd a).0
unfolding send count_sent count_settled
send-Spends id i w cmd a = ground (
  arith,
  note_self_send-Same w.now (field_of cmd "account") (field_of cmd "buyer_id")
      (field_of cmd "content") a,
)

note_self_send-claimed :
    (now : ℕ) (x y z : String) (a : Agent) → (note_self_send now x y z a).claimed ≡ a.claimed
unfolding note_self_send
note_self_send-claimed now x y z a = ground arith

send-claimed :
    (w : World) (id : String) (cmd : Fields) (a : Agent) → (send w id cmd a).0.claimed ≡ a.claimed
unfolding send note_self_send
send-claimed w id cmd a = ground arith

pub dispatch-claimed :
    (w : World) (id : String) (cmd : Fields) (a : Agent)
    → (dispatch w id cmd a).0.claimed ≡ a.claimed
unfolding dispatch
dispatch-claimed w id cmd a = ground (arith, send-claimed w id cmd a)

pub dispatch-Spends :
    (id i : String) (w : World) (cmd : Fields) (a : Agent) → Spends id i a (dispatch w i cmd a).0
unfolding dispatch count_sent count_settled
dispatch-Spends id i w cmd a = ground (arith, send-Spends id i w cmd a)

pub waiting-pick :
    (id : String) (n : ℕ) (rs : List Running) (r : Running) (rest : List Running)
    → pick n rs ≡ some (r, rest)
    → waiting id rs ≡ waiting id (r ∷ rest)
unfolding pick waiting
waiting-pick id n [] r rest h = cc
waiting-pick id zero (x ∷ xs) r rest h = ground arith
waiting-pick id (suc n) (x ∷ xs) r rest h = elim (Option-cases (pick n xs)) [
  | inl gone ↦ ground arith
  | inr ((y, ys), found) ↦ ground (arith, waiting-pick id n xs y ys found)
]

-- A dispatch sends only what was waiting.
dispatched-Bounded :
    (id : String) (cmd : Fields) (a : Agent) (d : Agent × Option Fields)
    → Spends id (Journal.command_id cmd) a d.0
    → Bounded id (record a { running = admitted cmd ∷ a.running })
    → Bounded id (dispatched (Journal.command_id cmd) cmd d)
unfolding waiting
dispatched-Bounded id cmd a (a', none) s b = record {
  durable = subst IsDurable (sym s.journal) b.durable;
  memory = ground (arith, b.memory, s.sends);
  file = ground (arith, b.file, s.sends);
}
dispatched-Bounded id cmd a (a', some result) s b = record {
  durable = subst IsDurable (sym s.journal) b.durable;
  memory = ground (arith, b.memory, s.sends);
  file = ground (arith, b.file, s.sends);
}

stored_result-Bounded :
    (id : String) (w : World) (key : String) (result : Fields) (a : Agent)
    → Bounded id a
    → Bounded id (stored_result a (Journal.store_result w.write w.now key result a.journal))
stored_result-Bounded id w key result a b =
    keep_outcome (Journal.store_result w.write w.now key result a.journal)
      (unfold Invariants.step in
        step-IsDurable (Invariants.Op.store_result w.write w.now key result) a.journal b.durable)
      (store_result-Kept w.write w.now key id result a.journal b.durable)
  where
    keep_outcome :
        (o : Outcome (Journal × Bool))
        → IsDurable (settle a.journal o)
        → Kept a.journal (settle a.journal o) id
        → Bounded id (stored_result a o)
    keep_outcome value_error v k = b
    keep_outcome (returns (j, true)) v k = Bounded-Kept id a j v k b
    keep_outcome (returns (j, false)) v k =
        Bounded-Same id (record a { journal = j }) _ (refl, refl, refl) (Bounded-Kept id a j v k b)

conclude-Bounded :
    (id : String) (w : World) (key : String) (result : Fields) (a : Agent)
    → Bounded id a
    → Bounded id (conclude w key result a)
unfolding conclude
conclude-Bounded id w key result a b =
    Bounded-Same id _ _ (report-Same key result _) (stored_result-Bounded id w key result a b)

pub perform-Bounded :
    (id : String) (w : World) (a : Agent) (o : Option (Running × List Running))
    → ((r : Running) (rest : List Running)
        → o ≡ some (r, rest)
        → waiting id a.running ≡ waiting id (r ∷ rest))
    → ((cmd : Fields) (rest : List Running)
        → o ≡ some (looked cmd, rest)
        → str_eq (Journal.command_id cmd) id ≡ true
        → has a.journal id ≡ 0)
    → Bounded id a
    → Bounded id (perform w o a)
unfolding waiting
perform-Bounded id w a none h new b = b
perform-Bounded id w a (some (claimed cmd, rest)) h new b =
    unfold look_up in
    look_up-Bounded id cmd (record a { running = rest })
      (Journal.get a.journal (Journal.command_id cmd))
      (record {
        durable = b.durable;
        memory = ground (arith, b.memory, h (claimed cmd) rest refl);
        file = ground (arith, b.file, h (claimed cmd) rest refl);
      })
perform-Bounded id w a (some (looked cmd, rest)) h new b =
    unfold start_command in
    admit_started-Bounded id w cmd (record a { running = rest })
      (Journal.start w.write w.now cmd a.journal) refl (new cmd rest refl)
      (record {
        durable = b.durable;
        memory = ground (arith, b.memory, h (looked cmd) rest refl);
        file = ground (arith, b.file, h (looked cmd) rest refl);
      })
perform-Bounded id w a (some (performed key result, rest)) h new b =
    conclude-Bounded id w key result (record a { running = rest })
      (record {
        durable = b.durable;
        memory = ground (arith, b.memory, h (performed key result) rest refl);
        file = ground (arith, b.file, h (performed key result) rest refl);
      })
perform-Bounded id w a (some (admitted cmd, rest)) h new b =
    let a' : Agent = record a { running = rest } in
    dispatched-Bounded id cmd a' (dispatch w (Journal.command_id cmd) cmd a')
      (dispatch-Spends id (Journal.command_id cmd) w cmd a')
      (record {
        durable = b.durable;
        memory = ground (arith, b.memory, h (admitted cmd) rest refl);
        file = ground (arith, b.file, h (admitted cmd) rest refl);
      })
