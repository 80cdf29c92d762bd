-- ===== src/Commands/Single.antt =====
-- How the steps of bridge/agent.py change which thread is about a command, from `_claim_command` on.
use pdd_bridge_agent.Prelude.{
  ℕ, ◌+◌, ◌≤◌, Bool, true, false, ◌||◌, Option, none, some, List, ◌∷◌, String, str_eq, member,
  if◌then◌else◌, ◌≡◌, refl, sym, ap, ◌∙◌, inl, inr, arith, Bool-cases, eq_iff, if_ind, ◌⊎◌,
  false≢true, or_left,
}
use pdd_bridge_agent.Text.{strip, is_blank}
use pdd_bridge_agent.Json.{Fields}
use pdd_bridge_agent.Journal
use pdd_bridge_agent.Journal.{Journal, Entry, Outcome, State, result_pending, value_error, returns}
use pdd_bridge_agent.Journal.Invariants.{IsDurable, settle, command_id_stripped}
use pdd_bridge_agent.Journal.Presence.{
  has, has-le, start_presence, start_failed_presence, store_result-others,
}
use pdd_bridge_agent.Commands.Channel.{
  Agent, World, Effect, Running, claimed, looked, admitted, performed,
}
use pdd_bridge_agent.Commands.Admission.{
  claim, cut_claims, receive, take_claimed, look_up, look_found, start_command, admit_started,
  replay, report,
}
use pdd_bridge_agent.Commands.Dispatch.{dispatch}
use pdd_bridge_agent.Commands.Conclusion.{conclude, stored_result, retry_results}
use pdd_bridge_agent.Commands.Steps.{
  Step, deliver, work, answer, retry, restart, step, boot, pick, perform, dispatched,
}
use pdd_bridge_agent.Commands.Bounded.{one_if}
use pdd_bridge_agent.Commands.BoundedWork.{has-none, Spends, dispatch-Spends, dispatch-claimed}
use pdd_bridge_agent.Commands.Flights.{
  Fades, Fades-Single, Single, Taken, all-Fades, flights, lookers, lookers-le, new_when_looked,
  pick-flights, replay-Fades, report-Fades, turn-Fades,
}

looked-Single :
    (id : String) (cmd : Fields) (rest : List Running) (a : Agent) (o : Option Entry)
    → Journal.get a.journal (Journal.command_id cmd) ≡ o
    → Taken id (claimed cmd) rest a
    → Single id (look_found (Journal.command_id cmd) cmd (record a { running = rest }) o)
unfolding flights lookers
looked-Single id cmd rest a (some e) h (f, m) =
    Fades-Single id (record a { running = rest })
      (replay (Journal.command_id cmd) e (record a { running = rest }))
      (replay-Fades id (Journal.command_id cmd) e (record a { running = rest }))
      (record { flight = omega (arith, f); missing = omega (arith, m) })
looked-Single id cmd rest a none h (f, m) =
    if_ind (Single id) (member (Journal.command_id cmd) a.done) _ _
      (λ d. record { flight = omega (arith, f); missing = omega (arith, m) })
      (λ d. record { flight = omega (arith, f); missing = here })
  where
    none_there : has a.journal (Journal.command_id cmd) ≡ 0
    none_there = ap (has a.journal) (sym (command_id_stripped cmd)) ∙ has-none a.journal _ h

    here : lookers id (looked cmd ∷ rest) + has a.journal id ≤ 1
    here = elim (Bool-cases (str_eq (Journal.command_id cmd) id)) [
      | inl same ↦
          let none_at : has a.journal id ≡ 0 =
            ap (has a.journal) (sym ((eq_iff (Journal.command_id cmd) id).0 same)) ∙ none_there in
          let one : one_if (member id a.claimed) ≤ 1 = ground arith in
          ground (arith, f, none_at, lookers-le id rest, one, same)
      | inr other ↦ ground (arith, m, other)
    ]

started-Single :
    (id : String) (w : World) (cmd : Fields) (rest : List Running) (a : Agent)
    (o : Outcome (Journal × Bool))
    → IsDurable a.journal
    → Journal.start w.write w.now cmd a.journal ≡ o
    → Taken id (looked cmd) rest a
    → Single id (admit_started cmd (record a { running = rest }) o)
unfolding flights lookers
started-Single id w cmd rest a value_error v h (f, m) = record {
  flight = omega (arith, f);
  missing = omega (arith, m);
}
started-Single id w cmd rest a (returns (j, false)) v h (f, m) =
    let (mem, file) = start_failed_presence w.write w.now cmd a.journal j id h in
    record { flight = omega (arith, f); missing = omega (arith, m, mem) }
started-Single id w cmd rest a (returns (j, true)) v h (f, m) =
    let (mem, file) = start_presence w.write w.now cmd a.journal j id v h in
    record { flight = omega (arith, f); missing = ground (arith, f, m, mem, lookers-le id rest) }

dispatched-Single :
    (id : String) (cmd : Fields) (rest : List Running) (a : Agent) (d : Agent × Option Fields)
    → Spends id (Journal.command_id cmd) (record a { running = rest }) d.0
    → d.0.claimed ≡ a.claimed
    → Taken id (admitted cmd) rest a
    → Single id (dispatched (Journal.command_id cmd) cmd d)
unfolding flights lookers
dispatched-Single id cmd rest a (b, none) s c (f, m) = record {
  flight = omega (arith, f, ap (flights id) s.running, ap (λ l. one_if (member id l)) c);
  missing = omega (arith, m, ap (lookers id) s.running, ap (λ j. has j id) s.journal);
}
dispatched-Single id cmd rest a (b, some result) s c (f, m) = record {
  flight = omega (
    arith,
    f,
    ap (flights id) s.running,
    ap (λ l. one_if (member id l)) c,
    ap (λ k. one_if (str_eq k id)) (sym (command_id_stripped cmd)),
  );
  missing = omega (arith, m, ap (lookers id) s.running, ap (λ j. has j id) s.journal);
}

-- The journal after the conclusion has the id only if it had it, or the command was the one concluded.
concluded-has :
    (id : String) (w : World) (key : String) (result : Fields) (a : Agent)
    (o : Outcome (Journal × Bool))
    → ((str_eq (strip key) id ≡ true) ⊎ (has (settle a.journal o) id ≡ has a.journal id))
    → (str_eq (strip key) id ≡ true) ⊎ (Fades id a (stored_result a o))
concluded-has id w key result a o (inl same) = inl same
concluded-has id w key result a value_error (inr h) = inr (refl, refl, omega arith)
concluded-has id w key result a (returns (j, true)) (inr h) = inr (refl, refl, omega (arith, h))
concluded-has id w key result a (returns (j, false)) (inr h) = inr (refl, refl, omega (arith, h))

stored-running :
    (a : Agent) (o : Outcome (Journal × Bool))
    → ((stored_result a o).running ≡ a.running) × ((stored_result a o).claimed ≡ a.claimed)
stored-running a value_error = (refl, refl)
stored-running a (returns (j, true)) = (refl, refl)
stored-running a (returns (j, false)) = (refl, refl)

concluded-Single :
    (id : String) (w : World) (key : String) (result : Fields) (rest : List Running) (a : Agent)
    → IsDurable a.journal
    → Taken id (performed key result) rest a
    → Single id (conclude w key result (record a { running = rest }))
unfolding flights lookers conclude
concluded-Single id w key result rest a v (f, m) =
    let b : Agent = record a { running = rest } in
    let o = Journal.store_result w.write w.now key result a.journal in
    let c : Agent = stored_result b o in
    Fades-Single id c (report key result c) (report-Fades id key result c)
      (stored (Bool-cases (str_eq (strip key) id)))
  where
    stored :
        ((str_eq (strip key) id ≡ true) ⊎ (str_eq (strip key) id ≡ false))
        → Single id (
            stored_result
              (record a { running = rest })
              (Journal.store_result w.write w.now key result a.journal))
    stored (inl same) =
        let b : Agent = record a { running = rest } in
        let o = Journal.store_result w.write w.now key result a.journal in
        let (r, c) = stored-running b o in
        let one : one_if (member id a.claimed) ≤ 1 = ground arith in
        record {
          flight = omega (arith, f, ap (flights id) r, ap (λ l. one_if (member id l)) c);
          missing = ground (
            arith,
            f,
            same,
            one,
            lookers-le id rest,
            ap (lookers id) r,
            has-le (stored_result b o).journal id,
          );
        }
    stored (inr other) =
        let b : Agent = record a { running = rest } in
        let o = Journal.store_result w.write w.now key result a.journal in
        let same = store_result-others w.write w.now key id result a.journal v other in
        keep (concluded-has id w key result b o (inr same))
      where
        keep :
            (str_eq (strip key) id ≡ true)
              ⊎ Fades id
                  (record a { running = rest })
                  (stored_result
                    (record a { running = rest })
                    (Journal.store_result w.write w.now key result a.journal))
            → Single id (
                stored_result
                  (record a { running = rest })
                  (Journal.store_result w.write w.now key result a.journal))
        keep (inl same) = absurd (false≢true (sym other ∙ same))
        keep (inr fades) =
            Fades-Single id (record a { running = rest }) _ fades
              (record { flight = omega (arith, f); missing = omega (arith, m) })

-- The cut of the claimed set at this delivery does not drop the id.
abbrev pub KeepsClaim : String → Step → Agent → Type 0
KeepsClaim id (deliver w cmd) a =
    member id (Journal.command_id cmd ∷ a.claimed) ≡ true
    → member id (cut_claims w (Journal.command_id cmd ∷ a.claimed)) ≡ true
KeepsClaim id _ a = Unit

or_false : (a b : Bool) → (a || b) ≡ false → a ≡ false
or_false true b h = h
or_false false b h = refl

or_false_right : (a b : Bool) → (a || b) ≡ false → b ≡ false
or_false_right true b h = absurd (false≢true (sym h))
or_false_right false b h = h

received-Single :
    (id : String) (w : World) (cmd : Fields) (a : Agent)
    → KeepsClaim id (deliver w cmd) a
    → Single id a
    → Single id (receive w cmd a)
unfolding receive claim flights
received-Single id w cmd a k s =
    let key : String = Journal.command_id cmd in
    if_ind (Single id) (is_blank key) _ _ (λ e. record { flight = s.flight; missing = s.missing })
      (λ e. at (member key a.claimed || member key a.done) refl)
  where
    key : String
    key = Journal.command_id cmd

    new : Agent
    new = record a {
      claimed = cut_claims w (key ∷ a.claimed);
      received = a.received + 1;
      running = claimed cmd ∷ a.running;
    }

    fresh : (member key a.claimed || member key a.done) ≡ false → Single id new
    fresh e = record {
      flight = count (Bool-cases (str_eq key id)) (Bool-cases (member id (key ∷ a.claimed)));
      missing = unfold lookers in omega (arith, s.missing);
    }
      where
        unclaimed : str_eq key id ≡ true → member id a.claimed ≡ false
        unclaimed same =
            ap (λ (i : String). member i a.claimed) (sym ((eq_iff key id).0 same)) ∙ or_false _ _ e

        count :
            (str_eq key id ≡ true) ⊎ (str_eq key id ≡ false)
            → (member id (key ∷ a.claimed) ≡ true) ⊎ (member id (key ∷ a.claimed) ≡ false)
            → flights id (claimed cmd ∷ a.running)
              ≤ one_if (member id (cut_claims w (key ∷ a.claimed)))
        count (inl same) (inl there) = ground (arith, s.flight, unclaimed same, k there, same)
        count (inl same) (inr out) = absurd (false≢true (sym out ∙ or_left (str_eq key id) _ same))
        count (inr other) (inl there) = ground (arith, s.flight, k there, other)
        count (inr other) (inr out) =
            ground
              (arith, s.flight, other, or_false_right (str_eq key id) (member id a.claimed) out)

    at :
        (b : Bool)
        → (member key a.claimed || member key a.done) ≡ b
        → Single id (
            take_claimed cmd (
              if b
              then (a, false)
              else (record a { claimed = cut_claims w (key ∷ a.claimed) }, true)))
    at true e = s
    at false e = fresh e

perform-Single :
    (id : String) (w : World) (a : Agent) (o : Option (Running × List Running))
    → ((r : Running) (rest : List Running) → o ≡ some (r, rest) → Taken id r rest a)
    → IsDurable a.journal
    → Single id a
    → Single id (perform w o a)
perform-Single id w a none h v s = s
perform-Single id w a (some (claimed cmd, rest)) h v s =
    unfold look_up in
    looked-Single id cmd rest a (Journal.get a.journal (Journal.command_id cmd)) refl
      (h (claimed cmd) rest refl)
perform-Single id w a (some (looked cmd, rest)) h v s =
    unfold start_command in
    started-Single id w cmd rest a (Journal.start w.write w.now cmd a.journal) v refl
      (h (looked cmd) rest refl)
perform-Single id w a (some (performed key result, rest)) h v s =
    concluded-Single id w key result rest a v (h (performed key result) rest refl)
perform-Single id w a (some (admitted cmd, rest)) h v s =
    let b : Agent = record a { running = rest } in
    let key : String = Journal.command_id cmd in
    dispatched-Single id cmd rest a (dispatch w key cmd b) (dispatch-Spends id key w cmd b)
      (dispatch-claimed w key cmd b) (h (admitted cmd) rest refl)

job-Taken :
    (id : String) (n : ℕ) (a : Agent)
    → Single id a
    → (r : Running) (rest : List Running) → pick n a.running ≡ some (r, rest)
    → Taken id r rest a
job-Taken id n a s r rest e =
    let (f, l) = pick-flights id n a.running r rest e in
    (omega (arith, s.flight, f), omega (arith, s.missing, l))

pub booted-Single :
    (id : String) (w : World) (f : Journal.File) (effects : List Effect)
    → Single id (boot w f effects)
unfolding boot flights lookers
booted-Single id w f effects = record {
  flight = omega arith;
  missing = omega (arith, has-le (Journal.open_journal w.write w.now f) id);
}

pub step-Single :
    (id : String) (t : Step) (a : Agent)
    → KeepsClaim id t a
    → IsDurable a.journal
    → Single id a
    → Single id (step t a)
unfolding step retry_results
step-Single id (deliver w cmd) a k v s = received-Single id w cmd a k s
step-Single id (work w n) a k v s =
    perform-Single id w a (pick n a.running) (job-Taken id n a s) v s
step-Single id (answer w reply) a k v s =
    Fades-Single id a _ (turn-Fades id w reply a.report_queue a v) s
step-Single id retry a k v s =
    Fades-Single id a _ (all-Fades id (Journal.pending_results a.journal) a) s
step-Single id (restart w) a k v s = booted-Single id w a.journal.disk a.effects

-- What was looked up and not found is not in the journal when it is started.
pub missing_at :
    (id : String) (n : ℕ) (a : Agent)
    → Single id a
    → (cmd : Fields) (rest : List Running) → pick n a.running ≡ some (looked cmd, rest)
    → str_eq (Journal.command_id cmd) id ≡ true
    → has a.journal id ≡ 0
missing_at id n a s cmd rest e =
    new_when_looked id cmd rest a
      (omega (arith, s.missing, (pick-flights id n a.running (looked cmd) rest e).1))
