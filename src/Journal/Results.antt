-- ===== src/Journal/Results.antt =====
-- Which results `pending_results` hands out for the acknowledgement retries.
use pdd_bridge_agent.Prelude.{
  ℕ, Bool, Option, none, some, [], ◌∷◌, String, ◌≡◌, ◌≢◌, refl, ap, arith, eq_iff, ◌∙◌, sym, subst,
}
use pdd_bridge_agent.Text.{strip}
use pdd_bridge_agent.Dict
use pdd_bridge_agent.Dict.{Dict}
use pdd_bridge_agent.Dict.Laws
use pdd_bridge_agent.Json.{Fields}
use pdd_bridge_agent.Journal
use pdd_bridge_agent.Journal.{
  Entry, State, executing, result_pending, unknown, Journal, returns, persist, with_result,
  pending_of, pending_in, pending_results,
}
use pdd_bridge_agent.Journal.Loading.{KeysOk}
use pdd_bridge_agent.Journal.Invariants.{IsDurable, Op, step, settle, step-IsDurable}

-- The result that a record is waiting to report.
abbrev pub pending_view : Option Entry → Option Fields
pending_view none = none
pending_view (some e) = elim e.state [ result_pending ↦ e.result | _ ↦ none ]

get-pending_in :
    (d : Dict Entry) (k : String)
    → KeysOk d
    → Dict.get (pending_in d) k ≡ pending_view (Dict.get d k)
unfolding Dict.get pending_in
get-pending_in [] k ok = refl
get-pending_in ((j, e) ∷ d) k ok = ground (arith, get-pending_in d k ok.2, eq_iff j k)

-- The retries of a durable journal are given exactly the records with a pending result, each with its
-- own result.
pub pending_exact :
    (j : Journal) (id : String)
    → IsDurable j
    → Dict.get (pending_results j) (strip id) ≡ pending_view (Journal.get j id)
unfolding pending_results Journal.get
pending_exact j id v = get-pending_in j.records (strip id) v.keys

-- After `store_result` on a durable journal, written or not, the result is among those to report under
-- its id, and what there was to report under any other id is unchanged.
pub pending_after_store :
    (write : Bool) (now : ℕ) (id : String) (result : Fields) (j j' : Journal) (done : Bool)
    → IsDurable j
    → Journal.store_result write now id result j ≡ returns (j', done)
    → (Dict.get (pending_results j') (strip id) ≡ some result)
      × ((k : String)
          → strip id ≢ k
          → Dict.get (pending_results j') k ≡ Dict.get (pending_results j) k)
unfolding pending_results Journal.store_result persist with_result step
pending_after_store write now id result j j' done v h =
    let v' : IsDurable j' =
      subst IsDurable (ap (settle j) h)
        (step-IsDurable (Op.store_result write now id result) j v) in
    let d =
      Dict.put j.records (strip id) (with_result now result (Dict.get j.records (strip id))) in
    let same : j'.records ≡ d = ground arith in
    (
      get-pending_in j'.records (strip id) v'.keys
          ∙ ap (λ (r : Dict Entry). pending_view (Dict.get r (strip id))) same
          ∙ ap pending_view (Laws.get-put_self j.records (strip id) _),
      λ k ne.
          get-pending_in j'.records k v'.keys
          ∙ ap (λ (r : Dict Entry). pending_view (Dict.get r k)) same
          ∙ ap pending_view (Laws.get-put_ne j.records (strip id) k _ ne)
          ∙ sym (get-pending_in j.records k v.keys),
    )
