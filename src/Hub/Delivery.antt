-- ===== src/Hub/Delivery.antt =====
-- The command queues of the hub against queues of what is offered to each agent: first in, first
-- out, nothing lost, nothing handed out twice.
use pdd_bridge_agent.Prelude.{
  ℕ, zero, suc, Bool, true, false, not, Option, none, some, List, [], ◌∷◌, ◌++◌, String, str_eq,
  if◌then◌else◌, take, drop, keep, member, ◌≡◌, ◌≢◌, refl, ap, ◌∙◌, ◌⊎◌, inl, inr, arith, eq_iff,
  Bool-cases, Option-cases, str_eq-sym,
}
use pdd_bridge_agent.Text.{strip}
use pdd_bridge_agent.Dict
use pdd_bridge_agent.Dict.{Dict}
use pdd_bridge_agent.Dict.Laws
use pdd_bridge_agent.Json
use pdd_bridge_agent.Json.{Fields}
use pdd_bridge_agent.Hub.Queue.{
  queued, delivered, succeeded, failed, Command, Hub, Pulled, key_error, permission_error, returns,
  enqueue, is_open, pulled_of, take_one, pull_loop, pull_commands, complete_command, complete_found,
  finish_command,
}

abbrev offer_of : String → Option Command → Option Pulled
offer_of id none = none
offer_of id (some cmd) = if is_open cmd.status then some (pulled_of id cmd) else none

-- What an id in a queue offers to the agent: nothing if the command is unknown or finished.
unfoldable pub offer : Dict Command → String → Option Pulled
offer commands id = offer_of id (Dict.get commands id)

abbrev cons_some : Option Pulled → List Pulled → List Pulled
cons_some none ps = ps
cons_some (some p) ps = p ∷ ps

unfoldable pub offers : Dict Command → List String → List Pulled
offers commands [] = []
offers commands (id ∷ queue) = cons_some (offer commands id) (offers commands queue)

-- The commands that an agent is still to get, in order.
unfoldable pub outstanding : Hub → String → List Pulled
outstanding h agent = offers h.commands (Dict.or_else (Dict.get h.queues agent) [])

-- To hand a command out changes no offer: it is still open.
offer-delivered :
    (now : ℕ) (commands : Dict Command) (id j : String) (cmd : Command)
    → Dict.get commands id ≡ some cmd
    → is_open cmd.status ≡ true
    → offer (Dict.put commands id (record cmd { status = delivered; delivered_at = some now })) j
      ≡ offer commands j
unfolding offer
offer-delivered now commands id j cmd e o = ground (
  arith,
  Laws.get-put commands id j (record cmd { status = delivered; delivered_at = some now }),
  eq_iff id j,
)

offers_cong :
    (c d : Dict Command) (queue : List String)
    → ((j : String) → offer c j ≡ offer d j)
    → offers c queue ≡ offers d queue
unfolding offers
offers_cong c d [] h = refl
offers_cong c d (id ∷ queue) h = rw (h id, offers_cong c d queue h)

-- A turn of the loop takes the offer of the head, and changes no offer.
take_one-offer :
    (now : ℕ) (id : String) (commands : Dict Command)
    → ((take_one now id commands ≡ none) × (offer commands id ≡ none))
      ⊎ ((p : Pulled) × (commands' : Dict Command) × (take_one now id commands
            ≡ some (p, commands'))
          × (offer commands id ≡ some p)
          × ((j : String) → offer commands' j ≡ offer commands j))
unfolding take_one offer
take_one-offer now id commands = elim (Option-cases (Dict.get commands id)) [
  | inl unknown ↦ inl (ground arith, ground arith)
  | inr (cmd, known) ↦ elim (Bool-cases (is_open cmd.status)) [
    | inl o ↦ inr (
      pulled_of id cmd,
      Dict.put commands id (record cmd { status = delivered; delivered_at = some now }),
      ground arith,
      ground arith,
      λ j. unfold offer in offer-delivered now commands id j cmd known o,
    )
    | inr c ↦ inl (ground arith, ground arith)
  ]
]

-- The loop hands out the first offers, as many as there is room for; what it leaves in the queue
-- offers the others.
pull_loop-offers :
    (now room : ℕ) (queue : List String) (commands : Dict Command)
    → let r = pull_loop now room queue commands in
      (r.2 ≡ take room (offers commands queue))
      × (offers commands r.0 ≡ drop room (offers commands queue))
      × ((j : String) → offer r.1 j ≡ offer commands j)
unfolding pull_loop offers
pull_loop-offers now zero queue commands = (refl, refl, λ j. refl)
pull_loop-offers now (suc room) [] commands = (refl, refl, λ j. refl)
pull_loop-offers now (suc room) (id ∷ queue) commands = elim (take_one-offer now id commands) [
  | inl (skip, nothing) ↦
      let (out, rest, after) = pull_loop-offers now (suc room) queue commands in
      (ground arith, ground arith, λ j. ground (arith, after j))
  | inr (p, commands', taken, yes', same) ↦
      let (out, rest, after) = pull_loop-offers now room queue commands' in
      let queue_same = offers_cong commands' commands queue same in
      let left_same = offers_cong commands' commands (pull_loop now room queue commands').0 same in
      (ground arith, ground arith, λ j. ground (arith, after j, same j))
]

-- `pull_commands` hands out the oldest outstanding commands of the agent itself, in the order in which
-- they were queued, as many as the limit allows; the others stay outstanding in their order, and
-- no other agent's are touched.
pub pull_is_fifo :
    (now : ℕ) (id : String) (limit : ℕ) (h : Hub)
    → let r = pull_commands now id limit h in
      (r.1 ≡ take limit (outstanding h (strip id)))
      × (outstanding r.0 (strip id) ≡ drop limit (outstanding h (strip id)))
      × ((a : String) → strip id ≢ a → outstanding r.0 a ≡ outstanding h a)
unfolding pull_commands outstanding
pull_is_fifo now id limit h =
    let queue = Dict.or_else (Dict.get h.queues (strip id)) [] in
    let r = pull_loop now limit queue h.commands in
    let (out, rest, after) = pull_loop-offers now limit queue h.commands in
    (
      out,
      ap (λ (o : Option (List String)). offers r.1 (Dict.or_else o []))
            (Laws.get-put_self h.queues (strip id) r.0)
          ∙ offers_cong r.1 h.commands r.0 after
          ∙ rest,
      λ a ne.
          ap (λ (o : Option (List String)). offers r.1 (Dict.or_else o []))
            (Laws.get-put_ne h.queues (strip id) a r.0 ne)
          ∙ offers_cong r.1 h.commands _ after,
    )

offers-append :
    (c : Dict Command) (xs ys : List String) → offers c (xs ++ ys) ≡ offers c xs ++ offers c ys
unfolding offers
offers-append c [] ys = refl
offers-append c (x ∷ xs) ys = ground (arith, offers-append c xs ys)

-- A command under an id that is in no queue changes no offer there.
offers-put :
    (c : Dict Command) (id : String) (cmd : Command) (queue : List String)
    → member id queue ≡ false
    → offers (Dict.put c id cmd) queue ≡ offers c queue
unfolding offers offer
offers-put c id cmd [] h = refl
offers-put c id cmd (x ∷ xs) h =
    ground (arith, offers-put c id cmd xs, Laws.get-put c id x cmd, str_eq-sym id x)

-- An id that the hub has never seen.
pub record IsUnused (id : String) (h : Hub) : Type 0 where
  pub unknown : Dict.get h.commands id ≡ none
  pub unqueued : (a : String) → member id (Dict.or_else (Dict.get h.queues a) []) ≡ false

offer-new :
    (c : Dict Command) (id : String) (cmd : Command)
    → cmd.status ≡ queued
    → offers (Dict.put c id cmd) (id ∷ []) ≡ pulled_of id cmd ∷ []
unfolding offers offer
offer-new c id cmd s = ground (arith, Laws.get-put_self c id cmd)

-- A command with the status queued, under an id that is neither known nor in a queue, goes behind what
-- its agent has outstanding; what other agents have outstanding stays.
pub enqueue_appends :
    (now : ℕ) (id : String) (cmd : Command) (h : Hub)
    → IsUnused id h
    → cmd.status ≡ queued
    → (outstanding (enqueue now id cmd h) cmd.agent_id
        ≡ outstanding h cmd.agent_id ++ pulled_of id cmd ∷ [])
      × ((a : String) → cmd.agent_id ≢ a → outstanding (enqueue now id cmd h) a ≡ outstanding h a)
unfolding enqueue outstanding
enqueue_appends now id cmd h u s =
    let queue = Dict.or_else (Dict.get h.queues cmd.agent_id) [] in
    let c = Dict.put h.commands id cmd in
    (
      ap (λ (o : Option (List String)). offers c (Dict.or_else o []))
            (Laws.get-put_self h.queues cmd.agent_id (queue ++ id ∷ []))
          ∙ offers-append c queue (id ∷ [])
          ∙ ap (λ (ps : List Pulled). ps ++ offers c (id ∷ []))
              (offers-put h.commands id cmd queue (u.unqueued cmd.agent_id))
          ∙ ap (λ (ps : List Pulled). offers h.commands queue ++ ps)
              (offer-new h.commands id cmd s),
      λ a ne.
          ap (λ (o : Option (List String)). offers c (Dict.or_else o []))
            (Laws.get-put_ne h.queues cmd.agent_id a (queue ++ id ∷ []) ne)
          ∙ offers-put h.commands id cmd _ (u.unqueued a),
    )

pub not_id : String → Pulled → Bool
not_id id p = not (str_eq id p.id)

offer-closed :
    (c : Dict Command) (id j : String) (cmd : Command)
    → is_open cmd.status ≡ false
    → offer (Dict.put c id cmd) j ≡ (if str_eq id j then none else offer c j)
unfolding offer
offer-closed c id j cmd s = ground (arith, Laws.get-put c id j cmd)

offer-id : (c : Dict Command) (j : String) (p : Pulled) → offer c j ≡ some p → p.id ≡ j
unfolding offer
offer-id c j p h = ground arith

-- A finished command is outstanding nowhere.
offers-closed :
    (c : Dict Command) (id : String) (cmd : Command) (queue : List String)
    → is_open cmd.status ≡ false
    → offers (Dict.put c id cmd) queue ≡ keep (not_id id) (offers c queue)
unfolding offers not_id
offers-closed c id cmd [] s = refl
offers-closed c id cmd (j ∷ queue) s = elim (Option-cases (offer c j)) [
  | inl nothing ↦ ground (arith, offers-closed c id cmd queue s, offer-closed c id j cmd s)
  | inr (p, found) ↦
      ground
        (arith, offers-closed c id cmd queue s, offer-closed c id j cmd s, offer-id c j p found)
]

-- Only the agent that a command was queued for can finish it: an unknown id and another agent are
-- told apart, and neither gets anything but the error.
pub complete_refusals :
    (now : ℕ) (id agent : String) (result : Fields) (h : Hub)
    → (Dict.get h.commands (strip id) ≡ none → complete_command now id agent result h ≡ key_error)
      × ((cmd : Command)
          → Dict.get h.commands (strip id) ≡ some cmd
          → cmd.agent_id ≢ strip agent
          → complete_command now id agent result h ≡ permission_error)
unfolding complete_command
complete_refusals now id agent result h =
    (λ e. ground arith, λ cmd e ne. ground (arith, eq_iff cmd.agent_id (strip agent)))

complete_inverse :
    (now : ℕ) (id agent : String) (result : Fields) (h h' : Hub) (cmd' : Command)
    (o : Option Command)
    → complete_found now id agent result h o ≡ returns (h', cmd')
    → (cmd : Command) × (o ≡ some cmd)
      × (cmd.agent_id ≡ agent)
      × (cmd' ≡ finish_command now result cmd)
      × (h' ≡ record h { commands = Dict.put h.commands id cmd' })
complete_inverse now id agent result h h' cmd' none e = cc
complete_inverse now id agent result h h' cmd' (some cmd) e =
    elim (Bool-cases (str_eq cmd.agent_id agent)) [
      | inl own ↦ (cmd, refl, (eq_iff cmd.agent_id agent).0 own, ground arith, ground arith)
      | inr other ↦ absurd (ground arith)
    ]

finish_command-closed :
    (now : ℕ) (result : Fields) (cmd : Command)
    → is_open (finish_command now result cmd).status ≡ false
finish_command-closed now result cmd = ground arith

-- A command that was finished belonged to the caller and has the status that the result says; it is
-- then outstanding for nobody, and everything else stays outstanding in its order.
pub completed_is_gone :
    (now : ℕ) (id agent : String) (result : Fields) (h h' : Hub) (cmd' : Command)
    → complete_command now id agent result h ≡ returns (h', cmd')
    → (cmd'.agent_id ≡ strip agent)
      × (cmd'.status ≡ (if Json.truthy (Json.get result "ok") then succeeded else failed))
      × (Dict.get h'.commands (strip id) ≡ some cmd')
      × ((a : String) → outstanding h' a ≡ keep (not_id (strip id)) (outstanding h a))
unfolding complete_command outstanding
completed_is_gone now id agent result h h' cmd' e =
    let (cmd, known, own, finished, after) =
      complete_inverse now (strip id) (strip agent) result h h' cmd' _ e in
    let closed : is_open cmd'.status ≡ false =
      ap (λ (c : Command). is_open c.status) finished ∙ finish_command-closed now result cmd in
    (
      ap (λ (c : Command). c.agent_id) finished ∙ own,
      ap (λ (c : Command). c.status) finished,
      ap (λ (x : Hub). Dict.get x.commands (strip id)) after
          ∙ Laws.get-put_self h.commands (strip id) cmd',
      λ a.
          ap (λ (x : Hub). offers x.commands (Dict.or_else (Dict.get x.queues a) [])) after
          ∙ offers-closed h.commands (strip id) cmd' _ closed,
    )
