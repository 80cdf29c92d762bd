-- ===== src/Tests/Senders.antt =====
-- Commands in the pool of senders, and the echo of a message that the bridge has sent.
use pdd_bridge_agent.Prelude.{
  ℕ, zero, suc, Bool, true, false, List, [], ◌∷◌, String, length, map, ◌≡◌, refl, arith,
}
use pdd_bridge_agent.Text.{strip, append}
use pdd_bridge_agent.Commands.Verdicts.{sent_text_key}
use pdd_bridge_agent.Commands.Dispatch.{note_self_send}
use pdd_bridge_agent.Tests.Commands.{agent}
use pdd_bridge_agent.Senders.{
  Command, sends, Pool, conversation, new_pool, idle_workers, is_held, Move, offers, takes, locks,
  begins_inline, raises_inline, begin_inline, raise_inline, left_of, run, step, offer, take, lock,
  replace, job_at,
}
use pdd_bridge_agent.Upload.Batches.{Every}
use pdd_bridge_agent.Senders.Locks.{one_worker_each, IsExclusive}
use pdd_bridge_agent.Senders.Order.{no_command_lost, IsBehind, total, offered, saturated_overlaps}
use pdd_bridge_agent.Commands.Channel.{SelfSend}
use pdd_bridge_agent.Senders.SentBy.{
  Message, own_send_is_agent, classify_sent_by, same_seat, note_all,
}

abbrev command : ℕ → Command
command n = record { handle = n; poll = 1; account = "cs_1_2"; buyer_id = "b1" }

abbrev moves : List Move
moves =
    offers true (command 1) ∷ offers true (command 2) ∷ takes 0 ∷ takes 1 ∷ locks 0 ∷ locks 1 ∷ []

one_worker_each_example : IsExclusive (run moves (new_pool 6))
one_worker_each_example = one_worker_each 6 moves

-- The second worker waits for the first.
waits_for_lock : map (λ (c : Command). c.handle) (run moves (new_pool 6)).started ≡ 1 ∷ []
unfolding run step offer take lock replace job_at conversation new_pool idle_workers strip append
waits_for_lock = refl

-- Two commands of one call are executed inline, and the first one raises.
abbrev raising : List Move
raising =
    offers false (command 1) ∷ offers false (command 2) ∷ begins_inline 0 ∷ raises_inline 0 ∷ []

raising_loses : map (λ (c : Command). c.handle) (run raising (new_pool 6)).lost ≡ 2 ∷ []
unfolding run step offer begin_inline raise_inline left_of replace job_at new_pool
raising_loses = refl

no_command_lost_example :
    (total 2 (run raising (new_pool 6)) ≡ offered 2 raising)
    × Every (IsBehind (run raising (new_pool 6)).raised) (run raising (new_pool 6)).lost
no_command_lost_example = no_command_lost 2 6 raising

abbrev copies : ℕ → List Command
copies zero = []
copies (suc n) = command n ∷ copies n

abbrev full : Pool
full = record {
  queue = copies 64;
  workers = sends (command 100) ∷ [];
  inline = [];
  started = [];
  done = [];
  raised = [];
  lost = [];
}

saturated_overlaps_example :
    let p' = run (offers true (command 101) ∷ begins_inline (length full.inline) ∷ []) full in
    (is_held (conversation (command 101)) p'.workers ≡ true)
    × (is_held (conversation (command 101)) p'.inline ≡ true)
saturated_overlaps_example =
    saturated_overlaps (command 101) full (omega arith) (unfold conversation strip append in refl)

abbrev differs : String → String → Bool
differs a b = false

abbrev echo : Message
echo = record {
  role = "mall_cs";
  content = "Hello??";
  account = "cs_123456:7";
  buyer_id = "b1";
  is_history = false;
}

abbrev other_send : SelfSend
other_send = record { account = "mall_123456"; buyer_id = "b2"; content = "Bye"; ts = 1500 }

own_send_is_agent_example :
    classify_sent_by differs 180000 2000 echo
      (note_all (other_send ∷ []) (note_self_send 1000 "mall_123456" "b1" "Hello" agent)).self_sends
    ≡ "agent"
own_send_is_agent_example =
    own_send_is_agent differs 180000 1000 2000 "mall_123456" "b1" "Hello" (other_send ∷ []) echo
      agent refl refl (unfold sent_text_key in refl) (unfold sent_text_key in refl)
      (unfold same_seat in refl) refl (omega arith) (omega arith)
