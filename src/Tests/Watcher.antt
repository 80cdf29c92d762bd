-- ===== src/Tests/Watcher.antt =====
-- A log file that is read in pieces, frames of the pipe, and a flush of which one callback fails.
use pdd_bridge_agent.Prelude.{
  ℕ, Bool, true, false, not, ◌+◌, if◌then◌else◌, none, List, [], ◌∷◌, ◌++◌, String, nat_eq, length,
  drop, ◌≡◌, inl, inr, refl, arith,
}
use pdd_bridge_agent.Dict
use pdd_bridge_agent.Watcher.{
  Bytes, read_new, read_chunks, read_chunk, lines_of, rstrip_return, split, checkpoint, pump,
  frames_of, parse_recv_line, rstrip_ends,
}
use pdd_bridge_agent.Watcher.Chunks.{concat, whole_lines, checkpoint_resumes, pump-whole}
use pdd_bridge_agent.Watcher.Buffer.{
  Item, Buffer, flush_pending, flush_all, flush_one, ready, sort, insert, taken, remember,
  is_history_duplicate,
}
use pdd_bridge_agent.Watcher.Flush.{failure_blocks_none, flush-IsKept, IsKept}

-- "a\r\nb" and "c\n\nd", then "e\n"
abbrev chunks : List Bytes
chunks = (97 ∷ 13 ∷ 10 ∷ 98 ∷ []) ∷ (99 ∷ 10 ∷ 10 ∷ 100 ∷ []) ∷ []

abbrev more : Bytes
more = 101 ∷ 10 ∷ []

abbrev decode : Bytes → String
decode [] = ""
decode (b ∷ bs) = if nat_eq b 97 then "a" else if nat_eq b 98 then "bc" else "de"

read_test : read_new decode [] chunks ≡ ("a" ∷ "bc" ∷ [], 100 ∷ [])
unfolding read_new read_chunks read_chunk lines_of rstrip_return split
read_test = refl

checkpoint_test : checkpoint 8 (100 ∷ []) ≡ 7
unfolding checkpoint
checkpoint_test = refl

checkpoint_resumes_example :
    let r = read_new decode [] chunks in
    r.0
      ++ whole_lines decode (drop (checkpoint (length (concat chunks)) r.1) (concat chunks ++ more))
    ≡ whole_lines decode (concat chunks ++ more)
checkpoint_resumes_example = checkpoint_resumes decode chunks more (omega arith)

-- "FRA", "ME|x\r\nPI" and "NG\n"
abbrev piped : List Bytes
piped =
    (70 ∷ 82 ∷ 65 ∷ []) ∷ (77 ∷ 69 ∷ 124 ∷ 120 ∷ 13 ∷ 10 ∷ 80 ∷ 73 ∷ []) ∷ (78 ∷ 71 ∷ 10 ∷ []) ∷ []

pump_test : pump [] piped ≡ ((120 ∷ []) ∷ [], [])
unfolding pump frames_of parse_recv_line rstrip_ends split
pump_test = refl

pump-whole_example : pump [] piped ≡ (frames_of (split (concat piped)).0, (split (concat piped)).1)
pump-whole_example = pump-whole piped

abbrev item : ℕ → String → ℕ → Item
item handle exact first_seen = record {
  handle = handle;
  source = "cdp";
  scope = "s";
  content = "hello";
  exact = exact;
  semantic = "";
  quality = 1000;
  first_seen = first_seen;
  due = first_seen + 150;
}

abbrev buffer : Buffer
buffer = record {
  pending = ("k1", item 1 "e1" 1000) ∷ ("k2", item 2 "e2" 900) ∷ ("k3", item 3 "e1" 1100) ∷ [];
  seen = [];
  semantic_seen = [];
  history = [];
  delivered = [];
  dropped = [];
  failed = false;
}

abbrev waiting : Buffer
waiting = record buffer { pending = ("e2", item 2 "e2" 900) ∷ [] }

abbrev accepts : Item → Bool
accepts i = not (nat_eq i.handle 2)

abbrev after : Buffer
after = flush_pending accepts true 2000 buffer

flush_test : after.pending ≡ ("k2", item 2 "e2" 900) ∷ []
unfolding flush_pending flush_all flush_one ready sort insert taken remember is_history_duplicate
    Dict.remove
flush_test = refl

failure_blocks_none_example : Dict.get after.pending "k1" ≡ none
failure_blocks_none_example =
    failure_blocks_none accepts 2000 true "k1" (item 1 "e1" 1000) buffer
      (unfold ready sort insert in inr (inl refl)) refl

flush-IsKept_example :
    IsKept accepts 2000
      (record buffer { failed = false })
      "k2"
      (Dict.get buffer.pending "k2")
      (ready true 2000 buffer.pending)
      after
flush-IsKept_example = flush-IsKept accepts 2000 true "k2" buffer

abbrev copy : Item
copy = record (item 4 "e2" 0) { quality = 2000 }
