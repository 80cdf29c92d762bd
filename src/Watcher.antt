-- ===== src/Watcher.antt =====
-- How bridge/watcher.py reads the lines of a log file that grows, and bridge/pdd_recv.py the frames of its pipe:
-- `_read_new`, the cursor of `_save_checkpoints`, `parse_recv_line` and `_pump`.
pub mod Chunks
pub mod Buffer
pub mod Flush
pub mod Merge
use pdd_bridge_agent.Prelude.{
  ℕ, zero, suc, ◌+◌, ◌-◌, Bool, true, false, not, ◌&&◌, ◌||◌, Option, none, some, List, [], ◌∷◌,
  ◌++◌, String, nat_eq, ltb, leb, if◌then◌else◌, length, drop, keep, map,
}

abbrev pub Bytes : Type 0
Bytes = List ℕ

abbrev pub newline : ℕ
newline = 10

abbrev with_byte : ℕ → List Bytes → Bytes → List Bytes × Bytes
with_byte b [] rest = ([], b ∷ rest)
with_byte b (l ∷ ls) rest = ((b ∷ l) ∷ ls, rest)

abbrev split_at_byte : ℕ → List Bytes × Bytes → List Bytes × Bytes
split_at_byte b (ls, rest) = if nat_eq b newline then ([] ∷ ls, rest) else with_byte b ls rest

-- `data.split(b"\n")`, its last piece apart
unfoldable pub split : Bytes → List Bytes × Bytes
split [] = ([], [])
split (b ∷ bs) = split_at_byte b (split bs)

-- `_buffers[name]` may hold eight megabytes.
abbrev pub buffer_limit : ℕ
buffer_limit = 8388608

abbrev pub cut : ℕ → List Bytes × Bytes → List Bytes × Bytes
cut limit (ls, rest) = if ltb limit (length rest) then (ls ++ rest ∷ [], []) else (ls, rest)

-- One turn of the loop of `_read_new`: the pieces of the buffer and of what was read, and the new buffer
unfoldable pub read_chunk : ℕ → Bytes → Bytes → List Bytes × Bytes
unfolding split
read_chunk limit buffer chunk = cut limit (split (buffer ++ chunk))

-- What the turns of the loop give, over the chunks that `handle.read` returns until the budget is spent
unfoldable pub read_chunks : ℕ → Bytes → List Bytes → List Bytes × Bytes
unfolding read_chunk
read_chunks limit buffer [] = ([], buffer)
read_chunks limit buffer (chunk ∷ rest) =
    let (pieces, buffer') = read_chunk limit buffer chunk in
    let (later, end) = read_chunks limit buffer' rest in (pieces ++ later, end)

-- `bytes.isspace` of one byte
abbrev is_space : ℕ → Bool
is_space b = nat_eq b 32 || (leb 9 b && leb b 13)

-- `c.strip()` is not empty.
abbrev pub has_text : Bytes → Bool
has_text [] = false
has_text (b ∷ bs) = not (is_space b) || has_text bs

abbrev without_return : ℕ → Bytes → Bytes
without_return b [] = if nat_eq b 13 then [] else b ∷ []
without_return b (c ∷ cs) = b ∷ c ∷ cs

-- `c.rstrip(b"\r")`
unfoldable pub rstrip_return : Bytes → Bytes
rstrip_return [] = []
rstrip_return (b ∷ bs) = without_return b (rstrip_return bs)

-- The lines of pieces; `decode` is `_decode_line`, the codecs of Python.
unfoldable pub lines_of : (Bytes → String) → List Bytes → List String
unfolding rstrip_return
lines_of decode pieces = map (λ c. decode (rstrip_return c)) (keep has_text pieces)

-- `_read_new`, on the chunks that it reads
unfoldable pub read_new : (Bytes → String) → Bytes → List Bytes → List String × Bytes
unfolding lines_of read_chunks
read_new decode buffer chunks =
    let (pieces, buffer') = read_chunks buffer_limit buffer chunks in
    (lines_of decode pieces, buffer')

-- The `position` of `_save_checkpoints`, at the place where the file was read to
unfoldable pub checkpoint : ℕ → Bytes → ℕ
checkpoint tell buffer = tell - length buffer

-- `parse_recv_line` of a line of text; `some ""` cannot come of it.
abbrev frame_prefix : Bytes
frame_prefix = 70 ∷ 82 ∷ 65 ∷ 77 ∷ 69 ∷ 124 ∷ []

-- The bytes behind a prefix
abbrev behind : Bytes → Bytes → Option Bytes
behind [] s = some s
behind (p ∷ ps) [] = none
behind (p ∷ ps) (b ∷ bs) = if nat_eq p b then behind ps bs else none

abbrev is_line_end : ℕ → Bool
is_line_end b = nat_eq b 10 || nat_eq b 13

abbrev without_end : ℕ → Bytes → Bytes
without_end b [] = if is_line_end b then [] else b ∷ []
without_end b (c ∷ cs) = b ∷ c ∷ cs

unfoldable pub rstrip_ends : Bytes → Bytes
rstrip_ends [] = []
rstrip_ends (b ∷ bs) = without_end b (rstrip_ends bs)

abbrev unless_empty : Option Bytes → Option Bytes
unless_empty none = none
unless_empty (some []) = none
unless_empty (some (b ∷ bs)) = some (b ∷ bs)

-- `parse_recv_line`, on the bytes of the line: decoding UTF-8 keeps ASCII bytes, which are all that it looks at.
unfoldable pub parse_recv_line : Bytes → Option Bytes
unfolding rstrip_ends
parse_recv_line line = unless_empty (behind frame_prefix (rstrip_ends line))

abbrev frame_before : Option Bytes → List Bytes → List Bytes
frame_before none rest = rest
frame_before (some f) rest = f ∷ rest

unfoldable pub frames_of : List Bytes → List Bytes
unfolding parse_recv_line
frames_of [] = []
frames_of (line ∷ rest) = frame_before (parse_recv_line line) (frames_of rest)

-- `_pump` over the chunks that the pipe gives: the frames that are handed on, and what is left in `buf`
unfoldable pub pump : Bytes → List Bytes → List Bytes × Bytes
unfolding split frames_of
pump buf [] = ([], buf)
pump buf (chunk ∷ rest) =
    let (lines, buf') = split (buf ++ chunk) in
    let (later, end) = pump buf' rest in (frames_of lines ++ later, end)
