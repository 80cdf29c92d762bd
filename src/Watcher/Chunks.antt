-- ===== src/Watcher/Chunks.antt =====
-- The lines of a file do not depend on the chunks that it was read in, nor on where a restart came between.
use mathlib.Core.List.{append_assoc, append-nil}
use pdd_bridge_agent.Prelude.{
  ℕ, suc, ◌+◌, ◌-◌, ◌≤◌, Bool, true, false, Option, none, some, List, [], ◌∷◌, ◌++◌, String, nat_eq,
  ltb, if◌then◌else◌, length, length-append, drop, keep, map, ◌≡◌, inl, inr, refl, sym, ap, ◌∙◌,
  arith, Bool-cases, if_ind, false≢true,
}
use pdd_bridge_agent.Watcher.{
  Bytes, newline, split_at_byte, split, buffer_limit, cut, read_chunk, read_chunks, has_text,
  rstrip_return, lines_of, read_new, checkpoint, parse_recv_line, frames_of, frame_before, pump,
}

-- Pieces, and then those of what is left with more bytes behind it
abbrev then_split : List Bytes × Bytes → Bytes → List Bytes × Bytes
then_split (ls, rest) more = (ls ++ (split (rest ++ more)).0, (split (rest ++ more)).1)

split_byte-append :
    (b : ℕ) (r : List Bytes × Bytes) (more : Bytes)
    → split_at_byte b (then_split r more) ≡ then_split (split_at_byte b r) more
unfolding split
split_byte-append b ([], rest) more = elim (Bool-cases (nat_eq b newline)) [
  | inl e ↦ rw e refl
  | inr n ↦
      ap (λ (t : Bool). then_split (if t then ([] ∷ [], rest) else ([], b ∷ rest)) more) (sym n)
]
split_byte-append b (l ∷ ls, rest) more = elim (Bool-cases (nat_eq b newline)) [
  | inl e ↦ rw e refl
  | inr n ↦ rw n refl
]

-- The bytes in two parts
split-append : (xs ys : Bytes) → split (xs ++ ys) ≡ then_split (split xs) ys
unfolding split
split-append [] ys = refl
split-append (x ∷ xs) ys =
    ap (split_at_byte x) (split-append xs ys) ∙ split_byte-append x (split xs) ys

length-split : (xs : Bytes) → length (split xs).1 ≤ length xs
unfolding split
length-split [] = omega arith
length-split (x ∷ xs) = byte x (split xs) (length-split xs)
  where
    byte :
        (b : ℕ) (r : List Bytes × Bytes)
        → length r.1 ≤ length xs
        → length (split_at_byte b r).1 ≤ suc (length xs)
    byte b ([], rest) h =
        if_ind (λ (s : List Bytes × Bytes). length s.1 ≤ suc (length xs)) (nat_eq b newline) _ _
          (λ e. omega (arith, h)) (λ e. omega (arith, h))
    byte b (l ∷ ls, rest) h =
        if_ind (λ (s : List Bytes × Bytes). length s.1 ≤ suc (length xs)) (nat_eq b newline) _ _
          (λ e. omega (arith, h)) (λ e. omega (arith, h))

-- All the bytes of the chunks
abbrev pub concat : List Bytes → Bytes
concat [] = []
concat (c ∷ cs) = c ++ concat cs

cut_not : (limit : ℕ) (r : List Bytes × Bytes) → length r.1 ≤ limit → cut limit r ≡ r
cut_not limit (ls, rest) h =
    let no : ltb limit (length rest) ≡ false = ground (arith, h) in rw no refl

-- What is left has no piece that is complete.
rest_pure : (xs : Bytes) → split (split xs).1 ≡ ([], (split xs).1)
unfolding split
rest_pure [] = refl
rest_pure (x ∷ xs) = byte x (split xs) (rest_pure xs)
  where
    byte :
        (b : ℕ) (r : List Bytes × Bytes)
        → split r.1 ≡ ([], r.1)
        → split (split_at_byte b r).1 ≡ ([], (split_at_byte b r).1)
    byte b (l ∷ ls, rest) h =
        if_ind (λ (s : List Bytes × Bytes). split s.1 ≡ ([], s.1)) (nat_eq b newline) _ _ (λ e. h)
          (λ e. h)
    byte b ([], rest) h =
        if_ind (λ (s : List Bytes × Bytes). split s.1 ≡ ([], s.1)) (nat_eq b newline) _ _ (λ e. h)
          (λ e.
            ap (split_at_byte b) h
            ∙ ap (λ (t : Bool). if t then ([] ∷ [], rest) else ([], b ∷ rest)) e)

-- The turns behind the first one
abbrev next_chunks : ℕ → List Bytes → List Bytes × Bytes → List Bytes × Bytes
next_chunks limit cs r = (r.0 ++ (read_chunks limit r.1 cs).0, (read_chunks limit r.1 cs).1)

-- Where the buffer and the chunks are within the limit, the chunks give the pieces of all the bytes.
read_chunks-split :
    (limit : ℕ) (buffer : Bytes) (chunks : List Bytes)
    → (split buffer ≡ ([], buffer))
    → length buffer + length (concat chunks) ≤ limit
    → read_chunks limit buffer chunks ≡ split (buffer ++ concat chunks)
unfolding read_chunks read_chunk
read_chunks-split limit buffer [] pure few = sym (ap split (append-nil buffer) ∙ pure)
read_chunks-split limit buffer (c ∷ cs) pure few =
    let s = split (buffer ++ c) in
    let size = length-split (buffer ++ c) in
    let both = length-append buffer c in
    let all = length-append c (concat cs) in
    let one : read_chunk limit buffer c ≡ s =
      cut_not limit s (omega (arith, size, both, all, few)) in
    let later =
      read_chunks-split limit s.1 cs (rest_pure (buffer ++ c))
        (omega (arith, size, both, all, few)) in
    ap (next_chunks limit cs) one
    ∙ ap (λ (r : List Bytes × Bytes). (s.0 ++ r.0, r.1)) later
    ∙ sym (split-append (buffer ++ c) (concat cs))
    ∙ ap split (append_assoc buffer c (concat cs))

-- The lines of a file whose bytes are split at once
abbrev pub whole_lines : (Bytes → String) → Bytes → List String
whole_lines decode bytes = lines_of decode (split bytes).0

-- The lines that are read of a file, and what is kept of an unfinished one, are those of its bytes split
-- at once, in whatever chunks it was read, as long as no more than eight megabytes are read.
pub read_new-whole :
    (decode : Bytes → String) (chunks : List Bytes)
    → length (concat chunks) ≤ buffer_limit
    → read_new decode [] chunks ≡ (whole_lines decode (concat chunks), (split (concat chunks)).1)
unfolding read_new
read_new-whole decode chunks few =
    ap (λ (r : List Bytes × Bytes). (lines_of decode r.0, r.1))
      (read_chunks-split buffer_limit [] chunks (unfold split in refl) (omega (arith, few)))

lines-append :
    (decode : Bytes → String) (xs ys : List Bytes)
    → lines_of decode (xs ++ ys) ≡ lines_of decode xs ++ lines_of decode ys
unfolding lines_of
lines-append decode [] ys = refl
lines-append decode (x ∷ xs) ys = one (has_text x) (lines-append decode xs ys)
  where
    line : Bytes → String
    line c = decode (rstrip_return c)

    with_line : Bool → List Bytes → List String
    with_line b rest = map line (elim b [ true ↦ x ∷ rest | false ↦ rest ])

    one :
        (b : Bool)
        → map line (keep has_text (xs ++ ys))
          ≡ map line (keep has_text xs) ++ map line (keep has_text ys)
        → with_line b (keep has_text (xs ++ ys))
          ≡ with_line b (keep has_text xs) ++ map line (keep has_text ys)
    one true h = ap (λ (r : List String). line x ∷ r) h
    one false h = h

-- What is left is the end of the bytes, and all of them where no piece is complete.
abbrev IsEnd : Bytes → List Bytes × Bytes → Type 0
IsEnd xs r = ((p : Bytes) × (xs ≡ p ++ r.1)) × (r.0 ≡ [] → r.1 ≡ xs)

abbrev is_nil {ℓ} : {A : Type ℓ} → List A → Bool
is_nil [] = true
is_nil (x ∷ xs) = false

byte-IsEnd :
    (x : ℕ) (xs : Bytes) (r : List Bytes × Bytes) → IsEnd xs r → IsEnd (x ∷ xs) (split_at_byte x r)
byte-IsEnd x xs ([], rest) h =
    if_ind (IsEnd (x ∷ xs)) (nat_eq x newline) _ _
      (λ e. ((x ∷ h.0.0, ap (λ (t : Bytes). x ∷ t) h.0.1), λ n. absurd (false≢true (ap is_nil n))))
      (λ e. (
        ([], ap (λ (t : Bytes). x ∷ t) (sym (h.1 refl))),
        λ n. ap (λ (t : Bytes). x ∷ t) (h.1 refl),
      ))
byte-IsEnd x xs (l ∷ ls, rest) h =
    if_ind (IsEnd (x ∷ xs)) (nat_eq x newline) _ _
      (λ e. ((x ∷ h.0.0, ap (λ (t : Bytes). x ∷ t) h.0.1), λ n. absurd (false≢true (ap is_nil n))))
      (λ e. ((x ∷ h.0.0, ap (λ (t : Bytes). x ∷ t) h.0.1), λ n. absurd (false≢true (ap is_nil n))))

split-IsEnd : (xs : Bytes) → IsEnd xs (split xs)
unfolding split
split-IsEnd [] = (([], refl), λ n. refl)
split-IsEnd (x ∷ xs) = byte-IsEnd x xs (split xs) (split-IsEnd xs)

drop-length : (p r : Bytes) → drop (length p) (p ++ r) ≡ r
drop-length [] r = refl
drop-length (x ∷ p) r = drop-length p r

-- The bytes behind the checkpoint are those that are in no line yet, and those that come later.
drop_checkpoint :
    (xs more : Bytes) → drop (length xs - length (split xs).1) (xs ++ more) ≡ (split xs).1 ++ more
drop_checkpoint xs more =
    let (p, e) = (split-IsEnd xs).0 in
    let rest = (split xs).1 in
    let size : length xs - length rest ≡ length p =
      omega (arith, ap length e, length-append p rest) in
    ap (λ (n : ℕ). drop n (xs ++ more)) size
    ∙ ap (λ (t : Bytes). drop (length p) (t ++ more)) e
    ∙ ap (drop (length p)) (append_assoc p rest more)
    ∙ drop-length p (rest ++ more)

-- A restart at a checkpoint loses no line and reads none twice: the lines that were read before it, from
-- whatever chunks, and those of the file from the checkpoint on are the lines of the whole file, as long as
-- no more than eight megabytes are read before it.
pub checkpoint_resumes :
    (decode : Bytes → String) (chunks : List Bytes) (more : Bytes)
    → length (concat chunks) ≤ buffer_limit
    → let r = read_new decode [] chunks in
      r.0
        ++ whole_lines decode
            (drop (checkpoint (length (concat chunks)) r.1) (concat chunks ++ more))
      ≡ whole_lines decode (concat chunks ++ more)
unfolding checkpoint
checkpoint_resumes decode chunks more few =
    let xs = concat chunks in
    let s = split xs in
    ap
      (λ (r : List String × Bytes).
        r.0 ++ whole_lines decode (drop (length xs - length r.1) (xs ++ more)))
      (read_new-whole decode chunks few)
    ∙ ap (λ (t : Bytes). whole_lines decode xs ++ whole_lines decode t) (drop_checkpoint xs more)
    ∙ sym (lines-append decode s.0 (split (s.1 ++ more)).0)
    ∙ ap (λ (r : List Bytes × Bytes). lines_of decode r.0) (sym (split-append xs more))

frames-append : (xs ys : List Bytes) → frames_of (xs ++ ys) ≡ frames_of xs ++ frames_of ys
unfolding frames_of
frames-append [] ys = refl
frames-append (x ∷ xs) ys = one (parse_recv_line x) (frames-append xs ys)
  where
    one :
        (f : Option Bytes)
        → frames_of (xs ++ ys) ≡ frames_of xs ++ frames_of ys
        → frame_before f (frames_of (xs ++ ys)) ≡ frame_before f (frames_of xs) ++ frames_of ys
    one none h = h
    one (some f) h = ap (λ (r : List Bytes). f ∷ r) h

pump-split :
    (buf : Bytes) (chunks : List Bytes)
    → split buf ≡ ([], buf)
    → let s = split (buf ++ concat chunks) in pump buf chunks ≡ (frames_of s.0, s.1)
unfolding pump
pump-split buf [] pure =
    ap (λ (r : List Bytes × Bytes). (frames_of r.0, r.1)) (sym (ap split (append-nil buf) ∙ pure))
pump-split buf (c ∷ cs) pure =
    let s = split (buf ++ c) in
    let t = split (s.1 ++ concat cs) in
    ap (λ (r : List Bytes × Bytes). (frames_of s.0 ++ r.0, r.1))
      (pump-split s.1 cs (rest_pure (buf ++ c)))
    ∙ ap (λ (f : List Bytes). (f, t.1)) (sym (frames-append s.0 t.0))
    ∙ ap (λ (r : List Bytes × Bytes). (frames_of r.0, r.1))
        (sym (split-append (buf ++ c) (concat cs)) ∙ ap split (append_assoc buf c (concat cs)))

-- The frames that the pump hands on, and what it keeps, are those of all the bytes of the pipe split at
-- once, in whatever chunks they come.
pub pump-whole :
    (chunks : List Bytes)
    → pump [] chunks ≡ (frames_of (split (concat chunks)).0, (split (concat chunks)).1)
unfolding pump
pump-whole chunks = pump-split [] chunks (unfold split in refl)
