-- ===== src/Ingest.antt =====
-- The test of bridge/agent.py for messages that another source has reported already. Times are
-- milliseconds.
pub mod Window
use pdd_bridge_agent.Prelude.{
  ℕ, suc, ◌+◌, ◌-◌, Bool, true, false, not, ◌&&◌, ◌||◌, Option, none, some, List, [], ◌∷◌, String,
  Char, code, str_eq, nat_eq, ltb, leb, if◌then◌else◌, keep, length,
}
use pdd_bridge_agent.Text.{strip, is_blank, or_text, lower_code}
use pdd_bridge_agent.Dict
use pdd_bridge_agent.Dict.{Dict}

-- What the test reads of a message.
pub record Message : Type 0 where
  pub role : String
  pub is_diagnostic : Bool
  pub platform_message_id : String
  pub msg_id : String

-- `c.lower()` where it is an ASCII letter: the Kelvin sign is a k.
abbrev fold : Char → ℕ
fold c = if nat_eq (code c) 0x212a then b'k' else lower_code (code c)

-- `s.lower().startswith(t)` for a `t` of ASCII characters in lower case
unfoldable starts_folded : String → String → Bool
starts_folded s String.[] = true
starts_folded String.[] (String.◌∷◌ d t) = false
starts_folded (String.◌∷◌ c s) (String.◌∷◌ d t) = nat_eq (fold c) (code d) && starts_folded s t

abbrev is_hex : Char → Bool
is_hex c = let n = lower_code (code c) in (leb b'0' n && leb n b'9') || (leb b'a' n && leb n b'f')

abbrev hex_of_length : ℕ → String → Bool
hex_of_length n String.[] = nat_eq n 0
hex_of_length n (String.◌∷◌ c s) = is_hex c && not (nat_eq n 0) && hex_of_length (n - 1) s

-- One turn of the loop of `_ingest_identity`: the id, or nothing where it is blank or made up.
unfoldable pub usable : String → String
unfolding starts_folded strip
usable key =
    let identity = strip key in
    if starts_folded identity "callback-"
      || starts_folded identity "frame-"
      || starts_folded identity "imws-"
      || hex_of_length 24 identity
    then ""
    else identity

-- `_ingest_identity`
unfoldable pub ingest_identity : Message → String
unfolding usable
ingest_identity m =
    if m.is_diagnostic then "" else or_text (usable m.platform_message_id) (usable m.msg_id)

pub record Ingest : Type 0 where
  pub seen : Dict ℕ
  pub pruned_at : ℕ
  pub dropped : ℕ
  pub last_drop_at : ℕ

-- `_prune_ingest_seen`
unfoldable pub prune : ℕ → ℕ → Ingest → Ingest
prune window now s =
    if leb (length s.seen) 5000 || ltb (now - s.pruned_at) 60000
    then s
    else record s { seen = keep (λ e. not (ltb e.1 (now - window))) s.seen; pruned_at = now }

abbrev pub is_recent : ℕ → ℕ → Option ℕ → Bool
is_recent window now none = false
is_recent window now (some last) = ltb (now - last) window

unfoldable pub duplicate_of : ℕ → ℕ → String → Ingest → Ingest × Bool
unfolding prune
duplicate_of window now identity s =
    if is_recent window now (Dict.get s.seen identity)
    then (
      record s { seen = Dict.put s.seen identity now; dropped = s.dropped + 1; last_drop_at = now },
      true,
    )
    else (prune window now (record s { seen = Dict.put s.seen identity now }), false)

-- `_cross_source_duplicate`
unfoldable pub cross_source_duplicate : ℕ → ℕ → Message → Ingest → Ingest × Bool
unfolding duplicate_of ingest_identity
cross_source_duplicate window now m s =
    if str_eq m.role "mall_cs" || is_blank (ingest_identity m)
    then (s, false)
    else duplicate_of window now (ingest_identity m) s

-- `_ingest_release`
unfoldable pub ingest_release : Message → Ingest → Ingest
unfolding ingest_identity
ingest_release m s =
    if is_blank (ingest_identity m)
    then s
    else record s { seen = Dict.remove s.seen (ingest_identity m) }

-- Messages as they come in, each with its time
unfoldable pub take_in : ℕ → List (ℕ × Message) → Ingest → Ingest
unfolding cross_source_duplicate
take_in window [] s = s
take_in window ((now, m) ∷ rest) s = take_in window rest (cross_source_duplicate window now m s).0
