-- ===== src/Text.antt =====
-- What the program asks of Python's texts: `strip`, `lower`, `isdigit`, prefixes, and `x or y`.
pub mod Strip
use pdd_bridge_agent.Prelude.{
  ℕ, ◌+◌, Bool, true, false, ◌&&◌, ◌||◌, String, Char, code, str_eq, ltb, leb, nat_eq,
  if◌then◌else◌, ◌≡◌, refl,
}

-- `str.isspace` of one character
unfoldable pub is_space : Char → Bool
is_space c =
    let n = code c in
    (leb 9 n && leb n 13)
    || (leb 28 n && leb n 32)
    || nat_eq n 0x85
    || nat_eq n 0xa0
    || nat_eq n 0x1680
    || (leb 0x2000 n && leb n 0x200a)
    || nat_eq n 0x2028
    || nat_eq n 0x2029
    || nat_eq n 0x202f
    || nat_eq n 0x205f
    || nat_eq n 0x3000

unfoldable pub lstrip : String → String
lstrip String.[] = String.[]
lstrip (String.◌∷◌ c s) = if is_space c then lstrip s else String.◌∷◌ c s

-- A white character goes if nothing is left behind it.
unfoldable pub rstrip_cons : Char → String → String
rstrip_cons c String.[] = if is_space c then String.[] else String.◌∷◌ c String.[]
rstrip_cons c (String.◌∷◌ d s) = String.◌∷◌ c (String.◌∷◌ d s)

unfoldable pub rstrip : String → String
unfolding rstrip_cons
rstrip String.[] = String.[]
rstrip (String.◌∷◌ c s) = rstrip_cons c (rstrip s)

-- `s.strip()`
unfoldable pub strip : String → String
unfolding lstrip rstrip is_space
strip s = rstrip (lstrip s)

-- `not s`
abbrev pub is_blank : String → Bool
is_blank String.[] = true
is_blank (String.◌∷◌ c s) = false

-- `s or t`
abbrev pub or_text : String → String → String
or_text String.[] t = t
or_text (String.◌∷◌ c s) t = String.◌∷◌ c s

-- `s + t`
unfoldable pub append : String → String → String
append String.[] t = t
append (String.◌∷◌ c s) t = String.◌∷◌ c (append s t)

-- `s.startswith(t)`
unfoldable pub has_prefix : String → String → Bool
has_prefix s String.[] = true
has_prefix String.[] (String.◌∷◌ d t) = false
has_prefix (String.◌∷◌ c s) (String.◌∷◌ d t) = nat_eq (code c) (code d) && has_prefix s t

-- `t in s`
unfoldable pub occurs : String → String → Bool
unfolding has_prefix
occurs t String.[] = is_blank t
occurs t (String.◌∷◌ c s) = has_prefix (String.◌∷◌ c s) t || occurs t s

-- The code of an ASCII letter in lower case.
abbrev pub lower_code : ℕ → ℕ
lower_code n = if leb b'A' n && leb n b'Z' then n + 32 else n

-- `s.lower() == t` for a `t` of lower case ASCII letters without a k: no other character has one of
-- those as its lower case.
unfoldable pub lower_is : String → String → Bool
lower_is String.[] String.[] = true
lower_is (String.◌∷◌ c s) (String.◌∷◌ d t) = nat_eq (lower_code (code c)) (code d) && lower_is s t
lower_is _ _ = false

strip_both_ends : strip "  cmd 1\t\n" ≡ "cmd 1"
unfolding strip
strip_both_ends = refl
