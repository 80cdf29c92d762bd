-- ===== src/Text/Strip.antt =====
-- Stripping twice is stripping once: the lemmas on `strip` of Text.antt.
use pdd_bridge_agent.Prelude.{false, String, Char, ◌≡◌, refl, inl, inr, Bool-cases}
use pdd_bridge_agent.Text.{is_space, lstrip, rstrip, rstrip_cons, strip}

abbrev HeadOk : String → Type 0
HeadOk String.[] = Unit
HeadOk (String.◌∷◌ c s) = is_space c ≡ false

lstrip-HeadOk : (s : String) → HeadOk (lstrip s)
unfolding lstrip
lstrip-HeadOk String.[] = tt
lstrip-HeadOk (String.◌∷◌ c s) = elim (Bool-cases (is_space c)) [
  | inl e ↦ rw (e, lstrip) (lstrip-HeadOk s)
  | inr e ↦ rw (e, lstrip) e
]

lstrip_of_HeadOk : (s : String) → HeadOk s → lstrip s ≡ s
unfolding lstrip
lstrip_of_HeadOk String.[] h = refl
lstrip_of_HeadOk (String.◌∷◌ c s) h = rw (h, lstrip)

rstrip_cons-HeadOk : (c : Char) (s : String) → is_space c ≡ false → HeadOk (rstrip_cons c s)
unfolding rstrip_cons
rstrip_cons-HeadOk c String.[] h = rw h h
rstrip_cons-HeadOk c (String.◌∷◌ d s) h = h

rstrip-HeadOk : (s : String) → HeadOk s → HeadOk (rstrip s)
unfolding rstrip
rstrip-HeadOk String.[] h = tt
rstrip-HeadOk (String.◌∷◌ c s) h = rstrip_cons-HeadOk c (rstrip s) h

rstrip-rstrip_cons :
    (c : Char) (t : String) → rstrip t ≡ t → rstrip (rstrip_cons c t) ≡ rstrip_cons c t
unfolding rstrip rstrip_cons
rstrip-rstrip_cons c String.[] h = elim (Bool-cases (is_space c)) [
  | inl e ↦ rw e
  | inr e ↦ rw (e, rstrip) (rw e)
]
rstrip-rstrip_cons c (String.◌∷◌ d s) h = rw h

rstrip-rstrip : (s : String) → rstrip (rstrip s) ≡ rstrip s
unfolding rstrip
rstrip-rstrip String.[] = refl
rstrip-rstrip (String.◌∷◌ c s) = rstrip-rstrip_cons c (rstrip s) (rstrip-rstrip s)

pub strip-strip : (s : String) → strip (strip s) ≡ strip s
unfolding strip
strip-strip s =
    rw (lstrip_of_HeadOk (rstrip (lstrip s)) (rstrip-HeadOk (lstrip s) (lstrip-HeadOk s)))
      (rstrip-rstrip (lstrip s))
