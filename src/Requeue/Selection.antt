-- ===== src/Requeue/Selection.antt =====
-- What `select_rows` of requeue.py picks.
use pdd_bridge_agent.Prelude.{
  ℕ, zero, suc, Bool, true, false, not, ◌&&◌, ◌||◌, List, [], ◌∷◌, String, str_eq, member, take,
  map, nat_eq, ◌≡◌, arith, Bool-cases, inl, inr,
}
use pdd_bridge_agent.Text.{is_blank}
use pdd_bridge_agent.Requeue.{Dead, pick_rows, select_rows}

abbrev pub ids : List Dead → List String
ids = map (λ r. r.event_id)

-- No id stands twice, and none is among the given ones.
abbrev pub Fresh : List String → List Dead → Type 0
Fresh seen [] = Unit
Fresh seen (row ∷ rows) = (member row.event_id seen ≡ false) × Fresh (row.event_id ∷ seen) rows

-- The row is of the reason that was asked for, and no diagnostic unless these were asked for.
abbrev wanted : String → Bool → Dead → Bool
wanted reason diagnostics row =
    (is_blank reason || str_eq row.refused_reason reason)
    && (diagnostics || not (row.is_diagnostic || str_eq row.refused_reason "unsupported_role"))

abbrev pub Wanted : String → Bool → List Dead → Type 0
Wanted reason diagnostics [] = Unit
Wanted reason diagnostics (row ∷ rows) =
    (wanted reason diagnostics row ≡ true) × Wanted reason diagnostics rows

pick_rows-good :
    (reason : String) (diagnostics : Bool) (seen : List String) (rows : List Dead)
    → Fresh seen (pick_rows reason diagnostics seen rows)
      × Wanted reason diagnostics (pick_rows reason diagnostics seen rows)
unfolding pick_rows
pick_rows-good reason diagnostics seen [] = (tt, tt)
pick_rows-good reason diagnostics seen (row ∷ rows) = ground (
  arith,
  pick_rows-good reason diagnostics seen rows,
  pick_rows-good reason diagnostics (row.event_id ∷ seen) rows,
)

Fresh-take :
    (n : ℕ) (seen : List String) (rows : List Dead) → Fresh seen rows → Fresh seen (take n rows)
Fresh-take zero seen rows f = tt
Fresh-take (suc n) seen [] f = tt
Fresh-take (suc n) seen (row ∷ rows) f = (f.0, Fresh-take n (row.event_id ∷ seen) rows f.1)

Wanted-take :
    (n : ℕ) (reason : String) (diagnostics : Bool) (rows : List Dead)
    → Wanted reason diagnostics rows
    → Wanted reason diagnostics (take n rows)
Wanted-take zero reason diagnostics rows w = tt
Wanted-take (suc n) reason diagnostics [] w = tt
Wanted-take (suc n) reason diagnostics (row ∷ rows) w =
    (w.0, Wanted-take n reason diagnostics rows w.1)

-- The selection sends no event twice, whatever is in the file, and only rows of the reason that was
-- asked for, diagnostics only where they were asked for.
pub selection_sound :
    (reason : String) (diagnostics : Bool) (limit : ℕ) (rows : List Dead)
    → Fresh [] (select_rows reason diagnostics limit rows)
      × Wanted reason diagnostics (select_rows reason diagnostics limit rows)
unfolding select_rows
selection_sound reason diagnostics limit rows =
    let (f, w) = pick_rows-good reason diagnostics [] rows in
    let picked = pick_rows reason diagnostics [] rows in
    elim (Bool-cases (nat_eq limit 0)) [
      | inl all ↦ rw all (f, w)
      | inr cut ↦
          rw cut (Fresh-take limit [] picked f, Wanted-take limit reason diagnostics picked w)
    ]
