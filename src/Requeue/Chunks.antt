-- ===== src/Requeue/Chunks.antt =====
-- The chunks of `requeue` of requeue.py are all of the rows, in their order: the fuel is enough.
use pdd_bridge_agent.Prelude.{
  ℕ, zero, suc, ◌≤◌, List, [], ◌∷◌, ◌++◌, length, take, drop, ◌≡◌, refl, ap, ◌∙◌, arith,
}
use pdd_bridge_agent.Requeue.{Dead, chunks}

abbrev concat : List (List Dead) → List Dead
concat [] = []
concat (c ∷ cs) = c ++ concat cs

take-drop : (n : ℕ) (rows : List Dead) → take n rows ++ drop n rows ≡ rows
take-drop zero rows = refl
take-drop (suc n) [] = refl
take-drop (suc n) (row ∷ rows) = ap (λ (r : List Dead). row ∷ r) (take-drop n rows)

length-drop : (n : ℕ) (rows : List Dead) → length (drop n rows) ≤ length rows
length-drop zero rows = omega arith
length-drop (suc n) [] = omega arith
length-drop (suc n) (row ∷ rows) = omega (arith, length-drop n rows)

-- With as much fuel as there are rows, or more, no row is left out and none is sent twice.
concat-chunks :
    (fuel : ℕ) (rows : List Dead) → length rows ≤ fuel → concat (chunks fuel rows) ≡ rows
unfolding chunks
concat-chunks zero [] h = refl
concat-chunks zero (row ∷ rows) h = absurd (omega (arith, h))
concat-chunks (suc fuel) [] h = refl
concat-chunks (suc fuel) (row ∷ rows) h =
    let rest = drop 99 rows in
    ap (λ (r : List Dead). row ∷ (take 99 rows ++ r))
      (concat-chunks fuel rest (omega (arith, h, length-drop 99 rows)))
    ∙ ap (λ (r : List Dead). row ∷ r) (take-drop 99 rows)
