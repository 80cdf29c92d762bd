-- ===== src/Cdp/Indices.antt =====
-- The indices that a round of bridge/pddbridge_source.py goes through, from the cursor round to it.
use pdd_bridge_agent.Prelude.{
  ℕ, zero, suc, ◌+◌, ◌-◌, ◌%◌, ◌≤◌, ◌<◌, true, nat_eq, leb, if◌then◌else◌, ◌≡◌, inl, inr, ap, ◌∙◌,
  arith, Bool-cases, if_ind,
}
use pdd_bridge_agent.Cdp.Rounds.{next_index}

abbrev pub steps : ℕ → ℕ → ℕ → ℕ
steps count i zero = i
steps count i (suc d) = steps count (next_index count i) d

pub next-lt : (count i : ℕ) → i < count → next_index count i < count
next-lt count i h =
    if_ind (λ k. k < count) (nat_eq (suc i) count) 0 (suc i) (λ e. omega (arith, h))
      (λ e. ground (arith, h, e))

pub mod_lt : (a n : ℕ) → a % suc n < suc n
mod_lt a n = omega arith

next_up : (count i : ℕ) → suc i < count → next_index count i ≡ suc i
next_up count i h = ground (arith, h)

steps_up : (count i d : ℕ) → i + d < count → steps count i d ≡ i + d
steps_up count i zero h = omega arith
steps_up count i (suc d) h =
    ap (λ k. steps count k d) (next_up count i (omega (arith, h)))
    ∙ steps_up count (suc i) d (omega (arith, h))
    ∙ omega arith

steps_end : (count i d : ℕ) → i + suc d ≡ count → steps count i (suc d) ≡ 0
steps_end count i zero h =
    let last : nat_eq (suc i) count ≡ true = ground (arith, h) in
    ap (λ b. if b then 0 else suc i) last
steps_end count i (suc d) h =
    ap (λ k. steps count k (suc d)) (next_up count i (omega (arith, h)))
    ∙ steps_end count (suc i) d (omega (arith, h))

steps-add : (count i a b : ℕ) → steps count i (a + b) ≡ steps count (steps count i a) b
steps-add count i zero b = let e : zero + b ≡ b = omega arith in ap (steps count i) e
steps-add count i (suc a) b =
    let e : suc a + b ≡ suc (a + b) = omega arith in
    ap (steps count i) e ∙ steps-add count (next_index count i) a b

-- Every index is reached from every other in fewer turns than there are.
pub reached :
    (count i j : ℕ) → i < count → j < count → (d : ℕ) × (d < count) × (steps count i d ≡ j)
reached count i j hi hj = elim (Bool-cases (leb i j)) [
  | inl e ↦
      let le : i ≤ j = ground (arith, e) in
      (
        j - i,
        omega (arith, hj),
        steps_up count i (j - i) (omega (arith, le, hj)) ∙ omega (arith, le),
      )
  | inr e ↦
      let lt : j < i = ground (arith, e) in
      let d = count - i - 1 in
      (
        suc d + j,
        omega (arith, lt, hi),
        steps-add count i (suc d) j
            ∙ ap (λ k. steps count k j) (steps_end count i d (omega (arith, hi)))
            ∙ steps_up count 0 j (omega (arith, hj))
            ∙ omega arith,
      )
]
