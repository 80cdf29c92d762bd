-- ===== src/Cdp/Pages.antt =====
-- Which page bridge/pddbridge_source.py sends through.
use pdd_bridge_agent.Prelude.{
  Bool, true, false, not, Option, none, some, List, [], ◌∷◌, ◌||◌, String, if◌then◌else◌, some_of,
  ◌≡◌, ◌⊎◌, inl, inr, refl, sym, ap, ◌∙◌, eq_iff, Bool-cases, and_true, not-true,
}
use mathlib.Core.Option.{some-injective, none-ne-some}
use pdd_bridge_agent.Text.{is_blank}
use pdd_bridge_agent.Cdp.{
  Session, session_for_send, find, has_mall, has_account, target_mall, only, or_find,
}

-- What is found has the property.
find-some : (p : Session → Bool) (ss : List Session) (x : Session) → find p ss ≡ some x → p x ≡ true
find-some p [] x e = absurd (none-ne-some x e)
find-some p (s ∷ ss) x e = elim (Bool-cases (p s)) [
  | inl good ↦
      let same = some-injective s x (sym (ap (λ b. if b then some s else find p ss) good) ∙ e) in
      ap p (sym same) ∙ good
  | inr bad ↦ find-some p ss x (sym (ap (λ b. if b then some s else find p ss) bad) ∙ e)
]

find-none : (p : Session → Bool) (ss : List Session) → find p ss ≡ none → some_of p ss ≡ false
find-none p [] e = refl
find-none p (s ∷ ss) e = elim (Bool-cases (p s)) [
  | inl good ↦ absurd (none-ne-some s (sym e ∙ ap (λ b. if b then some s else find p ss) good))
  | inr bad ↦
      ap (λ b. b || some_of p ss) bad
      ∙ find-none p ss (sym (ap (λ b. if b then some s else find p ss) bad) ∙ e)
]

only-some : (ss : List Session) (x : Session) → only ss ≡ some x → ss ≡ x ∷ []
only-some [] x e = absurd (none-ne-some x e)
only-some (s ∷ []) x e = ap (λ y. y ∷ []) (some-injective s x e)
only-some (s ∷ t ∷ ss) x e = absurd (none-ne-some x e)

mall_of :
    (target : String) (y : Session)
    → has_mall target y ≡ true
    → (y.mall_id ≡ target) × (is_blank y.mall_id ≡ false)
mall_of target y h =
    let (t, m) = and_true (not (is_blank target)) _ h in
    let (b, q) = and_true (not (is_blank y.mall_id)) _ m in
    ((eq_iff y.mall_id target).0 q, not-true (is_blank y.mall_id) b)

account_of :
    (account : String) (y : Session)
    → has_account account y ≡ true
    → (y.account ≡ account) × (is_blank account ≡ false)
account_of account y h =
    let (t, m) = and_true (not (is_blank account)) _ h in
    let (b, q) = and_true (not (is_blank y.account)) _ m in
    ((eq_iff y.account account).0 q, not-true (is_blank account) t)

-- The page is of the target's shop, or no page is and the page has the account itself, or the account names no
-- shop and there is just this page.
abbrev pub IsRight : String → List Session → Session → Type 0
IsRight account sessions x =
    ((x.mall_id ≡ target_mall account) × (is_blank x.mall_id ≡ false))
    ⊎ ((some_of (has_mall (target_mall account)) sessions ≡ false)
        × (x.account ≡ account)
        × (is_blank account ≡ false))
    ⊎ ((is_blank (target_mall account) ≡ true) × (sessions ≡ x ∷ []))

-- The page that is chosen for an account shows the shop that the account names; only if no page shows it, the
-- account itself decides, and only if the account names no shop and has no page either, the one page that there is.
pub chosen-IsRight :
    (account : String) (sessions : List Session) (x : Session)
    → session_for_send account sessions ≡ some x
    → IsRight account sessions x
unfolding session_for_send
chosen-IsRight account sessions x e = first (find (has_mall (target_mall account)) sessions) refl e
  where
    fallback : Option Session
    fallback = if is_blank (target_mall account) then only sessions else none

    by_mall :
        (y : Session)
        → find (has_mall (target_mall account)) sessions ≡ some y
        → IsRight account sessions y
    by_mall y f =
        inl (
          mall_of (target_mall account) y (find-some (has_mall (target_mall account)) sessions y f))

    by_account :
        (y : Session)
        → find (has_mall (target_mall account)) sessions ≡ none
        → find (has_account account) sessions ≡ some y
        → IsRight account sessions y
    by_account y n f =
        let (a, b) = account_of account y (find-some (has_account account) sessions y f) in
        inr (inl (find-none (has_mall (target_mall account)) sessions n, a, b))

    last : fallback ≡ some x → IsRight account sessions x
    last f = elim (Bool-cases (is_blank (target_mall account))) [
      | inl blank ↦ inr (
          inr (
            blank,
            only-some sessions x (sym (ap (λ b. if b then only sessions else none) blank) ∙ f),
          ))
      | inr full ↦
          absurd (none-ne-some x (sym (ap (λ b. if b then only sessions else none) full) ∙ f))
    ]

    second :
        (o : Option Session)
        → find (has_account account) sessions ≡ o
        → find (has_mall (target_mall account)) sessions ≡ none
        → or_find o fallback ≡ some x
        → IsRight account sessions x
    second none f n g = last g
    second (some y) f n g = by_account x n (f ∙ g)

    first :
        (o : Option Session)
        → find (has_mall (target_mall account)) sessions ≡ o
        → or_find o (or_find (find (has_account account) sessions) fallback) ≡ some x
        → IsRight account sessions x
    first none f g = second (find (has_account account) sessions) refl f g
    first (some y) f g = by_mall x (f ∙ g)
