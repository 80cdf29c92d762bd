-- ===== src/Hub/Channels.antt =====
-- What one call of `resolve_agent_id` of bridge/hub_state.py does to the agents that the legacy tokens
-- have on their platforms.
use pdd_bridge_agent.Prelude.{
  Bool, true, false, not, ◌&&◌, ◌||◌, Option, none, some, [], String, str_eq, if◌then◌else◌, member,
  ◌≡◌, refl, sym, ap, ◌∙◌, inl, inr, arith, eq_iff, eq_refl, Bool-cases, if_ind, false≢true,
}
use pdd_bridge_agent.Text.{is_blank, or_text, append}
use mathlib.Core.Option.{some-injective}
use pdd_bridge_agent.Dict
use pdd_bridge_agent.Dict.{Dict}
use pdd_bridge_agent.Dict.Laws
use pdd_bridge_agent.Hub.Tokens.{
  Tokens, invalid_token, Resolved, ok, err, legacy_principal, legacy_channel_principal,
  bind_channel, bind_principal, keep_channels, resolve_as, bind_new, resolve_bound, resolve_channel,
  explicit_principal,
}

-- The agent that a token has on a platform
abbrev pub channel_of : Tokens → String → String → Option String
channel_of h token platform =
    Dict.get (Dict.or_else (Dict.get h.legacy_token_channels token) []) platform

module _ (digest : String → String) where
  -- What one resolution may do to the channels of every token.
  pub record Grows (h h' : Tokens) : Type 0 where
    pub keeps :
        (t p x : String)
        → channel_of h t p ≡ some x
        → is_blank x ≡ false
        → channel_of h' t p ≡ some x
    pub legacy : h'.legacy_tokens ≡ h.legacy_tokens
    pub tokens : h'.tokens ≡ h.tokens

  pub Grows-refl : (h : Tokens) → Grows h h
  Grows-refl h = record { keeps = λ t p x e b. e; legacy = refl; tokens = refl }

  channel_of-put :
      (h : Tokens) (t s p : String) (c : Dict String)
      → channel_of (record h { legacy_token_channels = Dict.put h.legacy_token_channels t c }) s p
        ≡ (if str_eq t s then Dict.get c p else channel_of h s p)
  channel_of-put h t s p c = elim (Bool-cases (str_eq t s)) [
    | inl same ↦ rw (Laws.get-put h.legacy_token_channels t s c, same) refl
    | inr other ↦ rw (Laws.get-put h.legacy_token_channels t s c, other) refl
  ]

  abbrev bound : Tokens → String → String → String → Tokens
  bound h t p id =
      bind_channel digest t p id (Dict.or_else (Dict.get h.legacy_token_channels t) []) h

  channel_of-bound :
      (h : Tokens) (t p id s q : String)
      → channel_of (bound h t p id) s q
        ≡ (if str_eq t s && str_eq p q then some id else channel_of h s q)
  channel_of-bound h t p id s q =
      channel_of-put h t s q (Dict.put (Dict.or_else (Dict.get h.legacy_token_channels t) []) p id)
      ∙ elim (Bool-cases (str_eq t s)) [
        | inl same ↦
            rw (same, Laws.get-put (Dict.or_else (Dict.get h.legacy_token_channels t) []) p q id)
              (ap (λ k. if str_eq p q then some id else channel_of h k q) ((eq_iff t s).0 same))
        | inr other ↦ rw other
      ]

  -- Binding a platform that had no agent keeps every other.
  bind-Grows :
      (h : Tokens) (t p id : String)
      → ((x : String) → channel_of h t p ≡ some x → is_blank x ≡ true)
      → Grows h (bound h t p id)
  bind-Grows h t p id free = record {
    keeps = λ s q x e b.
        channel_of-bound h t p id s q ∙ elim (Bool-cases (str_eq t s && str_eq p q)) [
          | inl here ↦ absurd (false≢true (sym b ∙ free x (moved h t s p q x here e)))
          | inr there ↦ rw there e
        ];
    legacy = refl;
    tokens = refl;
  }
    where
      moved :
          (h : Tokens) (t s p q x : String)
          → (str_eq t s && str_eq p q) ≡ true
          → channel_of h s q ≡ some x
          → channel_of h t p ≡ some x
      moved h t s p q x here e =
          ap (λ k. channel_of h k p) ((eq_iff t s).0 (ground arith))
          ∙ ap (λ k. channel_of h s k) ((eq_iff p q).0 (ground arith))
          ∙ e

  -- `setdefault` changes nothing that can be seen.
  touch-Grows :
      (h : Tokens) (t : String)
      → Grows h (record h {
        legacy_token_channels =
            Dict.put h.legacy_token_channels t
              (Dict.or_else (Dict.get h.legacy_token_channels t) []);
      })
  touch-Grows h t = record {
    keeps = λ s q x e b.
        channel_of-put h t s q (Dict.or_else (Dict.get h.legacy_token_channels t) [])
        ∙ elim (Bool-cases (str_eq t s)) [
          | inl same ↦ rw (same, (eq_iff t s).0 same) e
          | inr other ↦ rw other e
        ];
    legacy = refl;
    tokens = refl;
  }

  -- The answer of a resolution for a platform: the agent that the token now has there.
  unfoldable pub Answers : Tokens × Resolved → String → String → Type 0
  Answers r t p =
      (id : String) × (r.1 ≡ ok id) × (channel_of r.0 t p ≡ some id) × (is_blank id ≡ false)

  fresh_answer :
      (h : Tokens) (t p id : String)
      → ((x : String) → channel_of h t p ≡ some x → is_blank x ≡ true)
      → is_blank id ≡ false
      → Grows h (bound h t p id) × Answers (bound h t p id, ok id) t p
  unfolding Answers
  fresh_answer h t p id free named =
      (bind-Grows h t p id free, (id, refl, channel_of-bound h t p id t p ∙ simp (eq_refl), named))

  is_blank-append : (s t : String) → is_blank s ≡ false → is_blank (append s t) ≡ false
  unfolding append
  is_blank-append String.[] t h = absurd (false≢true (sym h))
  is_blank-append (String.◌∷◌ c s) t h = refl

  derived-named :
      (t p : String) → is_blank p ≡ false → is_blank (legacy_channel_principal digest t p) ≡ false
  unfolding legacy_channel_principal
  derived-named t p h = rw h (is_blank-append p _ h)

  principal-named : (t : String) → is_blank (legacy_principal digest t) ≡ false
  unfolding legacy_principal
  principal-named t = refl

  abbrev Good : Tokens → String → String → Tokens × Resolved → Type 0
  Good h t p r = Grows h r.0 × Answers r t p

  Good-if :
      (h : Tokens) (t p : String) (b : Bool) (x y : Tokens × Resolved)
      → Good h t p x
      → Good h t p y
      → Good h t p (if b then x else y)
  Good-if h t p true x y gx gy = gx
  Good-if h t p false x y gx gy = gy

  abbrev table : Tokens → String → Dict String
  table h t = Dict.or_else (Dict.get h.legacy_token_channels t) []

  bind_new_answer :
      (h : Tokens) (t c p : String)
      → is_blank p ≡ false
      → ((x : String) → channel_of h t p ≡ some x → is_blank x ≡ true)
      → Good h t p (bind_new digest t c p (table h t) h)
  unfolding bind_new Answers
  bind_new_answer h t c p named free =
      let derived =
        fresh_answer h t p (legacy_channel_principal digest t p) free (derived-named t p named) in
      let (g, a) = fresh_answer h t p (legacy_principal digest t) free (principal-named t) in
      let principal : Good h t p (
        bind_principal digest t (bound h t p (legacy_principal digest t)),
        ok (legacy_principal digest t),
      ) =
        (record { keeps = g.keeps; legacy = refl; tokens = refl }, a) in
      Good-if h t p _ _ _ derived (Good-if h t p _ _ _ principal derived)

  resolve_bound_answer :
      (h : Tokens) (t c p : String) (o : Option String)
      → is_blank p ≡ false
      → channel_of h t p ≡ o
      → Good h t p (resolve_bound digest t c p (table h t) h o)
  unfolding Answers
  resolve_bound_answer h t c p none named e = bind_new_answer h t c p named (λ x f. cc)
  resolve_bound_answer h t c p (some x) named e = elim (Bool-cases (is_blank x)) [
    | inl blank ↦ rw blank (
        bind_new_answer h t c p named (λ y f. ap is_blank (some-injective _ _ (sym f ∙ e)) ∙ blank))
    | inr there ↦ let g = touch-Grows h t in rw there (g, (x, refl, g.keeps t p x e there, there))
  ]

  pub resolve_channel_answer :
      (h : Tokens) (t c p : String)
      → is_blank p ≡ false
      → Good h t p (resolve_channel digest t c p (table h t) h)
  unfolding resolve_channel
  resolve_channel_answer h t c p named = resolve_bound_answer h t c p _ named refl

  -- No resolution takes a platform's agent away.
  pub resolve_as-Grows : (t c p : String) (h : Tokens) → Grows h (resolve_as digest t c p h).0
  unfolding resolve_as
  resolve_as-Grows t c p h =
      let P : Tokens × Resolved → Type 0 = λ r. Grows h r.0 in
      let denied : Tokens × Resolved =
        (h, explicit_principal digest c (Dict.get h.token_principals t)) in
      let untold : Tokens × Resolved = (
        bind_principal digest t (keep_channels digest t (table h t) h),
        ok (legacy_principal digest t),
      ) in
      let told = resolve_channel digest t c p (table h t) h in
      let by_platform = if is_blank p then untold else told in
      let known = if not (member t h.legacy_tokens) then denied else by_platform in
      if_ind P (is_blank t || not (member t h.tokens)) (h, err invalid_token) known
        (λ _. Grows-refl h)
        (λ _.
          if_ind P (not (member t h.legacy_tokens)) denied by_platform (λ _. Grows-refl h)
            (λ _.
              if_ind P (is_blank p) untold told
                (λ _.
                  (let g = touch-Grows h t in
                    record { keeps = g.keeps; legacy = refl; tokens = refl }))
                (λ named. (resolve_channel_answer h t c p named).0)))

  pub resolve_as-channel :
      (t c p : String) (h : Tokens)
      → is_blank t ≡ false
      → member t h.tokens ≡ true
      → member t h.legacy_tokens ≡ true
      → is_blank p ≡ false
      → resolve_as digest t c p h ≡ resolve_channel digest t c p (table h t) h
  unfolding resolve_as
  resolve_as-channel t c p h a b l n = rw (a, b, l, n)

  pub or_text-named : (s t : String) → is_blank s ≡ false → or_text s t ≡ s
  or_text-named String.[] t h = absurd (false≢true (sym h))
  or_text-named (String.◌∷◌ c s) t h = refl
