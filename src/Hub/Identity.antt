-- ===== src/Hub/Identity.antt =====
-- What `resolve_agent_id` of bridge/hub_state.py promises: an explicit token is one agent, and a legacy
-- token is one agent for each platform.
use pdd_bridge_agent.Prelude.{
  true, false, Option, none, some, List, [], ◌∷◌, String, member, ◌≡◌, sym, ap, subst, ◌∙◌, ◌⊎◌,
  arith, eq_iff,
}
use pdd_bridge_agent.Text.{strip, is_blank}
use mathlib.Core.Option.{some-injective}
use pdd_bridge_agent.Dict
use pdd_bridge_agent.Dict.{Dict}
use pdd_bridge_agent.Hub.Tokens.{
  Tokens, auth, normalize_platform, invalid_token, ok, err, legacy_principal_platform, resolve_as,
  explicit_principal, resolve_agent_id,
}
use pdd_bridge_agent.Hub.Channels.{
  channel_of, Grows, Grows-refl, Answers, resolve_channel_answer, resolve_as-Grows,
  resolve_as-channel, or_text-named,
}

module _ (digest : String → String) where
  -- A resolution succeeds only for a token that `auth` accepts, and otherwise says that the token is
  -- invalid and changes nothing.
  pub resolve_needs_auth :
      (token claimed hint : String) (h : Tokens)
      → auth h token ≡ false
      → resolve_agent_id digest token claimed hint h ≡ (h, err invalid_token)
  unfolding auth resolve_agent_id
  resolve_needs_auth token claimed hint h no_auth = ground arith

  explicit_ok :
      (claimed : String) (o : Option String) (id : String)
      → explicit_principal digest claimed o ≡ ok id
      → (o ≡ some id) × ((is_blank claimed ≡ true) ⊎ (claimed ≡ id))
  explicit_ok claimed none id e = ground arith
  explicit_ok claimed (some p) id e = ground (arith, eq_iff claimed p)

  -- A token with an explicit principal resolves to that principal or is refused, whatever agent the
  -- caller claims to be, and resolving it changes nothing.
  pub explicit_is_principal :
      (token claimed hint : String) (h : Tokens)
      → member (strip token) h.legacy_tokens ≡ false
      → ((resolve_agent_id digest token claimed hint h).0 ≡ h)
        × ((id : String)
            → (resolve_agent_id digest token claimed hint h).1 ≡ ok id
            → (Dict.get h.token_principals (strip token) ≡ some id)
              × ((is_blank (strip claimed) ≡ true) ⊎ (strip claimed ≡ id)))
  unfolding resolve_agent_id
  explicit_is_principal token claimed hint h explicit =
      (ground arith, λ id e. explicit_ok (strip claimed) _ id (ground arith))

-- A call that `auth` accepts, with a legacy token and a known platform
abbrev IsLegacyCall : Tokens → String → String → Type 0
IsLegacyCall h token hint =
    (is_blank (strip token) ≡ false)
    × (member (strip token) h.tokens ≡ true)
    × (member (strip token) h.legacy_tokens ≡ true)
    × (is_blank (normalize_platform hint) ≡ false)

module _ (digest : String → String) where
  resolve_answer :
      (token claimed hint : String) (h : Tokens)
      → IsLegacyCall h token hint
      → Answers digest
          (resolve_agent_id digest token claimed hint h)
          (strip token)
          (normalize_platform hint)
  unfolding resolve_agent_id
  resolve_answer token claimed hint h l =
      let p = normalize_platform hint in
      let told =
        or_text-named digest p (legacy_principal_platform digest (strip token) (strip claimed))
          l.3 in
      subst (λ r. Answers digest r (strip token) p)
        (sym (
          ap (λ q. resolve_as digest (strip token) (strip claimed) q h) told
          ∙ resolve_as-channel digest (strip token) (strip claimed) p h l.0 l.1 l.2 l.3))
        (resolve_channel_answer digest h (strip token) (strip claimed) p l.3).1

  -- Resolutions of any callers, one after the other: the token, the claim and the platform hint.
  unfoldable pub resolve_all : List (String × String × String) → Tokens → Tokens
  resolve_all [] h = h
  resolve_all ((token, claimed, hint) ∷ rest) h =
      resolve_all rest (resolve_agent_id digest token claimed hint h).0

  resolve-Grows :
      (token claimed hint : String) (h : Tokens)
      → Grows digest h (resolve_agent_id digest token claimed hint h).0
  unfolding resolve_agent_id
  resolve-Grows token claimed hint h = resolve_as-Grows digest (strip token) (strip claimed) _ h

  Grows-trans : (a b c : Tokens) → Grows digest a b → Grows digest b c → Grows digest a c
  Grows-trans a b c g k = record {
    keeps = λ t p x e n. k.keeps t p x (g.keeps t p x e n) n;
    legacy = k.legacy ∙ g.legacy;
    tokens = k.tokens ∙ g.tokens;
  }

  resolve_all-Grows :
      (calls : List (String × String × String)) (h : Tokens) → Grows digest h (resolve_all calls h)
  unfolding resolve_all
  resolve_all-Grows [] h = Grows-refl digest h
  resolve_all-Grows ((token, claimed, hint) ∷ rest) h =
      let h' = (resolve_agent_id digest token claimed hint h).0 in
      Grows-trans h h' (resolve_all rest h') (resolve-Grows token claimed hint h)
        (resolve_all-Grows rest h')

  Grows-IsLegacyCall :
      (a b : Tokens) (token hint hint' : String)
      → Grows digest a b
      → normalize_platform hint' ≡ normalize_platform hint
      → IsLegacyCall a token hint
      → IsLegacyCall b token hint'
  Grows-IsLegacyCall a b token hint hint' g same l = (
    l.0,
    ap (member (strip token)) g.tokens ∙ l.1,
    ap (member (strip token)) g.legacy ∙ l.2,
    ap is_blank same ∙ l.3,
  )

  -- An agent keeps its identity: a legacy token that was resolved for a platform resolves to the same
  -- agent for that platform ever after, whatever it claims to be and however the hint is spelled,
  -- and whatever other resolutions, of this token and of others, came between.
  pub identity_is_stable :
      (token first again hint hint' : String) (calls : List (String × String × String)) (h : Tokens)
      → IsLegacyCall h token hint
      → normalize_platform hint' ≡ normalize_platform hint
      → (resolve_agent_id digest token again hint'
          (resolve_all calls (resolve_agent_id digest token first hint h).0)).1
        ≡ (resolve_agent_id digest token first hint h).1
  unfolding Answers
  identity_is_stable token first again hint hint' calls h l same =
      let r = resolve_agent_id digest token first hint h in
      let h' = resolve_all calls r.0 in
      let r' = resolve_agent_id digest token again hint' h' in
      let (id, answer, bound, named) = resolve_answer token first hint h l in
      let g = resolve_all-Grows calls r.0 in
      let since = Grows-trans h r.0 h' (resolve-Grows token first hint h) g in
      let (id', answer', bound', _) =
        resolve_answer token again hint' h'
          (Grows-IsLegacyCall h h' token hint hint' since same l) in
      let kept : channel_of r'.0 (strip token) (normalize_platform hint') ≡ some id =
        ap (channel_of r'.0 (strip token)) same
        ∙ (resolve-Grows token again hint' h').keeps (strip token) (normalize_platform hint) id
            (g.keeps (strip token) (normalize_platform hint) id bound named) named in
      answer' ∙ ap ok (some-injective id' id (sym bound' ∙ kept)) ∙ sym answer
