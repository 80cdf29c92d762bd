-- ===== src/Hub/Tokens.antt =====
-- Tokens and identities of `BridgeHub`: `configure_tokens`, `auth` and `resolve_agent_id`.
use pdd_bridge_agent.Prelude.{
  Bool, false, not, ◌&&◌, ◌||◌, Option, none, some, List, [], ◌∷◌, String, str_eq, if◌then◌else◌,
  member,
}
use pdd_bridge_agent.Text.{strip, is_blank, or_text, lower_is, append}
use pdd_bridge_agent.Dict
use pdd_bridge_agent.Dict.{Dict}

-- The part of `BridgeHub` that identities rest on.
pub record Tokens : Type 0 where
  pub tokens : List String
  pub token_principals : Dict String
  pub legacy_tokens : List String
  pub legacy_token_principals : Dict String
  pub legacy_token_channels : Dict (Dict String)

-- One entry of the configuration: a mapping with its `token`, `agent_token`, `agent_id` and
-- `principal`, blank where missing, or a plain token.
pub data TokenEntry : Type 0 where
  mapping : String → String → String → String → TokenEntry
  plain : String → TokenEntry

pub record Configured : Type 0 where
  pub configured : List String
  pub explicit : Dict String
  pub legacy : List String

unfoldable configure_entry : Configured → TokenEntry → Configured
configure_entry c (mapping token agent_token agent_id principal) =
    let t = strip (or_text token agent_token) in
    let a = strip (or_text agent_id principal) in
    if is_blank t || is_blank a
    then c
    else record c { configured = t ∷ c.configured; explicit = Dict.put c.explicit t a }
configure_entry c (plain token) =
    let t = strip token in
    if is_blank t then c else record c { configured = t ∷ c.configured; legacy = t ∷ c.legacy }

unfoldable configure_entries : Configured → List TokenEntry → Configured
configure_entries c [] = c
configure_entries c (e ∷ es) = configure_entries (configure_entry c e) es

-- `{k: v for k, v in d.items() if k in keys}`
unfoldable restrict {ℓ} : {V : Type ℓ} → List String → Dict V → Dict V
restrict ks [] = []
restrict ks ((k, v) ∷ d) = if member k ks then (k, v) ∷ restrict ks d else restrict ks d

-- `{**d, **e}`
unfoldable merge {ℓ} : {V : Type ℓ} → Dict V → Dict V → Dict V
merge d [] = d
merge d ((k, v) ∷ e) = merge (Dict.put d k v) e

-- `configure_tokens`
unfoldable pub configure_tokens : List TokenEntry → Tokens → Tokens
unfolding configure_entries configure_entry restrict merge
configure_tokens entries h =
    let c = configure_entries (record { configured = []; explicit = []; legacy = [] }) entries in
    let learned = restrict c.legacy h.legacy_token_principals in
    record {
      tokens = c.configured;
      token_principals = merge learned c.explicit;
      legacy_tokens = c.legacy;
      legacy_token_principals = learned;
      legacy_token_channels = restrict c.legacy h.legacy_token_channels;
    }

-- `auth`
unfoldable pub auth : Tokens → String → Bool
auth h token = let t = strip token in if is_blank t then false else member t h.tokens

-- `_normalize_platform`
unfoldable pub normalize_platform : String → String
normalize_platform platform =
    let value = strip platform in
    if lower_is value "qianniu" || lower_is value "tb"
    then "taobao"
    else if lower_is value "pdd"
    then "pdd"
    else if lower_is value "taobao"
    then "taobao"
    else ""

-- Why `resolve_agent_id` raises `PermissionError`.
pub data Denied : Type 0 where
  invalid_token no_principal other_agent : Denied

pub data Resolved : Type 0 where
  ok : String → Resolved
  err : Denied → Resolved

-- `digest` is the first 16 hex digits of SHA-256.
module _ (digest : String → String) where
  -- `_legacy_principal`
  unfoldable pub legacy_principal : String → String
  unfolding append
  legacy_principal token = append "agent-" (digest token)

  -- `_legacy_channel_principal`, of a platform that is normalized already
  unfoldable pub legacy_channel_principal : String → String → String
  unfolding legacy_principal append
  legacy_channel_principal token platform =
      if is_blank platform
      then legacy_principal token
      else append platform (append "-" (digest (append token (append "\0" platform))))

  -- `_legacy_principal_platform`
  unfoldable pub legacy_principal_platform : String → String → String
  unfolding legacy_channel_principal
  legacy_principal_platform token agent_id =
      if str_eq agent_id (legacy_channel_principal token "pdd")
      then "pdd"
      else if str_eq agent_id (legacy_channel_principal token "taobao")
      then "taobao"
      else ""

  abbrev pub has_value : String → Dict String → Bool
  has_value v [] = false
  has_value v ((k, w) ∷ d) = str_eq w v || has_value v d

  abbrev pub bind_channel : String → String → String → Dict String → Tokens → Tokens
  bind_channel token platform id channels h = record h {
    legacy_token_channels = Dict.put h.legacy_token_channels token (Dict.put channels platform id);
  }

  abbrev pub bind_principal : String → Tokens → Tokens
  bind_principal token h = record h {
    legacy_token_principals = Dict.put h.legacy_token_principals token (legacy_principal token);
    token_principals = Dict.put h.token_principals token (legacy_principal token);
  }

  -- A platform that the token has no agent for: the claimed derived id, or the historical principal
  -- if no platform has it, or the derived id.
  unfoldable pub bind_new : String → String → String → Dict String → Tokens → Tokens × Resolved
  bind_new token claimed platform channels h =
      let derived = legacy_channel_principal token platform in
      let principal = legacy_principal token in
      if str_eq claimed derived
      then (bind_channel token platform derived channels h, ok derived)
      else if not (has_value principal channels)
      then (bind_principal token (bind_channel token platform principal channels h), ok principal)
      else (bind_channel token platform derived channels h, ok derived)

  abbrev pub keep_channels : String → Dict String → Tokens → Tokens
  keep_channels token channels h = record h {
    legacy_token_channels = Dict.put h.legacy_token_channels token channels;
  }

  abbrev pub resolve_bound :
      String → String → String → Dict String → Tokens → Option String → Tokens × Resolved
  resolve_bound token claimed platform channels h none = bind_new token claimed platform channels h
  resolve_bound token claimed platform channels h (some bound) =
      if is_blank bound
      then bind_new token claimed platform channels h
      else (keep_channels token channels h, ok bound)

  -- The branch of a legacy token with a platform, on its channels.
  unfoldable pub resolve_channel :
      String → String → String → Dict String → Tokens → Tokens × Resolved
  unfolding legacy_channel_principal bind_new
  resolve_channel token claimed platform channels h =
      resolve_bound token claimed platform channels h (Dict.get channels platform)

  abbrev pub explicit_principal : String → Option String → Resolved
  explicit_principal claimed none = err no_principal
  explicit_principal claimed (some principal) =
      if is_blank principal
      then err no_principal
      else if not (is_blank claimed) && not (str_eq claimed principal)
      then err other_agent
      else ok principal

  -- `resolve_agent_id` on a stripped token and claim and on the platform that they give;
  -- `setdefault` gives the token an empty table of channels if it has none.
  unfoldable pub resolve_as : String → String → String → Tokens → Tokens × Resolved
  resolve_as t c platform h =
      let channels = Dict.or_else (Dict.get h.legacy_token_channels t) [] in
      if is_blank t || not (member t h.tokens)
      then (h, err invalid_token)
      else if not (member t h.legacy_tokens)
      then (h, explicit_principal c (Dict.get h.token_principals t))
      else if is_blank platform
      then (bind_principal t (keep_channels t channels h), ok (legacy_principal t))
      else resolve_channel t c platform channels h

  -- `resolve_agent_id`
  unfoldable pub resolve_agent_id : String → String → String → Tokens → Tokens × Resolved
  unfolding resolve_as
  resolve_agent_id token claimed hint h =
      resolve_as (strip token) (strip claimed)
        (or_text (normalize_platform hint)
          (legacy_principal_platform (strip token) (strip claimed)))
        h
