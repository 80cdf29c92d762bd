-- ===== src/Center/Frames.antt =====
-- The frames of bridge/center_ws.py: `build_event_frame`, and the address.
use mathlib.Core.Option.{some-injective, none-ne-some}
use pdd_bridge_agent.Prelude.{
  ℕ, Bool, true, false, ◌||◌, Option, none, some, String, str_eq, if◌then◌else◌, ◌≡◌, inl, inr,
  refl, sym, ap, subst, ◌∙◌, arith, eq_iff, eq_refl, Bool-cases, Option-cases, if_ind, false≢true,
  or_true, or_left, or_right,
}
use pdd_bridge_agent.Text.{is_blank, append, has_prefix, strip}
use pdd_bridge_agent.Json.{Value, Fields, end, field, null}
use pdd_bridge_agent.Json
use pdd_bridge_agent.Center.{
  Frame, Numbers, in_payload, payload_of, captured_ms, build_event_frame, framed,
}
use pdd_bridge_agent.Center.Link.{
  ws_url_from_server_url, websocket_base, with_path, without_slashes, with_slash, behind,
}

payload-get :
    (e : Fields) (k : String)
    → Json.get (payload_of e) k ≡ (if in_payload k then Json.get e k else null)
unfolding payload_of Json.get
payload-get end k =
    if_ind (λ (v : Value). null ≡ v) (in_payload k) null null (λ h. refl) (λ h. refl)
payload-get (field j v d) k = elim (Bool-cases (str_eq j k)) [
  | inl same ↦
      subst
        (λ (i : String).
          Json.get (if in_payload i then field i v (payload_of d) else payload_of d) k
          ≡ (if in_payload k then (if str_eq i k then v else Json.get d k) else null))
        (sym ((eq_iff j k).0 same)) (own (in_payload k) (payload-get d k))
  | inr other ↦ rw other (skip (in_payload j) other ∙ payload-get d k)
]
  where
    own :
        (b : Bool)
        → Json.get (payload_of d) k ≡ (if b then Json.get d k else null)
        → Json.get (if b then field k v (payload_of d) else payload_of d) k
          ≡ (if b then (if str_eq k k then v else Json.get d k) else null)
    own true e = rw (eq_refl k) refl
    own false e = e

    skip :
        (b : Bool)
        → str_eq j k ≡ false
        → Json.get (if b then field j v (payload_of d) else payload_of d) k
          ≡ Json.get (payload_of d) k
    skip true e = rw e refl
    skip false e = refl

-- The payload of a frame has every field of the event that the frame has no field of its own for, other than
-- the two that are never sent, with its value, and no other.
pub frame_keeps :
    (n : Numbers) (e : Fields) (sequence : ℕ) (f : Frame) (k : String)
    → build_event_frame n e sequence ≡ some f
    → Json.get f.payload k ≡ (if in_payload k then Json.get e k else null)
unfolding build_event_frame
frame_keeps n e sequence f k h = elim (Option-cases (captured_ms n e)) [
  | inl raised ↦ absurd (none-ne-some f (sym (ap made raised) ∙ h))
  | inr (ms, read) ↦
      let same = some-injective (framed e sequence ms) f (sym (ap made read) ∙ h) in
      subst (λ (x : Frame). Json.get x.payload k ≡ (if in_payload k then Json.get e k else null))
        same (payload-get e k)
]
  where
    made : Option ℕ → Option Frame
    made o = elim o [ none ↦ none | some ms ↦ some (framed e sequence ms) ]

-- A text followed by another starts with whatever it starts with.
has_prefix-append : (s t p : String) → has_prefix s p ≡ true → has_prefix (append s t) p ≡ true
unfolding has_prefix append
has_prefix-append String.[] t String.[] h = refl
has_prefix-append String.[] t (String.◌∷◌ d p) h = absurd (false≢true h)
has_prefix-append (String.◌∷◌ c s) t String.[] h = refl
has_prefix-append (String.◌∷◌ c s) t (String.◌∷◌ d p) h = ground (arith, has_prefix-append s t p)

has_prefix_self : (p t : String) → has_prefix (append p t) p ≡ true
unfolding has_prefix append
has_prefix_self String.[] t = refl
has_prefix_self (String.◌∷◌ d p) t = ground (arith, has_prefix_self p t)

abbrev IsWebSocket : String → Type 0
IsWebSocket u = (has_prefix u "ws://" || has_prefix u "wss://") ≡ true

-- What a base address that was found promises of the one that it was made of
abbrev Promise : String → Option String → Type 0
Promise base none = Unit
Promise base (some r) =
    IsWebSocket r × (has_prefix base "https://" ≡ true → has_prefix r "wss://" ≡ true)

base-Promise : (base : String) → Promise base (websocket_base base)
base-Promise base =
    if_ind (Promise base) (is_blank base) _ _ (λ e. tt)
      (λ e.
        if_ind (Promise base) (has_prefix base "https://") _ _ (λ secure. wss)
          (λ plain.
            if_ind (Promise base) (has_prefix base "http://") _ _ (λ e. ws plain)
              (λ e.
                if_ind (Promise base) (has_prefix base "ws://" || has_prefix base "wss://") _ _
                  (λ e. (e, λ secure. absurd (false≢true (sym plain ∙ secure)))) (λ e. tt))))
  where
    wss : Promise base (some (append "wss://" (behind base "https://")))
    wss =
        let p = has_prefix_self "wss://" (behind base "https://") in
        (or_right (has_prefix (append "wss://" (behind base "https://")) "ws://") _ p, λ e. p)

    ws :
        has_prefix base "https://" ≡ false
        → Promise base (some (append "ws://" (behind base "http://")))
    ws plain = (
      or_left _ _ (has_prefix_self "ws://" (behind base "http://")),
      λ secure. absurd (false≢true (sym plain ∙ secure)),
    )

append-IsWebSocket : (r t : String) → IsWebSocket r → IsWebSocket (append r t)
append-IsWebSocket r t h = elim (or_true (has_prefix r "ws://") _ h) [
  | inl ws ↦ or_left (has_prefix (append r t) "ws://") _ (has_prefix-append r t "ws://" ws)
  | inr wss ↦ or_right (has_prefix (append r t) "ws://") _ (has_prefix-append r t "wss://" wss)
]

path-Promise :
    (base path : String) (o : Option String) → Promise base o → Promise base (with_path path o)
path-Promise base path none p = tt
path-Promise base path (some r) p = (
  append-IsWebSocket r (with_slash path) p.0,
  λ secure. has_prefix-append r (with_slash path) "wss://" (p.1 secure),
)

-- An address that is made starts with `ws://` or `wss://`, and with `wss://` if the server's address is
-- a secure one.
pub ws_url_scheme :
    (server path url : String)
    → ws_url_from_server_url server path ≡ some url
    → ((has_prefix url "ws://" || has_prefix url "wss://") ≡ true)
      × (has_prefix (without_slashes (strip server)) "https://" ≡ true
          → has_prefix url "wss://" ≡ true)
unfolding ws_url_from_server_url
ws_url_scheme server path url h =
    let base = without_slashes (strip server) in
    subst (Promise base) h (path-Promise base path (websocket_base base) (base-Promise base))
