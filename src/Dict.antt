-- ===== src/Dict.antt =====
-- Python's `dict` with text keys, as an association list in the order of insertion.
pub mod Laws
use pdd_bridge_agent.Prelude.{
  Bool, true, false, Option, none, some, List, [], ◌∷◌, String, str_eq, if◌then◌else◌, map,
}

abbrev pub Dict {ℓ} : Type ℓ → Type ℓ
Dict V = List (String × V)

module _ {ℓ} {V : Type ℓ} where
  -- `d.get(k)`
  unfoldable pub get : Dict V → String → Option V
  get [] k = none
  get ((j, v) ∷ d) k = if str_eq j k then some v else get d k

  -- `d[k] = v`: a key that is there keeps its place
  unfoldable pub put : Dict V → String → V → Dict V
  put [] k v = (k, v) ∷ []
  put ((j, w) ∷ d) k v = if str_eq j k then (k, v) ∷ d else (j, w) ∷ put d k v

  -- `d.pop(k, None)`
  unfoldable pub remove : Dict V → String → Dict V
  remove [] k = []
  remove ((j, v) ∷ d) k = if str_eq j k then remove d k else (j, v) ∷ remove d k

  -- `k in d`
  abbrev pub has_value : Option V → Bool
  has_value none = false
  has_value (some v) = true

  unfoldable pub contains : Dict V → String → Bool
  contains d k = has_value (get d k)

  -- `d.get(k) or v`, `d.get(k, v)`
  abbrev pub or_else : Option V → V → V
  or_else none v = v
  or_else (some w) v = w

  -- `d.setdefault(k, v)`
  unfoldable pub set_default : Dict V → String → V → Dict V
  set_default d k v = put d k (or_else (get d k) v)

  abbrev pub keys : Dict V → List String
  keys = map (λ e. e.0)
