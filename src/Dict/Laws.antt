-- ===== src/Dict/Laws.antt =====
-- The laws of `get` after each operation, and the keys that stay.
use pdd_bridge_agent.Prelude.{
  none, some, [], ◌∷◌, String, str_eq, if◌then◌else◌, ◌≡◌, ◌≢◌, refl, arith, eq_iff, eq_refl,
  str_eq-false,
}
use pdd_bridge_agent.Dict.{Dict, get, put, remove}

module _ {ℓ} {V : Type ℓ} where
  pub get-put :
      (d : Dict V) (k j : String) (v : V)
      → get (put d k v) j ≡ (if str_eq k j then some v else get d j)
  unfolding get put
  get-put [] k j v = refl
  get-put ((i, w) ∷ d) k j v = ground (arith, eq_iff k j, eq_iff i k, eq_iff i j, get-put d k j v)

  pub get-remove :
      (d : Dict V) (k j : String) → get (remove d k) j ≡ (if str_eq k j then none else get d j)
  unfolding get remove
  get-remove [] k j = ground arith
  get-remove ((i, w) ∷ d) k j = ground (arith, eq_iff k j, eq_iff i k, eq_iff i j, get-remove d k j)

  pub get-put_self : (d : Dict V) (k : String) (v : V) → get (put d k v) k ≡ some v
  get-put_self d k v = simp (get-put, eq_refl)

  pub get-put_ne : (d : Dict V) (k j : String) (v : V) → k ≢ j → get (put d k v) j ≡ get d j
  get-put_ne d k j v h = rw (get-put, str_eq-false k j h)

  pub get-remove_self : (d : Dict V) (k : String) → get (remove d k) k ≡ none
  get-remove_self d k = simp (get-remove, eq_refl)

  get-remove_ne : (d : Dict V) (k j : String) → k ≢ j → get (remove d k) j ≡ get d j
  get-remove_ne d k j h = rw (get-remove, str_eq-false k j h)

  -- `put` of what is there changes nothing.
  pub put_same : (d : Dict V) (k : String) (v : V) → get d k ≡ some v → put d k v ≡ d
  unfolding get put
  put_same [] k v h = cc
  put_same ((i, w) ∷ d) k v h = ground (arith, eq_iff i k, put_same d k v)

  -- `put` after `put` of the same key is the last one.
  pub put-put : (d : Dict V) (k : String) (v w : V) → put (put d k v) k w ≡ put d k w
  unfolding put
  put-put [] k v w = simp eq_refl
  put-put ((i, u) ∷ d) k v w = ground (arith, eq_iff i k, eq_iff k k, put-put d k v w)

  -- A key that was not there is removed without a trace.
  pub remove-put : (d : Dict V) (k : String) (v : V) → get d k ≡ none → remove (put d k v) k ≡ d
  unfolding get put remove
  remove-put [] k v h = simp eq_refl
  remove-put ((i, u) ∷ d) k v h = ground (arith, eq_iff i k, remove-put d k v)

ruleset dict_laws = (get-put, get-remove)
