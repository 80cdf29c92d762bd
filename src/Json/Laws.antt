-- ===== src/Json/Laws.antt =====
-- The laws of `get` after `put` and `set_default` on JSON objects.
use pdd_bridge_agent.Prelude.{
  String, str_eq, if◌then◌else◌, ◌≡◌, ◌≢◌, refl, arith, eq_iff, eq_refl, str_eq-false,
}
use pdd_bridge_agent.Json.{Value, Fields, end, field, get, put, set_default}

pub get-put :
    (d : Fields) (k j : String) (v : Value)
    → get (put d k v) j ≡ (if str_eq k j then v else get d j)
unfolding get put
get-put end k j v = refl
get-put (field i w d) k j v = ground (arith, eq_iff k j, eq_iff i k, eq_iff i j, get-put d k j v)

pub get-put_ne : (d : Fields) (k j : String) (v : Value) → k ≢ j → get (put d k v) j ≡ get d j
get-put_ne d k j v h = rw (get-put, str_eq-false k j h)

pub get-put_self : (d : Fields) (k : String) (v : Value) → get (put d k v) k ≡ v
get-put_self d k v = simp (get-put, eq_refl)

pub get-set_default_ne :
    (d : Fields) (k j : String) (v : Value) → k ≢ j → get (set_default d k v) j ≡ get d j
unfolding set_default
get-set_default_ne d k j v h = ground (arith, get-put_ne d k j v h)
