-- ===== src/Json.antt =====
-- The JSON values that the program's dicts hold, and how it reads a field of one.
pub mod Laws
use pdd_bridge_agent.Prelude.{
  ℕ, ◌+◌, Bool, true, false, not, String, str_eq, nat_eq, if◌then◌else◌, ◌≡◌, refl,
}
use pdd_bridge_agent.Text.{is_blank, or_text, strip}

-- `other` is any value that the program reads only through `str` and truth: a float or a list is
-- kept as what `str` prints and as its truth value.
mutual
  pub data Value : Type 0 where
    null : Value
    bool : Bool → Value
    num : ℕ → String → Value
    text : String → Value
    obj : Fields → Value
    other : String → Bool → Value

  pub data Fields : Type 0 where
    end : Fields
    field : String → Value → Fields → Fields

-- `d.get(k)`: a missing key reads as `None`.
unfoldable pub get : Fields → String → Value
get end k = null
get (field j v d) k = if str_eq j k then v else get d k

-- `d[k] = v`
unfoldable pub put : Fields → String → Value → Fields
put end k v = field k v end
put (field j w d) k v = if str_eq j k then field k v d else field j w (put d k v)

-- `k in d`
unfoldable pub contains : Fields → String → Bool
contains end k = false
contains (field j v d) k = if str_eq j k then true else contains d k

-- `d.setdefault(k, v)`
unfoldable pub set_default : Fields → String → Value → Fields
set_default d k v = if contains d k then d else put d k v

-- `bool(v)`
unfoldable pub truthy : Value → Bool
truthy null = false
truthy (bool b) = b
truthy (num n s) = not (nat_eq n 0)
truthy (text s) = not (is_blank s)
truthy (obj end) = false
truthy (obj (field k v d)) = true
truthy (other s b) = b

-- `str(v)`; the program takes no `str` of a dict.
unfoldable pub to_text : Value → String
to_text null = "None"
to_text (bool true) = "True"
to_text (bool false) = "False"
to_text (num n s) = s
to_text (text s) = s
to_text (obj d) = "{}"
to_text (other s b) = s

-- `str(v or "")`
unfoldable pub text_or_empty : Value → String
unfolding truthy to_text
text_or_empty v = if truthy v then to_text v else ""

-- `v or w`
unfoldable pub or_value : Value → Value → Value
unfolding truthy
or_value v w = if truthy v then v else w

-- `v is True`
unfoldable pub is_true : Value → Bool
is_true (bool b) = b
is_true _ = false

-- `v if isinstance(v, dict) else {}`
unfoldable pub dict_or_empty : Value → Fields
dict_or_empty (obj d) = d
dict_or_empty _ = end
