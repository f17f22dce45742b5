-- ===== src/Value.antt =====
-- Python values as the program passes them: what `response.json()` and pydantic hand over, and
-- what a row holds in a column. A dict is its entries in order.
pub mod Int
pub mod Laws
pub mod Text
use paquitobot_rag.Prelude.{
  ℕ, String, Bool, true, false, Option, none, some, not, ◌&&◌, if◌then◌else◌, str_eq, List, [], ◌∷◌,
}
use paquitobot_rag.Value.Int.{ℤ, pos}

mutual
  pub data Value : Type 0 where
    -- Python's `None`
    null : Value
    bool : Bool → Value
    int : ℤ → Value
    -- a finite float: the integer that `int()` makes of it, and the rest of it
    float : ℤ → ℕ → Value
    str : String → Value
    -- a `datetime`, in microseconds UTC, and a `uuid.UUID`
    time : ℕ → Value
    uuid : ℕ → Value
    list : Items → Value
    dict : Fields → Value

  pub data Fields : Type 0 where
    end : Fields
    field : String → Value → Fields → Fields

  pub data Items : Type 0 where
    nil : Items
    cons : Value → Items → Items

-- `d.get(k)`: a key that is missing and a key that holds `None` read alike.
unfoldable pub get : String → Fields → Value
get k end = null
get k (field j v d) = if str_eq j k then v else get k d

-- `k in d`
unfoldable pub has_key : String → Fields → Bool
has_key k end = false
has_key k (field j v d) = if str_eq j k then true else has_key k d

-- `d.pop(k, None)`, for its effect
unfoldable pub pop : String → Fields → Fields
pop k end = end
pop k (field j v d) = let rest = pop k d in if str_eq j k then rest else field j v rest

-- `d[k] = v`
unfoldable pub put : String → Value → Fields → Fields
put k v end = field k v end
put k v (field j w d) = if str_eq j k then field j v d else field j w (put k v d)

-- `{k: v for k, v in d.items() if keep(k, v)}`
unfoldable pub keep : (String → Value → Bool) → Fields → Fields
keep p end = end
keep p (field k v d) = let rest = keep p d in if p k v then field k v rest else rest

-- `{k: f(v) for k, v in d.items()}`
unfoldable pub map_values : (Value → Value) → Fields → Fields
map_values f end = end
map_values f (field k v d) = field k (f v) (map_values f d)

-- `d.update(e)`
unfoldable pub update : Fields → Fields → Fields
update d end = d
update d (field k v e) = update (put k v d) e

unfoldable pub is_null : Value → Bool
is_null null = true
is_null _ = false

unfoldable pub is_dict : Value → Bool
is_dict (dict _) = true
is_dict _ = false

-- `value is not None and a text`
unfoldable pub text_of : Value → Option String
text_of (str s) = some s
text_of _ = none

-- An integer field of a DTO.
unfoldable pub int_of : Value → Option ℤ
int_of (int n) = some n
int_of _ = none

-- `k in {…}`
unfoldable pub member : String → List String → Bool
member k [] = false
member k (j ∷ js) = if str_eq j k then true else member k js

-- Whether all of the one are in the other
unfoldable pub is_within : List String → List String → Bool
unfolding member
is_within [] ys = true
is_within (x ∷ xs) ys = member x ys && is_within xs ys
