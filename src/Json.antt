-- ===== src/Json.antt =====
-- The JSON values of events, selectors, requests and error objects (Python's `Any` and
-- `dict[str, Any]`). A float is a finite binary one, `m / 2 ^ k`. NaN and the infinities, which are
-- no JSON, are left out.
use a2a_events_python.Common.{
  ℕ, ◌*◌, ◌^◌, Bool, true, false, ◌&&◌, not, Option, none, some, List, [], ◌∷◌, ◌==◌, if◌then◌else◌,
  Text, text_eq, is_empty, ℤ, pos, pos_part, neg_part,
}

mutual
  pub data Json : Type 0 where
    null : Json
    bool : Bool → Json
    int : ℤ → Json
    float : ℤ → ℕ → Json
    str : Text → Json
    arr : Items → Json
    obj : Fields → Json

  pub data Items : Type 0 where
    nil : Items
    cons : Json → Items → Items

  pub data Fields : Type 0 where
    end : Fields
    field : Text → Json → Fields → Fields

-- d.get(key), key in d
unfoldable pub get_field : Text → Fields → Option Json
get_field key end = none
get_field key (field k v rest) = if text_eq k key then some v else get_field key rest

-- d[key] = value
unfoldable pub put_field : Text → Json → Fields → Fields
put_field key value end = field key value end
put_field key value (field k v rest) =
    if text_eq k key then field k value rest else field k v (put_field key value rest)

-- {**d, **e}
unfoldable pub merge : Fields → Fields → Fields
unfolding put_field
merge d end = d
merge d (field k v rest) = merge (put_field k v d) rest

abbrev pub to_list : Items → List Json
to_list nil = []
to_list (cons x xs) = x ∷ to_list xs

-- The number that Python compares by: `True` is 1, and an int equals the float of its value.
unfoldable pub number : Json → Option (ℤ × ℕ)
number (bool true) = some (pos 1, 0)
number (bool false) = some (pos 0, 0)
number (int n) = some (n, 0)
number (float m k) = some (m, k)
number _ = none

-- m / 2 ^ j == n / 2 ^ k
unfoldable pub number_eq : ℤ × ℕ → ℤ × ℕ → Bool
number_eq (m, j) (n, k) =
    pos_part m * 2 ^ k == pos_part n * 2 ^ j && neg_part m * 2 ^ k == neg_part n * 2 ^ j

-- a == b, for a scalar `a`. No scalar equals a list or a dict.
unfoldable pub scalar_eq : Json → Json → Bool
unfolding number number_eq
scalar_eq null null = true
scalar_eq null b = false
scalar_eq (str s) (str t) = text_eq s t
scalar_eq (str s) b = false
scalar_eq a b = elim (number a) [
  | none ↦ false
  | some x ↦ elim (number b) [ none ↦ false | some y ↦ number_eq x y ]
]

-- bool(value)
unfoldable pub truthy : Json → Bool
unfolding number_eq
truthy null = false
truthy (bool b) = b
truthy (int n) = not (number_eq (n, 0) (pos 0, 0))
truthy (float m k) = not (number_eq (m, k) (pos 0, 0))
truthy (str s) = not (is_empty s)
truthy (arr nil) = false
truthy (arr (cons _ _)) = true
truthy (obj end) = false
truthy (obj (field _ _ _)) = true
