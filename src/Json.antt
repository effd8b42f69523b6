-- ===== src/Json.antt =====
-- Values of `JSON.parse`, as the gateway looks at them. A member that is not there is `none`,
-- which is JavaScript's `undefined`.
use zclaudia_gateway.Prelude.{
  ℕ, String, Bool, true, false, nat_eq, leb, ◌&&◌, Option, none, some, List, [], ◌∷◌,
}
use zclaudia_gateway.Map.{Map, get}

-- A JavaScript number by what the program asks of it: `fractional` is finite and no integer, with
-- its decimal text; `not_finite` is what `1e999` is parsed to; `negative n` is -(n + 1).
pub data Number : Type 0 where
  natural : ℕ → Number
  negative : ℕ → Number
  fractional : String → Number
  not_finite : Number

mutual
  pub data Json : Type 0 where
    null : Json
    boolean : Bool → Json
    number : Number → Json
    text : String → Json
    array : Elements → Json
    object : Members → Json

  pub data Elements : Type 0 where
    nil : Elements
    cons : Json → Elements → Elements

  pub data Members : Type 0 where
    end : Members
    field : String → Json → Members → Members

unfoldable pub members : Members → Map Json
members end = []
members (field k v ms) = (k, v) ∷ members ms

unfoldable pub elements : Elements → List Json
elements nil = []
elements (cons v vs) = v ∷ elements vs

-- `value[name]`, for names that no array and no primitive value has
unfoldable pub member : String → Json → Option Json
unfolding get members
member name (object ms) = get name (members ms)
member name null = none
member name _ = none

-- `typeof value === 'object' && value !== null`
abbrev pub is_object : Json → Bool
is_object (object ms) = true
is_object (array vs) = true
is_object _ = false

abbrev pub as_text : Json → Option String
as_text (text s) = some s
as_text _ = none

abbrev pub as_number : Json → Option Number
as_number (number n) = some n
as_number _ = none

abbrev pub as_boolean : Json → Option Bool
as_boolean (boolean b) = some b
as_boolean _ = none

abbrev pub as_array : Json → Option (List Json)
unfolding elements
as_array (array vs) = some (elements vs)
as_array _ = none

abbrev pub is_text : Json → Bool
is_text (text s) = true
is_text _ = false

abbrev pub is_finite : Number → Bool
is_finite not_finite = false
is_finite _ = true

-- `n === k`
abbrev pub number_eq : Number → ℕ → Bool
number_eq (natural n) k = nat_eq n k
number_eq _ k = false

-- `Number.isInteger(n) && n >= lo && n <= hi`
abbrev pub integer_within : ℕ → ℕ → Number → Bool
integer_within lo hi (natural n) = leb lo n && leb n hi
integer_within lo hi _ = false
