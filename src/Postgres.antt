-- ===== src/Postgres.antt =====
-- runtime/postgres: the stores kept in a Postgres database. A table is a list of rows, a statement
-- is the function of the tables that its documentation says, and what a transaction that fails has
-- written is undone. What is not of this repository is a parameter: how pydantic dumps and loads a
-- topic, and how the database orders texts.
pub mod Sorting
pub mod Events
pub mod Retries
pub mod Subscriptions
use a2a_events_python.Common.{
  ℕ, ◌<◌, ◌≡◌, Bool, Option, none, some, List, [], ◌∷◌, ltb, if◌then◌else◌, Text,
}
use a2a_events_python.Json.{Json}
use a2a_events_python.Errors.{Result, ok}
use a2a_events_python.Models.{Topic}
use a2a_events_python.Cursor.{encode}
use a2a_events_python.Cursor.Decimal.{max_offset}

pub record Outside : Type 0 where
  -- Topic.model_dump and Topic.model_validate
  pub dump : Topic → Json
  pub load : Json → Result Topic
  -- `<` of two texts, in the collation of the database
  pub before : Text → Text → Bool

-- What an INTEGER column holds: 32 bits, the least here being 0. psycopg's NumericValueOutOfRange is
-- raised for more.
abbrev pub in_integer : ℕ → Bool
in_integer n = ltb n 2_147_483_648

abbrev pub out_of_range : ℕ
out_of_range = 3

-- A dumped topic loads as itself, and the collation sorts padded numbers after a common beginning
-- by their value.
pub record IsSound (out : Outside) : Type 0 where
  pub loads : (topic : Topic) → out.load (out.dump topic) ≡ ok topic
  pub orders :
      (topic : Text) (a b : ℕ)
      → a < max_offset
      → b < max_offset
      → out.before (encode topic a) (encode topic b) ≡ ltb a b

module _ {ℓ} {A : Type ℓ} where
  abbrev pub insert_row : (A → A → Bool) → A → List A → List A
  insert_row before x [] = x ∷ []
  insert_row before x (y ∷ ys) =
      let rest = insert_row before x ys in if before y x then y ∷ rest else x ∷ y ∷ ys

  -- ORDER BY
  abbrev pub order_by : (A → A → Bool) → List A → List A
  order_by before [] = []
  order_by before (x ∷ xs) = insert_row before x (order_by before xs)

-- min(column) and max(column): NULL over no row
abbrev pub min_text : (Text → Text → Bool) → List Text → Option Text
min_text before [] = none
min_text before (x ∷ xs) = elim (min_text before xs) [
  | none ↦ some x
  | some y ↦ some (if before y x then y else x)
]

abbrev pub max_text : (Text → Text → Bool) → List Text → Option Text
max_text before [] = none
max_text before (x ∷ xs) = elim (max_text before xs) [
  | none ↦ some x
  | some y ↦ some (if before x y then y else x)
]
