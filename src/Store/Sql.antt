-- ===== src/Store/Sql.antt =====
-- The SQL statements of backend/internal/store, over tables that are lists of rows: `where` with a
-- Boolean test, `order by`, and what a query returns. A query can fail for reasons outside the
-- program: the argument `fault` is the message of that failure, or none, and a query that fails
-- changes nothing.
pub mod Rows
pub mod Finding
use xrestream.Base.{
  if◌then◌else◌, ℕ, ◌∷◌, Bool, List, Option, Text, [], false, leb, none, some, true,
}
use xrestream.Base.Results.{Error, Result, ok, err, message}

module _ {A : Type 0} where
  -- select ... where
  unfoldable pub all_where : (A → Bool) → List A → List A
  all_where p [] = []
  all_where p (row ∷ rows) = if p row then row ∷ all_where p rows else all_where p rows

  -- The row that a `where` over a unique column finds.
  unfoldable pub first_where : (A → Bool) → List A → Option A
  first_where p [] = none
  first_where p (row ∷ rows) = if p row then some row else first_where p rows

  unfoldable pub any_where : (A → Bool) → List A → Bool
  any_where p [] = false
  any_where p (row ∷ rows) = if p row then true else any_where p rows

  -- update ... set ... where
  unfoldable pub update_where : (A → Bool) → (A → A) → List A → List A
  update_where p change [] = []
  update_where p change (row ∷ rows) =
      if p row then change row ∷ update_where p change rows else row ∷ update_where p change rows

  -- delete ... where
  unfoldable pub delete_where : (A → Bool) → List A → List A
  delete_where p [] = []
  delete_where p (row ∷ rows) = if p row then delete_where p rows else row ∷ delete_where p rows

  -- order by; rows with equal keys may come in any order, here in that of the table.
  place : (A → ℕ) → A → List A → List A
  place key row [] = row ∷ []
  place key row (other ∷ rows) =
      if leb (key row) (key other) then row ∷ other ∷ rows else other ∷ place key row rows

  unfoldable pub order_asc : (A → ℕ) → List A → List A
  unfolding place
  order_asc key [] = []
  order_asc key (row ∷ rows) = place key row (order_asc key rows)

  place_last : (A → ℕ) → A → List A → List A
  place_last key row [] = row ∷ []
  place_last key row (other ∷ rows) =
      if leb (key other) (key row) then row ∷ other ∷ rows else other ∷ place_last key row rows

  unfoldable pub order_desc : (A → ℕ) → List A → List A
  unfolding place_last
  order_desc key [] = []
  order_desc key (row ∷ rows) = place_last key row (order_desc key rows)

  -- What a query answers.
  unfoldable pub answered : Option Text → A → Result A
  answered none rows = ok rows
  answered (some why) rows = err (message why)

  -- QueryRow and Scan: `missing` is the error when there is no row.
  unfoldable pub scanned : Option Text → Error → Option A → Result A
  scanned none missing none = err missing
  scanned none missing (some row) = ok row
  scanned (some why) missing found = err (message why)
