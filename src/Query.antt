-- ===== src/Query.antt =====
-- The queries that the program makes of a table: `select(…).where(…)`, `scalar_one_or_none()`, and
-- an assignment to the columns of what was selected.
pub mod Laws
use paquitobot_rag.Prelude.{Bool, Option, none, some, List, [], ◌∷◌, if◌then◌else◌}
use paquitobot_rag.Exec.{Result, ok, err, multiple_results}

module _ {A : Type 0} where
  unfoldable pub select : (A → Bool) → List A → List A
  select p [] = []
  select p (x ∷ xs) = let rest = select p xs in if p x then x ∷ rest else rest

  -- SQLAlchemy raises `MultipleResultsFound` on two rows.
  unfoldable pub scalar_one_or_none : List A → Result (Option A)
  scalar_one_or_none [] = ok none
  scalar_one_or_none (x ∷ []) = ok (some x)
  scalar_one_or_none (x ∷ y ∷ xs) = err multiple_results

  -- The session holds one object for a row, so an assignment to what a query returned is seen by
  -- every later query.
  unfoldable pub update_where : (A → Bool) → (A → A) → List A → List A
  update_where p f [] = []
  update_where p f (x ∷ xs) = (if p x then f x else x) ∷ update_where p f xs
