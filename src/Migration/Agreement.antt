-- ===== src/Migration/Agreement.antt =====
-- The migration's tables and the columns of the models.
use paquitobot_rag.Prelude.{◌≡◌, refl, true, [], ◌∷◌, map}
use paquitobot_rag.Models.{Model, user, course, enrollment, assignment, submission, known_columns}
use paquitobot_rag.Migration.Tables.{
  Table, column_names, users_table, courses_table, enrollments_table, assignments_table,
  submissions_table,
}
use paquitobot_rag.Value.{is_within, member}

-- `__tablename__`
abbrev pub table_of : Model → Table
table_of user = users_table
table_of course = courses_table
table_of enrollment = enrollments_table
table_of assignment = assignments_table
table_of submission = submissions_table

-- For every model that a sync writes, the table of the migration has the columns that the model
-- knows and no others, and one unique constraint, on the tenant and the Canvas id.
pub known_columns-column_names :
    (model : Model)
    → (is_within (known_columns model) (column_names (table_of model)) ≡ true)
      × (is_within (column_names (table_of model)) (known_columns model) ≡ true)
      × (map (λ u. u.1) (table_of model).uniques ≡ ("tenant_id" ∷ "canvas_id" ∷ []) ∷ [])
unfolding known_columns is_within member
known_columns-column_names user = (refl, refl, refl)
known_columns-column_names course = (refl, refl, refl)
known_columns-column_names enrollment = (refl, refl, refl)
known_columns-column_names assignment = (refl, refl, refl)
known_columns-column_names submission = (refl, refl, refl)
