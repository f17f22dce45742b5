-- ===== src/Migration/Examples.antt =====
-- The migration beside the table of the documents.
use paquitobot_rag.Prelude.{◌≡◌, refl, true, some, [], ◌∷◌, map}
use paquitobot_rag.Value.{is_within}
use paquitobot_rag.Models.{submission, known_columns}
use paquitobot_rag.Migration.Tables.{text, nullable, column_names}
use paquitobot_rag.Migration.{
  Database, has_relation, has_index, is_referenced, and_run, upgrade, downgrade,
}
use paquitobot_rag.Migration.Agreement.{table_of, known_columns-column_names}
use paquitobot_rag.Migration.Undone.{IsFresh, upgraded, downgrade-upgrade}

known_columns-column_names_example :
    (is_within (known_columns submission) (column_names (table_of submission)) ≡ true)
    × (is_within (column_names (table_of submission)) (known_columns submission) ≡ true)
    × (map (λ u. u.1) (table_of submission).uniques ≡ ("tenant_id" ∷ "canvas_id" ∷ []) ∷ [])
known_columns-column_names_example = known_columns-column_names submission

abbrev documents : Database
documents =
    (record {
      name = "documents";
      columns = nullable "content" text ∷ [];
      uniques = [];
      indexes = ("ix_documents_content", "content" ∷ []) ∷ [];
    })
    ∷ []

documents-IsFresh : IsFresh documents
unfolding has_relation has_index is_referenced
documents-IsFresh = record {
  no_table = refl;
  no_unique = refl;
  no_index = refl;
  no_reference = refl;
}

downgrade-upgrade_example :
    (and_run upgrade (some documents) ≡ some (upgraded documents))
    × (and_run downgrade (and_run upgrade (some documents)) ≡ some documents)
downgrade-upgrade_example = downgrade-upgrade documents documents-IsFresh
