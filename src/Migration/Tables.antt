-- ===== src/Migration/Tables.antt =====
-- The tables that `upgrade` of alembic/versions/0001_init.py creates.
use paquitobot_rag.Prelude.{ℕ, String, List, [], ◌∷◌, map}

pub data ColumnType : Type 0 where
  uuid integer big_integer float boolean date_time text jsonb large_binary : ColumnType
  string : ℕ → ColumnType

-- A primary key; a column that may not be null; one that may; a time that is set to `now()`; and a
-- foreign key to the `id` of a table, which is set to null when that row is deleted.
pub data Column : Type 0 where
  primary required nullable : String → ColumnType → Column
  stamped : String → Column
  references : String → ColumnType → String → Column

abbrev pub column_name : Column → String
column_name (primary name type) = name
column_name (required name type) = name
column_name (nullable name type) = name
column_name (stamped name) = name
column_name (references name type table) = name

pub record Table : Type 0 where
  pub name : String
  pub columns : List Column
  -- constraints and indexes, by name, with their columns
  pub uniques : List (String × List String)
  pub indexes : List (String × List String)

abbrev pub column_names : Table → List String
column_names table = map column_name table.columns

abbrev pub tenants_table : Table
tenants_table = record {
  name = "tenants";
  columns =
      primary "id" uuid
      ∷ required "backend_user_id" (string 255)
      ∷ stamped "created_at"
      ∷ stamped "updated_at"
      ∷ [];
  uniques = ("uq_tenants_backend_user_id", "backend_user_id" ∷ []) ∷ [];
  indexes = [];
}

abbrev pub canvas_credentials_table : Table
canvas_credentials_table = record {
  name = "canvas_credentials";
  columns =
      primary "id" integer
      ∷ required "tenant_id" (uuid)
      ∷ required "ciphertext" (large_binary)
      ∷ required "key_version" (integer)
      ∷ stamped "created_at"
      ∷ nullable "rotated_at" (date_time)
      ∷ [];
  uniques = ("uq_canvas_credentials_tenant_id", "tenant_id" ∷ []) ∷ [];
  indexes = [];
}

abbrev pub users_table : Table
users_table = record {
  name = "users";
  columns =
      primary "id" uuid
      ∷ required "tenant_id" (uuid)
      ∷ required "canvas_id" (big_integer)
      ∷ nullable "name" (string 512)
      ∷ nullable "short_name" (string 255)
      ∷ nullable "sortable_name" (string 255)
      ∷ nullable "email" (string 512)
      ∷ nullable "locale" (string 32)
      ∷ nullable "effective_locale" (string 32)
      ∷ stamped "created_at"
      ∷ stamped "updated_at"
      ∷ nullable "deleted_at" (date_time)
      ∷ [];
  uniques = ("uq_users_tenant_canvas", "tenant_id" ∷ "canvas_id" ∷ []) ∷ [];
  indexes = [];
}

abbrev pub courses_table : Table
courses_table = record {
  name = "courses";
  columns =
      primary "id" uuid
      ∷ required "tenant_id" (uuid)
      ∷ required "canvas_id" (big_integer)
      ∷ nullable "name" (string 512)
      ∷ nullable "course_code" (string 255)
      ∷ nullable "account_id" (big_integer)
      ∷ nullable "root_account_id" (big_integer)
      ∷ nullable "enrollment_term_id" (big_integer)
      ∷ nullable "uuid" (string 64)
      ∷ nullable "workflow_state" (string 32)
      ∷ nullable "start_at" (date_time)
      ∷ nullable "end_at" (date_time)
      ∷ nullable "default_view" (string 32)
      ∷ nullable "is_public" (boolean)
      ∷ nullable "license" (string 64)
      ∷ nullable "time_zone" (string 64)
      ∷ nullable "enrollments_count" (integer)
      ∷ nullable "calendar_ics" (text)
      ∷ stamped "created_at"
      ∷ stamped "updated_at"
      ∷ nullable "deleted_at" (date_time)
      ∷ [];
  uniques = ("uq_courses_tenant_canvas", "tenant_id" ∷ "canvas_id" ∷ []) ∷ [];
  indexes = [];
}

abbrev pub enrollments_table : Table
enrollments_table = record {
  name = "enrollments";
  columns =
      primary "id" uuid
      ∷ required "tenant_id" (uuid)
      ∷ required "canvas_id" (big_integer)
      ∷ references "course_id" (uuid) "courses"
      ∷ references "user_id" (uuid) "users"
      ∷ nullable "role" (string 64)
      ∷ nullable "role_id" (big_integer)
      ∷ nullable "enrollment_state" (string 32)
      ∷ nullable "limit_privileges_to_course_section" (boolean)
      ∷ stamped "created_at"
      ∷ stamped "updated_at"
      ∷ nullable "deleted_at" (date_time)
      ∷ [];
  uniques = ("uq_enrollments_tenant_canvas", "tenant_id" ∷ "canvas_id" ∷ []) ∷ [];
  indexes = [];
}

abbrev pub assignments_table : Table
assignments_table = record {
  name = "assignments";
  columns =
      primary "id" uuid
      ∷ required "tenant_id" (uuid)
      ∷ required "canvas_id" (big_integer)
      ∷ references "course_id" (uuid) "courses"
      ∷ nullable "name" (string 512)
      ∷ nullable "description" (text)
      ∷ nullable "points_possible" (float)
      ∷ nullable "due_at" (date_time)
      ∷ nullable "lock_at" (date_time)
      ∷ nullable "unlock_at" (date_time)
      ∷ nullable "workflow_state" (string 32)
      ∷ nullable "grading_type" (string 32)
      ∷ nullable "submission_types" (jsonb)
      ∷ nullable "html_url" (string 1024)
      ∷ nullable "important_dates" (jsonb)
      ∷ nullable "muted" (boolean)
      ∷ nullable "availability_status" (jsonb)
      ∷ nullable "lock_info" (jsonb)
      ∷ nullable "integration_data" (jsonb)
      ∷ nullable "score_statistics" (jsonb)
      ∷ stamped "created_at"
      ∷ stamped "updated_at"
      ∷ nullable "deleted_at" (date_time)
      ∷ [];
  uniques = ("uq_assignments_tenant_canvas", "tenant_id" ∷ "canvas_id" ∷ []) ∷ [];
  indexes = [];
}

abbrev pub submissions_table : Table
submissions_table = record {
  name = "submissions";
  columns =
      primary "id" uuid
      ∷ required "tenant_id" (uuid)
      ∷ required "canvas_id" (big_integer)
      ∷ references "assignment_id" (uuid) "assignments"
      ∷ references "user_id" (uuid) "users"
      ∷ nullable "workflow_state" (string 32)
      ∷ nullable "submission_type" (string 64)
      ∷ nullable "submitted_at" (date_time)
      ∷ nullable "score" (float)
      ∷ nullable "entered_score" (float)
      ∷ nullable "grade" (string 64)
      ∷ nullable "entered_grade" (string 64)
      ∷ nullable "grade_matches_current_submission" (boolean)
      ∷ nullable "graded_at" (date_time)
      ∷ nullable "posted_at" (date_time)
      ∷ nullable "cached_due_date" (date_time)
      ∷ nullable "late" (boolean)
      ∷ nullable "missing" (boolean)
      ∷ nullable "excused" (boolean)
      ∷ nullable "redo_request" (boolean)
      ∷ nullable "attempt" (big_integer)
      ∷ nullable "seconds_late" (big_integer)
      ∷ nullable "late_policy_status" (string 64)
      ∷ nullable "body" (text)
      ∷ nullable "url" (string 1024)
      ∷ nullable "preview_url" (string 1024)
      ∷ nullable "points_deducted" (float)
      ∷ nullable "extra_attempts" (integer)
      ∷ stamped "created_at"
      ∷ stamped "updated_at"
      ∷ nullable "deleted_at" (date_time)
      ∷ [];
  uniques = ("uq_submissions_tenant_canvas", "tenant_id" ∷ "canvas_id" ∷ []) ∷ [];
  indexes = [];
}

abbrev pub sync_state_table : Table
sync_state_table = record {
  name = "sync_state";
  columns =
      primary "id" integer
      ∷ required "tenant_id" (uuid)
      ∷ required "table_name" (string 64)
      ∷ nullable "last_watermark" (date_time)
      ∷ nullable "last_run_at" (date_time)
      ∷ nullable "last_status" (string 32)
      ∷ nullable "last_error_class" (string 64)
      ∷ stamped "created_at"
      ∷ stamped "updated_at"
      ∷ [];
  uniques = ("uq_sync_state_tenant_table", "tenant_id" ∷ "table_name" ∷ []) ∷ [];
  indexes = [];
}
