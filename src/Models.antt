-- ===== src/Models.antt =====
-- app/models/__init__.py: the tables that a sync writes. A row's `tenant_id`, `canvas_id` and `id`
-- are fields; its other columns, `deleted_at` among them, are a dict by the column's name.
use paquitobot_rag.Prelude.{ℕ, ◌≡◌, refl, String, Bool, true, false, Option, List, [], ◌∷◌, arith}
use paquitobot_rag.Value.{Fields}
use paquitobot_rag.Value.Int.{ℤ}

pub data Model : Type 0 where
  user course enrollment assignment submission : Model

abbrev pub model_eq : Model → Model → Bool
model_eq user user = true
model_eq course course = true
model_eq enrollment enrollment = true
model_eq assignment assignment = true
model_eq submission submission = true
model_eq _ _ = false

pub record Row : Type 0 where
  pub id : ℕ
  pub tenant_id : ℕ
  pub canvas_id : ℤ
  pub attrs : Fields

pub record SyncState : Type 0 where
  pub tenant_id : ℕ
  pub table_name : String
  pub last_watermark : Option ℕ
  pub last_run_at : Option ℕ
  pub last_status : String
  pub last_error_class : Option String

-- `TenantMixin`
abbrev tenant_mixin : List String
tenant_mixin = "tenant_id" ∷ "created_at" ∷ "updated_at" ∷ "deleted_at" ∷ "id" ∷ "canvas_id" ∷ []

abbrev extend : List String → List String → List String
extend [] ys = ys
extend (x ∷ xs) ys = x ∷ extend xs ys

abbrev user_columns : List String
user_columns =
    "name" ∷ "short_name" ∷ "sortable_name" ∷ "email" ∷ "locale" ∷ "effective_locale" ∷ []

abbrev course_columns : List String
course_columns =
    "name" ∷ "course_code" ∷ "account_id" ∷ "root_account_id" ∷ "enrollment_term_id" ∷ "uuid"
    ∷ "workflow_state" ∷ "start_at" ∷ "end_at" ∷ "default_view" ∷ "is_public" ∷ "license"
    ∷ "time_zone" ∷ "enrollments_count" ∷ "calendar_ics" ∷ []

abbrev enrollment_columns : List String
enrollment_columns =
    "course_id" ∷ "user_id" ∷ "role" ∷ "role_id" ∷ "enrollment_state"
    ∷ "limit_privileges_to_course_section" ∷ []

abbrev assignment_columns : List String
assignment_columns =
    "course_id" ∷ "name" ∷ "description" ∷ "points_possible" ∷ "due_at" ∷ "lock_at" ∷ "unlock_at"
    ∷ "workflow_state" ∷ "grading_type" ∷ "submission_types" ∷ "html_url" ∷ "important_dates"
    ∷ "muted" ∷ "availability_status" ∷ "lock_info" ∷ "integration_data" ∷ "score_statistics" ∷ []

abbrev submission_columns : List String
submission_columns =
    "assignment_id" ∷ "user_id" ∷ "workflow_state" ∷ "submission_type" ∷ "submitted_at" ∷ "score"
    ∷ "entered_score" ∷ "grade" ∷ "entered_grade" ∷ "grade_matches_current_submission" ∷ "graded_at"
    ∷ "posted_at" ∷ "cached_due_date" ∷ "late" ∷ "missing" ∷ "excused" ∷ "redo_request" ∷ "attempt"
    ∷ "seconds_late" ∷ "late_policy_status" ∷ "body" ∷ "url" ∷ "preview_url" ∷ "points_deducted"
    ∷ "extra_attempts" ∷ []

-- `_known_columns` of app/repositories/upsert.py
unfoldable pub known_columns : Model → List String
known_columns user = extend tenant_mixin user_columns
known_columns course = extend tenant_mixin course_columns
known_columns enrollment = extend tenant_mixin enrollment_columns
known_columns assignment = extend tenant_mixin assignment_columns
known_columns submission = extend tenant_mixin submission_columns

-- What a transaction sees, and what a commit makes durable.
pub record Db : Type 0 where
  pub tables : Model → List Row
  pub states : List SyncState

pub model_eq_refl : (m : Model) → model_eq m m ≡ true
model_eq_refl user = refl
model_eq_refl course = refl
model_eq_refl enrollment = refl
model_eq_refl assignment = refl
model_eq_refl submission = refl

pub model_eq-eq : (m n : Model) → model_eq m n ≡ true → m ≡ n
model_eq-eq m n h = ground arith
