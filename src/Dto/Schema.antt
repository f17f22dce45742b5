-- ===== src/Dto/Schema.antt =====
-- The fields that the DTO classes of app/canvas/dto.py declare: the whitelist of what may cross
-- the Canvas boundary.
use paquitobot_rag.Prelude.{String, List, [], ◌∷◌}

pub data DtoClass : Type 0 where
  user enrollment course submission availability_status lock_info score_statistics assignment :
      DtoClass

abbrev user_fields : List String
user_fields =
    "id" ∷ "name" ∷ "sortable_name" ∷ "short_name" ∷ "first_name" ∷ "last_name" ∷ "avatar_url"
    ∷ "created_at" ∷ "locale" ∷ "effective_locale" ∷ "permissions" ∷ []

abbrev enrollment_fields : List String
enrollment_fields =
    "id" ∷ "type" ∷ "role" ∷ "role_id" ∷ "user_id" ∷ "enrollment_state"
    ∷ "limit_privileges_to_course_section" ∷ "user" ∷ "course_id" ∷ []

abbrev course_fields : List String
course_fields =
    "id" ∷ "name" ∷ "course_code" ∷ "account_id" ∷ "root_account_id" ∷ "enrollment_term_id" ∷ "uuid"
    ∷ "workflow_state" ∷ "start_at" ∷ "end_at" ∷ "default_view" ∷ "is_public" ∷ "license"
    ∷ "enrollments" ∷ "calendar" ∷ "time_zone" ∷ "storage_quota_mb" ∷ "enrollments_count" ∷ []

abbrev submission_fields : List String
submission_fields =
    "id" ∷ "assignment_id" ∷ "user_id" ∷ "grader_id" ∷ "workflow_state" ∷ "submission_type"
    ∷ "submitted_at" ∷ "score" ∷ "entered_score" ∷ "grade" ∷ "entered_grade"
    ∷ "grade_matches_current_submission" ∷ "graded_at" ∷ "posted_at" ∷ "cached_due_date" ∷ "late"
    ∷ "missing" ∷ "excused" ∷ "redo_request" ∷ "attempt" ∷ "seconds_late" ∷ "late_policy_status"
    ∷ "body" ∷ "url" ∷ "preview_url" ∷ "attachments" ∷ "points_deducted" ∷ "extra_attempts"
    ∷ "sticker" ∷ "custom_grade_status_id" ∷ "grading_period_id" ∷ []

abbrev assignment_fields : List String
assignment_fields =
    "id" ∷ "course_id" ∷ "name" ∷ "description" ∷ "points_possible" ∷ "due_at" ∷ "lock_at"
    ∷ "unlock_at" ∷ "workflow_state" ∷ "grading_type" ∷ "submission_types" ∷ "html_url"
    ∷ "important_dates" ∷ "muted" ∷ "availability_status" ∷ "lock_info" ∷ "integration_data"
    ∷ "submission" ∷ "score_statistics" ∷ []

unfoldable pub declared : DtoClass → List String
declared user = user_fields
declared enrollment = enrollment_fields
declared course = course_fields
declared submission = submission_fields
declared availability_status = "status" ∷ "date" ∷ []
declared lock_info = "lock_at" ∷ "can_view" ∷ "asset_string" ∷ []
declared score_statistics = "min" ∷ "max" ∷ "mean" ∷ "median" ∷ "lower_q" ∷ "upper_q" ∷ []
declared assignment = assignment_fields
