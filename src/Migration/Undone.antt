-- ===== src/Migration/Undone.antt =====
-- Downgrading after upgrading.
use paquitobot_rag.Prelude.{
  ◌≡◌, refl, sym, ◌∙◌, String, Bool, true, false, any, some, List, [], ◌∷◌, ◌++◌, map, str_eq,
  str_eq_iff, Bool-cases, inl, inr, arith,
}
use mathlib.Core.Path.{subst}
use paquitobot_rag.Value.{member}
use paquitobot_rag.Migration.Tables.{
  tenants_table, canvas_credentials_table, users_table, courses_table, enrollments_table,
  assignments_table, submissions_table, sync_state_table,
}
use paquitobot_rag.Migration.{
  Database, has_table, has_relation, is_taken, repeats, is_referenced, without_table, has_index,
  put_index, add_index, remove_index, run, and_run, upgrade, downgrade,
}

-- The names of the relations that the upgrade creates: the tables, their unique constraints and their
-- indexes
abbrev pub table_names : List String
table_names =
    "tenants" ∷ "canvas_credentials" ∷ "users" ∷ "courses" ∷ "enrollments" ∷ "assignments"
    ∷ "submissions" ∷ "sync_state" ∷ []

abbrev pub unique_names : List String
unique_names =
    map (λ unique. unique.0)
      (tenants_table.uniques ++ canvas_credentials_table.uniques ++ users_table.uniques
        ++ courses_table.uniques ++ enrollments_table.uniques ++ assignments_table.uniques
        ++ submissions_table.uniques ++ sync_state_table.uniques)

abbrev pub index_names : List String
index_names =
    "ix_tenants_backend_user_id" ∷ "ix_canvas_credentials_tenant_id" ∷ "ix_users_tenant_id"
    ∷ "ix_users_canvas_id" ∷ "ix_courses_tenant_id" ∷ "ix_courses_canvas_id"
    ∷ "ix_enrollments_tenant_id" ∷ "ix_enrollments_canvas_id" ∷ "ix_enrollments_course_id"
    ∷ "ix_enrollments_user_id" ∷ "ix_assignments_tenant_id" ∷ "ix_assignments_canvas_id"
    ∷ "ix_assignments_course_id" ∷ "ix_submissions_tenant_id" ∷ "ix_submissions_canvas_id"
    ∷ "ix_submissions_assignment_id" ∷ "ix_submissions_user_id" ∷ "ix_sync_state_tenant_id" ∷ []

-- A database without a relation of any of the names, in which no table refers to one of the tables
pub record IsFresh (db : Database) : Type 0 where
  pub no_table : any (λ name. has_relation name db) table_names ≡ false
  pub no_unique : any (λ name. has_relation name db) unique_names ≡ false
  pub no_index : any (λ name. has_relation name db) index_names ≡ false
  pub no_reference : any (λ name. is_referenced name db) table_names ≡ false

none_of :
    (test : String → Bool) (names : List String) (name : String)
    → any test names ≡ false
    → member name names ≡ true
    → test name ≡ false
unfolding member
none_of test [] name h e = cc
none_of test (x ∷ xs) name h e = elim (Bool-cases (test x)) [
  | inl hit ↦ absurd (ground (arith, hit, h))
  | inr miss ↦ elim (Bool-cases (str_eq x name)) [
    | inl same ↦ subst (λ y. test y ≡ false) ((str_eq_iff x name).0 same) miss
    | inr other ↦ none_of test xs name (sym (rw (miss) refl) ∙ h) (sym (rw (other) refl) ∙ e)
  ]
]

-- The database with the tables up to the one of each name, with their indexes
abbrev upto_tenants : Database → Database
upto_tenants db =
    (record tenants_table { indexes = ("ix_tenants_backend_user_id", "backend_user_id" ∷ []) ∷ [] })
    ∷ db

abbrev upto_canvas_credentials : Database → Database
upto_canvas_credentials db =
    (record canvas_credentials_table {
      indexes = ("ix_canvas_credentials_tenant_id", "tenant_id" ∷ []) ∷ [];
    })
    ∷ upto_tenants db

abbrev upto_users : Database → Database
upto_users db =
    (record users_table {
      indexes =
          ("ix_users_canvas_id", "canvas_id" ∷ []) ∷ ("ix_users_tenant_id", "tenant_id" ∷ []) ∷ [];
    })
    ∷ upto_canvas_credentials db

abbrev upto_courses : Database → Database
upto_courses db =
    (record courses_table {
      indexes =
          ("ix_courses_canvas_id", "canvas_id" ∷ [])
          ∷ ("ix_courses_tenant_id", "tenant_id" ∷ [])
          ∷ [];
    })
    ∷ upto_users db

abbrev upto_enrollments : Database → Database
upto_enrollments db =
    (record enrollments_table {
      indexes =
          ("ix_enrollments_user_id", "user_id" ∷ [])
          ∷ ("ix_enrollments_course_id", "course_id" ∷ [])
          ∷ ("ix_enrollments_canvas_id", "canvas_id" ∷ [])
          ∷ ("ix_enrollments_tenant_id", "tenant_id" ∷ [])
          ∷ [];
    })
    ∷ upto_courses db

abbrev upto_assignments : Database → Database
upto_assignments db =
    (record assignments_table {
      indexes =
          ("ix_assignments_course_id", "course_id" ∷ [])
          ∷ ("ix_assignments_canvas_id", "canvas_id" ∷ [])
          ∷ ("ix_assignments_tenant_id", "tenant_id" ∷ [])
          ∷ [];
    })
    ∷ upto_enrollments db

abbrev upto_submissions : Database → Database
upto_submissions db =
    (record submissions_table {
      indexes =
          ("ix_submissions_user_id", "user_id" ∷ [])
          ∷ ("ix_submissions_assignment_id", "assignment_id" ∷ [])
          ∷ ("ix_submissions_canvas_id", "canvas_id" ∷ [])
          ∷ ("ix_submissions_tenant_id", "tenant_id" ∷ [])
          ∷ [];
    })
    ∷ upto_assignments db

abbrev upto_sync_state : Database → Database
upto_sync_state db =
    (record sync_state_table { indexes = ("ix_sync_state_tenant_id", "tenant_id" ∷ []) ∷ [] })
    ∷ upto_submissions db

abbrev pub upgraded : Database → Database
upgraded db = upto_sync_state db

upgrade_runs : (db : Database) → IsFresh db → and_run upgrade (some db) ≡ some (upgraded db)
unfolding has_table has_relation add_index put_index has_index is_taken repeats run member
upgrade_runs db fresh =
    let table : (name : String) → member name table_names ≡ true → has_relation name db ≡ false =
      λ name. none_of (λ x. has_relation x db) table_names name fresh.no_table in
    let unique : (name : String) → member name unique_names ≡ true → has_relation name db ≡ false =
      λ name. none_of (λ x. has_relation x db) unique_names name fresh.no_unique in
    let index : (name : String) → member name index_names ≡ true → has_relation name db ≡ false =
      λ name. none_of (λ x. has_relation x db) index_names name fresh.no_index in
    rw
      (
        run,
        is_taken,
        add_index,
        and_run,
        table "tenants" refl,
        unique "uq_tenants_backend_user_id" refl,
        index "ix_tenants_backend_user_id" refl,
        table "canvas_credentials" refl,
        unique "uq_canvas_credentials_tenant_id" refl,
        index "ix_canvas_credentials_tenant_id" refl,
        table "users" refl,
        unique "uq_users_tenant_canvas" refl,
        index "ix_users_tenant_id" refl,
        index "ix_users_canvas_id" refl,
        table "courses" refl,
        unique "uq_courses_tenant_canvas" refl,
        index "ix_courses_tenant_id" refl,
        index "ix_courses_canvas_id" refl,
        table "enrollments" refl,
        unique "uq_enrollments_tenant_canvas" refl,
        index "ix_enrollments_tenant_id" refl,
        index "ix_enrollments_canvas_id" refl,
        index "ix_enrollments_course_id" refl,
        index "ix_enrollments_user_id" refl,
        table "assignments" refl,
        unique "uq_assignments_tenant_canvas" refl,
        index "ix_assignments_tenant_id" refl,
        index "ix_assignments_canvas_id" refl,
        index "ix_assignments_course_id" refl,
        table "submissions" refl,
        unique "uq_submissions_tenant_canvas" refl,
        index "ix_submissions_tenant_id" refl,
        index "ix_submissions_canvas_id" refl,
        index "ix_submissions_assignment_id" refl,
        index "ix_submissions_user_id" refl,
        table "sync_state" refl,
        unique "uq_sync_state_tenant_table" refl,
        index "ix_sync_state_tenant_id" refl,
      )
      refl

downgrade_runs : (db : Database) → IsFresh db → and_run downgrade (some (upgraded db)) ≡ some db
unfolding run has_table has_relation remove_index has_index is_referenced without_table member
downgrade_runs db fresh =
    let free : (name : String) → member name table_names ≡ true → is_referenced name db ≡ false =
      λ name. none_of (λ x. is_referenced x db) table_names name fresh.no_reference in
    rw
      (
        free "sync_state" refl,
        free "submissions" refl,
        free "assignments" refl,
        free "enrollments" refl,
        free "courses" refl,
        free "users" refl,
        free "canvas_credentials" refl,
        free "tenants" refl,
      )
      refl

-- On a database where no table, index or unique constraint has a name that the upgrade gives, and no
-- table refers to one of such a name, no operation of the upgrade is refused, nor one of the downgrade
-- after it, and then the database is what it was.
pub downgrade-upgrade :
    (db : Database)
    → IsFresh db
    → (and_run upgrade (some db) ≡ some (upgraded db))
      × (and_run downgrade (and_run upgrade (some db)) ≡ some db)
downgrade-upgrade db fresh =
    (upgrade_runs db fresh, rw (upgrade_runs db fresh) (downgrade_runs db fresh))
