-- ===== src/Migration.antt =====
-- alembic/versions/0001_init.py: the operations of `upgrade` and `downgrade`, and what a database makes of
-- them: PostgreSQL refuses to create what is there, to refer to a table that is not, and to drop what is
-- not there or is referred to.
pub mod Tables
pub mod Agreement
pub mod Undone
pub mod Examples
use paquitobot_rag.Prelude.{
  String, Bool, true, false, Option, none, some, List, [], ◌∷◌, ◌||◌, ◌&&◌, not, str_eq, any,
  if◌then◌else◌,
}
use paquitobot_rag.Migration.Tables.{
  Column, primary, required, nullable, stamped, references, Table, tenants_table,
  canvas_credentials_table, users_table, courses_table, enrollments_table, assignments_table,
  submissions_table, sync_state_table,
}

pub data Operation : Type 0 where
  create_table : Table → Operation
  create_index : String → String → List String → Operation
  drop_index : String → String → Operation
  drop_table : String → Operation

-- The tables, the newest first: no other relation, such as a view, is modelled, and the names that
-- PostgreSQL chooses by itself, of primary keys and sequences, avoid those that are there.
abbrev pub Database : Type 0
Database = List Table

unfoldable pub has_table : String → Database → Bool
has_table name [] = false
has_table name (table ∷ rest) = str_eq table.name name || has_table name rest

abbrev pub refers_to : String → Column → Bool
refers_to name (primary c type) = false
refers_to name (required c type) = false
refers_to name (nullable c type) = false
refers_to name (stamped c) = false
refers_to name (references c type table) = str_eq table name

abbrev pub target_missing : Database → Column → Bool
target_missing db (primary c type) = false
target_missing db (required c type) = false
target_missing db (nullable c type) = false
target_missing db (stamped c) = false
target_missing db (references c type table) = not (has_table table db)

-- Whether a column of some table refers to the one of the name
unfoldable pub is_referenced : String → Database → Bool
is_referenced name [] = false
is_referenced name (table ∷ rest) = any (refers_to name) table.columns || is_referenced name rest

unfoldable pub without_table : String → Database → Database
without_table name [] = []
without_table name (table ∷ rest) =
    let rest' = without_table name rest in if str_eq table.name name then rest else table ∷ rest'

abbrev with_index : String → List String → Table → Table
with_index index columns table = record table { indexes = (index, columns) ∷ table.indexes }

unfoldable pub has_index : String → List (String × List String) → Bool
has_index index [] = false
has_index index ((name, columns) ∷ rest) = str_eq name index || has_index index rest

abbrev without_index : String → List (String × List String) → List (String × List String)
without_index index [] = []
without_index index ((name, columns) ∷ rest) =
    let rest' = without_index index rest in
    if str_eq name index then rest else (name, columns) ∷ rest'

-- Whether a table, an index or a unique constraint has the name: they share the names of a schema.
unfoldable pub has_relation : String → Database → Bool
unfolding has_index
has_relation name [] = false
has_relation name (table ∷ rest) =
    str_eq table.name name
    || has_index name table.indexes
    || has_index name table.uniques
    || has_relation name rest

unfoldable pub repeats : List (String × List String) → Bool
unfolding has_index
repeats [] = false
repeats ((name, columns) ∷ rest) = has_index name rest || repeats rest

-- Whether the name of a new table, or of one of its unique constraints, is taken
unfoldable pub is_taken : Table → Database → Bool
unfolding has_relation repeats
is_taken table db =
    has_relation table.name db
    || has_index table.name table.uniques
    || repeats table.uniques
    || any (λ unique. has_relation unique.0 db) table.uniques

unfoldable pub put_index : String → String → List String → Database → Option Database
put_index index name columns [] = none
put_index index name columns (table ∷ rest) =
    let later = put_index index name columns rest in
    if str_eq table.name name
    then some (with_index index columns table ∷ rest)
    else elim later [ none ↦ none | some rest' ↦ some (table ∷ rest') ]

unfoldable pub add_index : String → String → List String → Database → Option Database
unfolding has_relation put_index
add_index index name columns db =
    if has_relation index db then none else put_index index name columns db

unfoldable pub remove_index : String → String → Database → Option Database
unfolding has_index
remove_index index name [] = none
remove_index index name (table ∷ rest) =
    let later = remove_index index name rest in
    if str_eq table.name name
    then (if has_index index table.indexes
        then some (record table { indexes = without_index index table.indexes } ∷ rest)
        else none)
    else elim later [ none ↦ none | some rest' ↦ some (table ∷ rest') ]

unfoldable pub run : Operation → Database → Option Database
unfolding add_index remove_index is_taken
run (create_table table) db =
    if is_taken table db || any (target_missing db) table.columns then none else some (table ∷ db)
run (create_index index name columns) db = add_index index name columns db
run (drop_index index name) db = remove_index index name db
run (drop_table name) db =
    if not (has_table name db) || is_referenced name db then none else some (without_table name db)

abbrev pub and_run : List Operation → Option Database → Option Database
and_run [] o = o
and_run (x ∷ xs) none = none
and_run (x ∷ xs) (some db) = and_run xs (run x db)

-- `upgrade`, from the table of each name on
abbrev pub from_sync_state : List Operation
from_sync_state =
    create_table sync_state_table
    ∷ create_index "ix_sync_state_tenant_id" "sync_state" ("tenant_id" ∷ [])
    ∷ []

abbrev pub from_submissions : List Operation
from_submissions =
    create_table submissions_table
    ∷ create_index "ix_submissions_tenant_id" "submissions" ("tenant_id" ∷ [])
    ∷ create_index "ix_submissions_canvas_id" "submissions" ("canvas_id" ∷ [])
    ∷ create_index "ix_submissions_assignment_id" "submissions" ("assignment_id" ∷ [])
    ∷ create_index "ix_submissions_user_id" "submissions" ("user_id" ∷ [])
    ∷ from_sync_state

abbrev pub from_assignments : List Operation
from_assignments =
    create_table assignments_table
    ∷ create_index "ix_assignments_tenant_id" "assignments" ("tenant_id" ∷ [])
    ∷ create_index "ix_assignments_canvas_id" "assignments" ("canvas_id" ∷ [])
    ∷ create_index "ix_assignments_course_id" "assignments" ("course_id" ∷ [])
    ∷ from_submissions

abbrev pub from_enrollments : List Operation
from_enrollments =
    create_table enrollments_table
    ∷ create_index "ix_enrollments_tenant_id" "enrollments" ("tenant_id" ∷ [])
    ∷ create_index "ix_enrollments_canvas_id" "enrollments" ("canvas_id" ∷ [])
    ∷ create_index "ix_enrollments_course_id" "enrollments" ("course_id" ∷ [])
    ∷ create_index "ix_enrollments_user_id" "enrollments" ("user_id" ∷ [])
    ∷ from_assignments

abbrev pub from_courses : List Operation
from_courses =
    create_table courses_table
    ∷ create_index "ix_courses_tenant_id" "courses" ("tenant_id" ∷ [])
    ∷ create_index "ix_courses_canvas_id" "courses" ("canvas_id" ∷ [])
    ∷ from_enrollments

abbrev pub from_users : List Operation
from_users =
    create_table users_table
    ∷ create_index "ix_users_tenant_id" "users" ("tenant_id" ∷ [])
    ∷ create_index "ix_users_canvas_id" "users" ("canvas_id" ∷ [])
    ∷ from_courses

abbrev pub from_canvas_credentials : List Operation
from_canvas_credentials =
    create_table canvas_credentials_table
    ∷ create_index "ix_canvas_credentials_tenant_id" "canvas_credentials" ("tenant_id" ∷ [])
    ∷ from_users

abbrev pub from_tenants : List Operation
from_tenants =
    create_table tenants_table
    ∷ create_index "ix_tenants_backend_user_id" "tenants" ("backend_user_id" ∷ [])
    ∷ from_canvas_credentials

abbrev pub upgrade : List Operation
upgrade = from_tenants

-- `downgrade`
abbrev pub downgrade : List Operation
downgrade =
    drop_index "ix_sync_state_tenant_id" "sync_state"
    ∷ drop_table "sync_state"
    ∷ drop_index "ix_submissions_user_id" "submissions"
    ∷ drop_index "ix_submissions_assignment_id" "submissions"
    ∷ drop_index "ix_submissions_canvas_id" "submissions"
    ∷ drop_index "ix_submissions_tenant_id" "submissions"
    ∷ drop_table "submissions"
    ∷ drop_index "ix_assignments_course_id" "assignments"
    ∷ drop_index "ix_assignments_canvas_id" "assignments"
    ∷ drop_index "ix_assignments_tenant_id" "assignments"
    ∷ drop_table "assignments"
    ∷ drop_index "ix_enrollments_user_id" "enrollments"
    ∷ drop_index "ix_enrollments_course_id" "enrollments"
    ∷ drop_index "ix_enrollments_canvas_id" "enrollments"
    ∷ drop_index "ix_enrollments_tenant_id" "enrollments"
    ∷ drop_table "enrollments"
    ∷ drop_index "ix_courses_canvas_id" "courses"
    ∷ drop_index "ix_courses_tenant_id" "courses"
    ∷ drop_table "courses"
    ∷ drop_index "ix_users_canvas_id" "users"
    ∷ drop_index "ix_users_tenant_id" "users"
    ∷ drop_table "users"
    ∷ drop_index "ix_canvas_credentials_tenant_id" "canvas_credentials"
    ∷ drop_table "canvas_credentials"
    ∷ drop_index "ix_tenants_backend_user_id" "tenants"
    ∷ drop_table "tenants"
    ∷ []
