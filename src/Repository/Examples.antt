-- ===== src/Repository/Examples.antt =====
-- A table with a row of tenant 1 and one of tenant 2 under the same Canvas id.
use paquitobot_rag.Prelude.{
  ℕ, ◌≡◌, refl, String, true, false, none, some, List, [], ◌∷◌, ◌||◌, arith, if◌then◌else◌,
}
use paquitobot_rag.Exec.{ok, ◌>>=◌}
use paquitobot_rag.Value.{
  Fields, null, int, str, time, end, field, get, has_key, is_null, member, keep, put,
}
use paquitobot_rag.Value.Int.{pos}
use paquitobot_rag.Query.{select, scalar_one_or_none}
use paquitobot_rag.Models.{Model, Row, known_columns}
use paquitobot_rag.Session.{Server, Session}
use paquitobot_rag.Repository.{
  find_row, writable, set_attributes, upsert_by_canvas_id, soft_delete_if_inactive,
  assert_tenant_fk_target,
}
use paquitobot_rag.Repository.Laws.{old_attrs}
use paquitobot_rag.Repository.Columns.{is_assigned, upsert_columns}
use paquitobot_rag.Repository.Keys.{HasUniqueKeys}
use paquitobot_rag.Repository.Revival.{upsert-soft_delete_keeps_deleted}

abbrev server : Server
server = record {
  uuid4 = λ n. n;
  now = λ n. n;
  accepts = λ _. true;
  commits = λ _. true;
  try_advisory = λ _ _. true;
}

abbrev course : ℕ → ℕ → String → Row
course id tenant name = record {
  id = id;
  tenant_id = tenant;
  canvas_id = pos 30;
  attrs = field "name" (str name) (field "deleted_at" null end);
}

abbrev rows_of : Model → List Row
rows_of Model.course = course 11 1 "old" ∷ course 12 2 "other" ∷ []
rows_of _ = []

abbrev tables_of : (Model → List Row) → Session
tables_of tables = record {
  sid = 1;
  postgres = false;
  db = record { tables = tables; states = [] };
  durable = record { tables = tables; states = [] };
  in_transaction = true;
  tick = 100;
  process = record { registry = λ _. none; info = λ _. [] };
}

abbrev shared : Session
shared = tables_of rows_of

-- The payload names a column, a stamped column, and no column.
abbrev payload : Fields
payload = field "name" (str "new") (field "created_at" (time 5) (field "grader" (int (pos 9)) end))

abbrev renamed : Row
renamed = record (course 11 1 "old") {
  attrs = field "name" (str "new") (field "deleted_at" null end);
}

upsert_runs : (upsert_by_canvas_id server Model.course 1 (pos 30) payload shared).0 ≡ ok renamed
unfolding upsert_by_canvas_id find_row select scalar_one_or_none ◌>>=◌ writable keep member
    known_columns set_attributes put
upsert_runs = refl

find_runs : (find_row Model.course 1 (pos 30) shared).0 ≡ ok (some (course 11 1 "old"))
unfolding find_row select scalar_one_or_none
find_runs = refl

upsert_columns_example :
    (renamed.tenant_id ≡ 1)
    × (renamed.canvas_id ≡ pos 30)
    × ((j : String)
        → get j renamed.attrs ≡ (
            if is_assigned Model.course payload j
            then get j (writable Model.course payload)
            else get j (old_attrs server Model.course 1 (pos 30) (some (course 11 1 "old")))))
upsert_columns_example =
    upsert_columns server Model.course 1 (pos 30) payload (some (course 11 1 "old")) shared renamed
      find_runs upsert_runs

-- Every key has at most one row.
rows_of-HasUniqueKeys : HasUniqueKeys rows_of
unfolding select
rows_of-HasUniqueKeys Model.user t c = omega arith
rows_of-HasUniqueKeys Model.enrollment t c = omega arith
rows_of-HasUniqueKeys Model.assignment t c = omega arith
rows_of-HasUniqueKeys Model.submission t c = omega arith
rows_of-HasUniqueKeys Model.course t c = ground arith

payload_names_no_key :
    (has_key "tenant_id" (writable Model.course payload)
      || has_key "canvas_id" (writable Model.course payload))
    ≡ false
unfolding has_key writable keep member known_columns
payload_names_no_key = refl

-- One tenant's table.
abbrev rows_alone : Model → List Row
rows_alone Model.course = course 11 1 "old" ∷ []
rows_alone _ = []

guard_runs :
    (assert_tenant_fk_target Model.course 1 (pos 30) (tables_of rows_alone)).0
    ≡ ok (course 11 1 "old")
unfolding assert_tenant_fk_target ◌>>=◌ select scalar_one_or_none
guard_runs = refl

-- The course was deleted at time 3.
abbrev deleted : Row
deleted = record {
  id = 11;
  tenant_id = 1;
  canvas_id = pos 30;
  attrs = field "name" (str "old") (field "deleted_at" (time 3) end);
}

abbrev rows_deleted : Model → List Row
rows_deleted Model.course = deleted ∷ []
rows_deleted _ = []

abbrev published : Row
published = record deleted { attrs = field "name" (str "new") (field "deleted_at" (time 3) end) }

deleted_found : (find_row Model.course 1 (pos 30) (tables_of rows_deleted)).0 ≡ ok (some deleted)
unfolding find_row select scalar_one_or_none
deleted_found = refl

deleted_at_old : is_null (get "deleted_at" deleted.attrs) ≡ false
unfolding get is_null
deleted_at_old = refl

payload_unnamed : is_assigned Model.course payload "deleted_at" ≡ false
unfolding has_key writable keep member known_columns
payload_unnamed = refl

published_runs :
    (upsert_by_canvas_id server Model.course 1 (pos 30) payload (tables_of rows_deleted)).0
    ≡ ok published
unfolding upsert_by_canvas_id find_row select scalar_one_or_none ◌>>=◌ writable keep member
    known_columns set_attributes put
published_runs = refl

upsert-soft_delete_keeps_deleted_example :
    let s' =
      (upsert_by_canvas_id server Model.course 1 (pos 30) payload (tables_of rows_deleted)).1 in
    let (result, s'') =
      soft_delete_if_inactive (λ s. s) server Model.course 1 (pos 30) (some "available") s' in
    (result ≡ ok false)
    × ((find_row Model.course 1 (pos 30) s'').0 ≡ ok (some published))
    × (get "deleted_at" published.attrs ≡ get "deleted_at" deleted.attrs)
upsert-soft_delete_keeps_deleted_example =
    upsert-soft_delete_keeps_deleted (λ s. s) server Model.course 1 (pos 30) payload
      (some "available") (tables_of rows_deleted) deleted published deleted_found deleted_at_old
      payload_unnamed published_runs
