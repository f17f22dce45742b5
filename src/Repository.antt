-- ===== src/Repository.antt =====
-- app/repositories/upsert.py: rows by `(tenant_id, canvas_id)`, soft deletion, and the guard of
-- foreign keys across tenants. The factory of app/core/db.py sets `autoflush=False`, and every caller
-- flushes next after an upsert: a write here is one that is flushed, so the next query finds it. The
-- columns created_at and updated_at, which the server stamps at a flush, have no values here.
pub mod Columns
pub mod Deletion
pub mod Durable
pub mod Laws
pub mod Revival
pub mod Examples
pub mod Keys
pub mod Tenants
pub mod Writes
use paquitobot_rag.Prelude.{
  ℕ, String, Bool, true, false, Option, none, some, List, [], ◌∷◌, ◌++◌, ◌==◌, ◌&&◌, ◌||◌, not,
  str_eq, if◌then◌else◌,
}
use paquitobot_rag.Exec.{
  Result, ok, err, type_error, cross_tenant, Exec, pure, raise, lift, gets, modify, ◌>>=◌, ◌>>◌,
}
use paquitobot_rag.Value.{
  Value, Fields, end, field, null, time, get, has_key, put, keep, is_null, member,
}
use paquitobot_rag.Value.Int.{ℤ, ◌==ℤ◌}
use paquitobot_rag.Query.{select, scalar_one_or_none, update_where}
use paquitobot_rag.Models.{Model, Row, Db, known_columns}
use paquitobot_rag.Session.{Server, Session, draw, set_table}

abbrev pub is_row : ℕ → ℤ → Row → Bool
is_row tenant canvas_id row = row.tenant_id == tenant && row.canvas_id ==ℤ canvas_id

-- `select(model).where(tenant_id == …, canvas_id == …)` and `scalar_one_or_none()`
unfoldable pub find_row : Model → ℕ → ℤ → Exec Session (Option Row)
find_row m tenant canvas_id s =
    (scalar_one_or_none (select (is_row tenant canvas_id) (s.db.tables m)), s)

abbrev server_stamped : List String
server_stamped = "id" ∷ "created_at" ∷ "updated_at" ∷ []

-- The payload's keys that are columns, and that the server does not assign.
unfoldable pub writable : Model → Fields → Fields
writable m = keep (λ k _. member k (known_columns m) && not (member k server_stamped))

-- `setattr(existing, key, value)` for every key. The two columns of the natural key are assigned
-- from the arguments afterwards.
unfoldable pub set_attributes : Fields → Fields → Fields
set_attributes end attrs = attrs
set_attributes (field k v rest) attrs =
    let others = set_attributes rest attrs in
    if str_eq k "tenant_id" || str_eq k "canvas_id" then others else put k v others

abbrev pub assign_row : ℕ → ℤ → Fields → Row → Row
assign_row tenant canvas_id filtered row = record row {
  tenant_id = tenant;
  canvas_id = canvas_id;
  attrs = set_attributes filtered row.attrs;
}

module _ (server : Server) (m : Model) (tenant : ℕ) (canvas_id : ℤ) where
  -- `for key, value in filtered.items(): setattr(existing, key, value)`, as it is once flushed, but for
  -- `updated_at`, which `onupdate` stamps
  update_row : Fields → Row → Exec Session Row
  update_row filtered row s =
      let assign = assign_row tenant canvas_id filtered in
      (ok (assign row), set_table m (update_where (is_row tenant canvas_id) assign) s)

  abbrev pub new_row : Fields → ℕ → Row
  new_row filtered id = record {
    id = id;
    tenant_id = tenant;
    canvas_id = canvas_id;
    attrs = set_attributes filtered end;
  }

  -- `model(tenant_id=…, canvas_id=…, **filtered)` and `session.add`: a keyword that is given twice is a
  -- `TypeError`. The row is as the caller's flush leaves it, with the id that `uuid4` gives then.
  insert_row : Fields → Exec Session Row
  insert_row filtered =
      if has_key "tenant_id" filtered || has_key "canvas_id" filtered then raise type_error else (do
        id ← draw server.uuid4
        modify (set_table m (λ rows. rows ++ new_row filtered id ∷ []))
        pure (new_row filtered id))

  pub write_row : Fields → Option Row → Exec Session Row
  unfolding update_row insert_row
  write_row filtered none = insert_row filtered
  write_row filtered (some row) = update_row filtered row

  unfoldable pub upsert_by_canvas_id : Fields → Exec Session Row
  unfolding write_row
  upsert_by_canvas_id payload = do
    existing ← find_row m tenant canvas_id
    write_row (writable m payload) existing

-- `INACTIVE_WORKFLOW_STATES`
abbrev pub inactive_workflow_states : List String
inactive_workflow_states = "deleted" ∷ "inactive" ∷ "completed" ∷ "concluded" ∷ "unpublished" ∷ []

abbrev pub mark_deleted : ℕ → Row → Row
mark_deleted now row = record row { attrs = put "deleted_at" (time now) row.attrs }

-- The two early returns on the state; `lower` is Python's `str.lower`.
unfoldable pub is_inactive : (String → String) → Option String → Bool
is_inactive lower none = false
is_inactive lower (some state) = member (lower state) inactive_workflow_states

module _ (lower : String → String) (server : Server) (m : Model) (tenant : ℕ) (canvas_id : ℤ) where
  -- `row.deleted_at = now or datetime.now(UTC)`, unless there is no row or it is deleted already
  delete_row : Option Row → Exec Session Bool
  delete_row none = pure false
  delete_row (some row) =
      if is_null (get "deleted_at" row.attrs)
      then (do
        now ← draw server.now
        modify (set_table m (update_where (is_row tenant canvas_id) (mark_deleted now)))
        pure true)
      else pure false

  unfoldable pub soft_delete_if_inactive : Option String → Exec Session Bool
  unfolding delete_row is_inactive
  soft_delete_if_inactive workflow_state =
      if is_inactive lower workflow_state
      then (do row ← find_row m tenant canvas_id; delete_row row)
      else pure false

-- `assert_tenant_fk_target`, for a target model that has a `canvas_id`: all of `Model` do. The
-- query is by the Canvas id alone.
check_target : ℕ → Option Row → Exec Session Row
check_target tenant none = raise cross_tenant
check_target tenant (some row) = if row.tenant_id == tenant then pure row else raise cross_tenant

unfoldable pub assert_tenant_fk_target : Model → ℕ → ℤ → Exec Session Row
unfolding check_target
assert_tenant_fk_target m tenant canvas_id = do
  rows ← gets (λ s. select (λ row. row.canvas_id ==ℤ canvas_id) (s.db.tables m))
  target ← lift (scalar_one_or_none rows)
  check_target tenant target
