-- ===== src/Sync/Resources.antt =====
-- The reads of Canvas and the writes of rows of app/sync/pipeline.py, resource by resource.
pub mod Preserved
use paquitobot_rag.Prelude.{
  ℕ, zero, suc, String, Bool, true, false, Option, none, some, List, [], ◌∷◌, ◌++◌, ◌==◌, ◌&&◌, not,
  if◌then◌else◌,
}
use paquitobot_rag.Exec.{
  Exn, Result, ok, err, request_error, schema_drift, type_error, assertion_error, Exec, pure, raise,
  lift, fold_each, ◌>>=◌, ◌>>◌,
}
use paquitobot_rag.Value.{
  Value, Items, Fields, null, int, str, uuid, list, dict, nil, cons, get, put, pop, keep,
  map_values, is_null, int_of, text_of,
}
use paquitobot_rag.Value.Int.{ℤ, pos}
use paquitobot_rag.Dto.Schema.{DtoClass}
use paquitobot_rag.Dto.{Pydantic, same_user, strip_peer_data, to_payload}
use paquitobot_rag.Models.{Model, Row}
use paquitobot_rag.Session.{Session, flush}
use paquitobot_rag.Repository.{find_row, upsert_by_canvas_id, soft_delete_if_inactive}
use paquitobot_rag.Sync.State.{
  Endpoint, users_self, favorite_courses, self_enrollments, course_assignments, Params, Env, Counts,
  Run, on_session, count, count_user, count_course, count_enrollment, count_assignment,
  count_submission, count_dropped, count_soft_deleted, get_json, for_items,
}

-- `if not isinstance(payload, dict): raise CanvasSchemaDriftError`
abbrev pub dict_or_drift : Value → Result Fields
dict_or_drift (dict f) = ok f
dict_or_drift _ = err schema_drift

-- `_parse`
abbrev pub validated : Option Fields → Result Fields
validated (some dto) = ok dto
validated none = err schema_drift

unfoldable pub parse : Pydantic → DtoClass → Fields → Result Fields
parse p c payload = validated (p.model_validate c payload)

-- `int(dto.id)`; `int(None)` is a `TypeError`.
abbrev int_or_raise : Option ℤ → Result ℤ
int_or_raise (some n) = ok n
int_or_raise none = err type_error

unfoldable pub int_field : String → Fields → Result ℤ
int_field k dto = int_or_raise (int_of (get k dto))

-- `dto.x or fallback`: zero is falsy.
abbrev or_else : Option ℤ → Option ℤ → Option ℤ
or_else none fallback = fallback
or_else (some (pos zero)) fallback = fallback
or_else (some n) fallback = some n

-- `payload[k] = value`, or `payload.pop(k, None)` where the target has no row
abbrev pub link : String → Option ℕ → Fields → Fields
link k none payload = pop k payload
link k (some id) payload = put k (uuid id) payload

abbrev id_of : Option Row → Option ℕ
id_of none = none
id_of (some row) = some row.id

abbrev to_list : Items → List Value
to_list nil = []
to_list (cons v rest) = v ∷ to_list rest

-- `filtered.enrollments or []`
abbrev items_of : Value → List Value
items_of (list items) = to_list items
items_of _ = []

module _ (env : Env) (t : ℕ) where
  -- The upsert and the flush of one row.
  unfoldable pub store : Model → ℤ → Fields → Exec Run Row
  store m canvas_id payload = do
    row ← on_session (upsert_by_canvas_id env.server m t canvas_id payload)
    on_session (flush env.server)
    pure row

  -- Its soft deletion where the state is inactive, and the counts.
  unfoldable pub retire : Model → ℤ → Value → (Counts → Counts) → Exec Run (Unit {0})
  retire m canvas_id state counted = do
    deleted ←
        on_session (soft_delete_if_inactive env.lower env.server m t canvas_id (text_of state))
    count (count_soft_deleted deleted)
    count counted

  -- `assert instance.tenant_id == tenant_id`
  unfoldable pub assert_own : Row → Exec Run (Unit {0})
  assert_own row = if row.tenant_id == t then pure tt else raise assertion_error

  -- `_resolve_local_uuid`
  unfoldable pub resolve_local_uuid : Model → Option ℤ → Exec Run (Option ℕ)
  resolve_local_uuid m none = pure none
  resolve_local_uuid m (some canvas_id) = do
    row ← on_session (find_row m t canvas_id)
    pure (id_of row)

  -- `_sync_self_user`
  unfoldable pub sync_self_user : Exec Run ℤ
  unfolding store assert_own parse int_field
  sync_self_user = do
    answer ← get_json env.client users_self
    payload ← lift (dict_or_drift answer)
    dto ← lift (parse env.pydantic DtoClass.user payload)
    id ← lift (int_field "id" dto)
    row ← store Model.user id (to_payload env.pydantic DtoClass.user dto)
    count count_user
    assert_own row
    pure id

  -- `_upsert_enrollment`
  unfoldable pub upsert_enrollment : Fields → Option ℤ → Exec Run (Unit {0})
  unfolding store retire assert_own resolve_local_uuid int_field
  upsert_enrollment dto fallback_course_id = do
    let payload = to_payload env.pydantic DtoClass.enrollment dto
    course_uuid ←
        resolve_local_uuid Model.course (or_else (int_of (get "course_id" dto)) fallback_course_id)
    user_uuid ← resolve_local_uuid Model.user (int_of (get "user_id" dto))
    id ← lift (int_field "id" dto)
    row ←
        store Model.enrollment id (link "user_id" user_uuid (link "course_id" course_uuid payload))
    retire Model.enrollment id (get "enrollment_state" dto) count_enrollment
    assert_own row

  module _ (tenant_user_id : ℤ) where
    -- An explicit user that is not the tenant's own.
    abbrev is_peer : Fields → Bool
    is_peer dto =
        not (is_null (get "user_id" dto)) && not (same_user (get "user_id" dto) tenant_user_id)

    -- One enrollment that a course embeds; the count is that of those that were kept.
    sync_embedded_dto : ℤ → Fields → ℕ → Exec Run ℕ
    unfolding upsert_enrollment
    sync_embedded_dto course_id dto kept =
        if is_null (get "id" dto)
        then (do count count_dropped; pure kept)
        else if is_peer dto
        then (do count count_dropped; pure kept)
        else (do upsert_enrollment dto (some course_id); pure (suc kept))

    -- The list of a validated course holds enrollment DTOs.
    sync_embedded : ℤ → Value → ℕ → Exec Run ℕ
    unfolding sync_embedded_dto
    sync_embedded course_id (dict dto) kept = sync_embedded_dto course_id dto kept
    sync_embedded course_id _ kept = raise type_error

    sync_course_dto : Option Fields → List ℤ × ℕ → Exec Run (List ℤ × ℕ)
    unfolding store retire int_field sync_embedded
    sync_course_dto none acc = do count count_dropped; pure acc
    sync_course_dto (some course) (course_ids, embedded) = do
      id ← lift (int_field "id" course)
      store Model.course id (to_payload env.pydantic DtoClass.course course)
      retire Model.course id (get "workflow_state" course) count_course
      embedded' ← fold_each (items_of (get "enrollments" course)) embedded (sync_embedded id)
      pure (course_ids ++ id ∷ [], embedded')

    -- The parsed and stripped DTO of one item of a page.
    unfoldable pub read_item : DtoClass → Value → Exec Run (Option Fields)
    unfolding parse
    read_item c item = do
      payload ← lift (dict_or_drift item)
      dto ← lift (parse env.pydantic c payload)
      lift (strip_peer_data env.pydantic c dto tenant_user_id)

    -- `_sync_favorite_courses`
    unfoldable pub sync_favorite_courses : Option ℕ → Exec Run (List ℤ × ℕ)
    unfolding read_item sync_course_dto
    sync_favorite_courses updated_after =
        for_items env.client favorite_courses
          (record { includes = false; updated_after = updated_after }) ([], 0)
          (λ item acc. read_item DtoClass.course item >>= λ dto. sync_course_dto dto acc)

    sync_enrollment_dto : Option Fields → Exec Run (Unit {0})
    unfolding upsert_enrollment
    sync_enrollment_dto none = count count_dropped
    sync_enrollment_dto (some dto) =
        if is_null (get "id" dto)
        then count count_dropped
        else upsert_enrollment dto (int_of (get "course_id" dto))

    -- `except CanvasRequestError as exc: if exc.status_code != 404: raise`
    abbrev forgive_missing : Exn → Result (Unit {0})
    forgive_missing (request_error (some status)) =
        if status == 404 then ok tt else err (request_error (some status))
    forgive_missing e = err e

    catch_missing : Exec Run (Unit {0}) → Exec Run (Unit {0})
    catch_missing m r =
        let (result, r') = m r in (elim result [ ok _ ↦ ok tt | err e ↦ forgive_missing e ], r')

    -- `_sync_fallback_enrollments`
    unfoldable pub sync_fallback_enrollments : Exec Run (Unit {0})
    unfolding catch_missing read_item sync_enrollment_dto
    sync_fallback_enrollments = catch_missing (
        for_items env.client self_enrollments (record { includes = false; updated_after = none }) tt
          (λ item _. read_item DtoClass.enrollment item >>= sync_enrollment_dto))

    -- One key of `_normalize_assignment_nested`
    normalize_value : String → DtoClass → Fields → Value → Result Fields
    normalize_value key c payload null = ok payload
    normalize_value key c payload (dict value) = elim (env.pydantic.model_validate c value) [
      | none ↦ err schema_drift
      | some nested ↦ ok (
          put key (dict (map_values env.pydantic.dump_json (keep (λ _ v. not (is_null v)) nested)))
            payload)
    ]
    normalize_value key c payload _ = err schema_drift

    normalize_key : String → DtoClass → Fields → Result Fields
    unfolding normalize_value
    normalize_key key c payload = normalize_value key c payload (get key payload)

    abbrev then_normalize : String → DtoClass → Result Fields → Result Fields
    then_normalize key c (ok payload) = normalize_key key c payload
    then_normalize key c (err e) = err e

    -- `_normalize_assignment_nested`
    unfoldable pub normalize_assignment_nested : Fields → Result Fields
    unfolding normalize_key
    normalize_assignment_nested payload = then_normalize "lock_info" DtoClass.lock_info (
        then_normalize "availability_status" DtoClass.availability_status
          (normalize_key "score_statistics" DtoClass.score_statistics payload))

    -- `str(payload["late_policy_status"])`, of an `int` or a text
    abbrev text_late_policy : Value → Fields → Fields
    text_late_policy (int n) payload = put "late_policy_status" (str (env.decimal n)) payload
    text_late_policy _ payload = payload

    -- `_upsert_submission`
    unfoldable pub upsert_submission : Fields → ℤ → Exec Run (Unit {0})
    unfolding store retire assert_own resolve_local_uuid int_field
    upsert_submission dto assignment_canvas_id = do
      let payload = to_payload env.pydantic DtoClass.submission dto
      assignment_uuid ←
          resolve_local_uuid Model.assignment
            (or_else (int_of (get "assignment_id" dto)) (some assignment_canvas_id))
      user_uuid ← resolve_local_uuid Model.user (int_of (get "user_id" dto))
      let linked = link "user_id" user_uuid (link "assignment_id" assignment_uuid payload)
      id ← lift (int_field "id" dto)
      row ← store Model.submission id (text_late_policy (get "late_policy_status" linked) linked)
      retire Model.submission id (get "workflow_state" dto) count_submission
      assert_own row

    sync_submission_value : ℤ → Value → Exec Run (Unit {0})
    unfolding upsert_submission
    sync_submission_value assignment_id null = pure tt
    sync_submission_value assignment_id (dict dto) =
        if is_peer dto then count count_dropped else upsert_submission dto assignment_id
    sync_submission_value assignment_id _ = raise type_error

    sync_assignment_dto : Option ℕ → Option Fields → Exec Run (Unit {0})
    unfolding store retire assert_own int_field normalize_assignment_nested sync_submission_value
    sync_assignment_dto course_uuid none = count count_dropped
    sync_assignment_dto course_uuid (some dto) = do
      payload ← lift (
          normalize_assignment_nested
            (link "course_id" course_uuid (to_payload env.pydantic DtoClass.assignment dto)))
      id ← lift (int_field "id" dto)
      row ← store Model.assignment id payload
      retire Model.assignment id (get "workflow_state" dto) count_assignment
      assert_own row
      sync_submission_value id (get "submission" dto)

    -- `_sync_course_assignments`
    unfoldable pub sync_course_assignments : ℤ → Option ℕ → Exec Run (Unit {0})
    unfolding resolve_local_uuid read_item sync_assignment_dto
    sync_course_assignments course_id updated_after = do
      course_uuid ← resolve_local_uuid Model.course (some course_id)
      for_items env.client (course_assignments course_id)
          (record { includes = true; updated_after = updated_after }) tt
          (λ item _. read_item DtoClass.assignment item >>= sync_assignment_dto course_uuid)
