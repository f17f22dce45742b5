-- ===== src/Sync/Tenant/Examples.antt =====
-- Runs of `sync_tenant` for tenant 1, whose Canvas user is 7, beside a row of tenant 2: against a
-- Canvas that answers, and against one that answers with status 503.
use paquitobot_rag.Prelude.{
  ℕ, ◌≡◌, ◌≢◌, refl, sym, ◌∙◌, true, false, none, some, List, [], ◌∷◌, arith,
}
use paquitobot_rag.Exec.{Exn, Result, ◌>>=◌, lift, pure, modify, fold_each}
use paquitobot_rag.Value.{
  Value, Fields, int, str, list, dict, nil, cons, end, field, get, has_key, is_null, is_dict,
  int_of, text_of, member, put, pop, keep, map_values,
}
use paquitobot_rag.Value.Int.{pos}
use paquitobot_rag.Query.{select, scalar_one_or_none}
use paquitobot_rag.Models.{Model, Row, SyncState, Db, known_columns}
use paquitobot_rag.Session.{Session, close_begin, try_acquire_sync_lock, flush, set_table, draw}
use paquitobot_rag.Lock.{try_acquire_sqlite}
use paquitobot_rag.Repository.{
  upsert_by_canvas_id, soft_delete_if_inactive, find_row, writable, set_attributes, is_inactive,
}
use paquitobot_rag.Dto.{
  strip_peer_data, strip_mapping, same_user, to_payload, dump_payload, in_payload,
  enrollment_user_id, looks_like_enrollment,
}
use paquitobot_rag.Sync.Resources.{
  sync_self_user, sync_favorite_courses, sync_fallback_enrollments, sync_course_assignments,
  read_item, parse, store, retire, assert_own, resolve_local_uuid, int_field,
  normalize_assignment_nested, upsert_enrollment,
}
use paquitobot_rag.Watermark.{read_watermark, find_state, advance_watermark}
use paquitobot_rag.Repository.Keys.{HasUniqueKeys}
use paquitobot_rag.Repository.Tenants.{SameOthers}
use paquitobot_rag.Sync.State.{
  Env, Endpoint, Response, Status, on_session, get_json, ask, count, for_items,
}
use paquitobot_rag.Sync.Tenant.{
  sync_tenant, release_if_acquired, with_scope, body, finish_failure, sync_resources,
}
use paquitobot_rag.Sync.Tenant.Atomic.{HasWatermark, sync_tenant-HasWatermark}
use paquitobot_rag.Sync.Tenant.Body.{state_in}
use paquitobot_rag.Sync.Tenant.Isolation.{sync_tenant-SameOthers}
use paquitobot_rag.Sync.Tenant.Locks.{HasNoLocks, sync_tenant-HasNoLocks}
use paquitobot_rag.Sync.Tenant.Unique.{sync_tenant-HasUniqueKeys}

abbrev pub one_course : Fields
one_course = field "id" (int (pos 30)) (
    field "name" (str "Logic") (
      field "enrollments"
        (list (
          cons (dict (field "id" (int (pos 5)) (field "user_id" (int (pos 7)) end)))
            (cons (dict (field "id" (int (pos 6)) (field "user_id" (int (pos 8)) end))) nil)))
        end))

abbrev pub pages : Endpoint → List Value
pages Endpoint.favorite_courses = dict one_course ∷ []
pages (Endpoint.course_assignments _) = dict (field "id" (int (pos 40)) end) ∷ []
pages _ = []

abbrev pub env_of : (ℕ → Endpoint → Result Response) → Env
env_of get_response = record {
  pydantic = record { model_validate = λ c f. some f; dump = λ v. v; dump_json = λ v. v };
  client = record {
    get_response = get_response;
    paginate = λ n endpoint params. record { items = pages endpoint; ending = none };
  };
  server = record {
    uuid4 = λ n. n;
    now = λ n. n;
    accepts = λ _. true;
    commits = λ _. true;
    try_advisory = λ _ _. true;
  };
  lower = λ s. s;
  decimal = λ _. "";
}

abbrev pub answering : Env
answering =
    env_of (λ n endpoint. Result.ok (Response.payload (dict (field "id" (int (pos 7)) end))))

abbrev unavailable : Env
unavailable = env_of (λ n endpoint. Result.err (Exn.request_error (some 503)))

abbrev pub foreign : Row
foreign = record {
  id = 900;
  tenant_id = 2;
  canvas_id = pos 30;
  attrs = field "name" (str "Sets") end;
}

abbrev pub rows_of : Model → List Row
rows_of Model.course = foreign ∷ []
rows_of _ = []

-- The state of a success at time 20.
abbrev pub synced : SyncState
synced = record {
  tenant_id = 1;
  table_name = "users";
  last_watermark = some 20;
  last_run_at = some 20;
  last_status = "ok";
  last_error_class = none;
}

abbrev pub before : Db
before = record { tables = rows_of; states = synced ∷ [] }

abbrev pub idle : Session
idle = record {
  sid = 1;
  postgres = false;
  db = before;
  durable = before;
  in_transaction = false;
  tick = 0;
  process = record { registry = λ _. none; info = λ _. [] };
}

pub idle_state : state_in 1 before ≡ Result.ok (some synced)
unfolding select scalar_one_or_none
idle_state = refl

-- The peer's enrollment is dropped, all else is stored.
success_runs :
    let (a, r) = sync_tenant answering 1 false 50 idle in
    (a.status ≡ Status.ok)
    × (a.counts.courses ≡ 1)
    × (a.counts.enrollments ≡ 1)
    × (a.counts.assignments ≡ 1)
    × (a.counts.dropped_peer ≡ 0)
unfolding sync_tenant release_if_acquired with_scope close_begin body ◌>>=◌ on_session
    read_watermark scalar_one_or_none select try_acquire_sync_lock try_acquire_sqlite sync_self_user
    get_json ask finish_failure sync_favorite_courses for_items fold_each read_item parse
    strip_peer_data strip_mapping same_user to_payload count store retire upsert_by_canvas_id
    soft_delete_if_inactive flush assert_own resolve_local_uuid int_field find_row writable
    advance_watermark find_state sync_resources get has_key is_null is_dict int_of text_of member
    put pop keep map_values known_columns set_table set_attributes draw sync_fallback_enrollments
    sync_course_assignments normalize_assignment_nested upsert_enrollment enrollment_user_id
    looks_like_enrollment lift pure modify is_inactive dump_payload in_payload
success_runs = (refl, refl, refl, refl, refl)

failure_runs : (sync_tenant unavailable 1 false 50 idle).0.status ≡ Status.failed
unfolding sync_tenant release_if_acquired with_scope close_begin body ◌>>=◌ on_session
    read_watermark scalar_one_or_none select try_acquire_sync_lock try_acquire_sqlite sync_self_user
    get_json ask finish_failure
failure_runs = refl

failure_is_no_success : (sync_tenant unavailable 1 false 50 idle).0.status ≢ Status.ok
failure_is_no_success h = let apart : Status.failed ≡ Status.ok = sym failure_runs ∙ h in cc

sync_tenant-HasWatermark_example :
    HasWatermark unavailable 1 false 50
      (some 20)
      (sync_tenant unavailable 1 false 50 idle).1.session.durable
sync_tenant-HasWatermark_example =
    sync_tenant-HasWatermark unavailable 1 false 50 idle (some synced) refl idle_state
      failure_is_no_success

sync_tenant-SameOthers_example :
    SameOthers 1 before (sync_tenant answering 1 false 50 idle).1.session.durable
sync_tenant-SameOthers_example =
    sync_tenant-SameOthers answering 1 false 50 idle (some synced) refl idle_state

before-HasUniqueKeys : HasUniqueKeys rows_of
unfolding select
before-HasUniqueKeys Model.user t c = omega arith
before-HasUniqueKeys Model.enrollment t c = omega arith
before-HasUniqueKeys Model.assignment t c = omega arith
before-HasUniqueKeys Model.submission t c = omega arith
before-HasUniqueKeys Model.course t c = ground arith

sync_tenant-HasUniqueKeys_example :
    HasUniqueKeys (sync_tenant answering 1 false 50 idle).1.session.durable.tables
sync_tenant-HasUniqueKeys_example =
    sync_tenant-HasUniqueKeys answering 1 false 50 idle (some synced) refl idle_state
      before-HasUniqueKeys

sync_tenant-HasNoLocks_example :
    HasNoLocks answering 1 false 50 idle
      (some synced)
      (sync_tenant answering 1 false 50 idle).1.session
sync_tenant-HasNoLocks_example =
    sync_tenant-HasNoLocks answering 1 false 50 idle (some synced) refl idle_state
