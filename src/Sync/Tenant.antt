-- ===== src/Sync/Tenant.antt =====
-- `sync_tenant` of app/sync/pipeline.py: the transaction, the watermark, the lock, and what each
-- exception becomes. The function catches every exception, so it returns a result and a state.
pub mod Body
pub mod Examples
pub mod Failure
pub mod Outcome
pub mod Parts
pub mod Success
pub mod Atomic
pub mod Kept
pub mod Locks
pub mod Nested
pub mod Isolation
pub mod Unique
use paquitobot_rag.Prelude.{
  ℕ, str_eq, String, Bool, true, false, Option, none, some, [], ◌∷◌, ◌++◌, ◌==◌, ◌&&◌, ◌||◌, not,
  if◌then◌else◌,
}
use paquitobot_rag.Exec.{Exn, Result, Exec, pure, lift, fold_each, ◌>>=◌, ◌>>◌}
use paquitobot_rag.Value.Int.{ℤ}
use paquitobot_rag.Models.{SyncState}
use paquitobot_rag.Query.{update_where}
use paquitobot_rag.Session.{
  Server, Session, flush, rollback, with_begin, enter_begin, close_begin, enter_nested,
  close_nested, try_acquire_sync_lock, release_sync_lock,
}
use paquitobot_rag.Watermark.{find_state, read_watermark, advance_watermark, write_state}
use paquitobot_rag.Sync.State.{
  Env, Run, SyncResult, Status, ErrorClass, canvas_unavailable, schema_drift, auth_rejected,
  unexpected, new_counts, on_session, put_session,
}
use paquitobot_rag.Sync.Resources.{
  sync_self_user, sync_favorite_courses, sync_fallback_enrollments, sync_course_assignments,
}

-- `SYNC_STATE_TABLE`
abbrev pub sync_state_table : String
sync_state_table = "users"

-- `_last_successful_at`
abbrev pub last_run_if_ok : Option SyncState → Option ℕ
last_run_if_ok none = none
last_run_if_ok (some state) = if str_eq state.last_status "ok" then state.last_run_at else none

unfoldable pub last_successful_at : Option SyncState → Option ℕ → Option ℕ
last_successful_at state (some watermark) = some watermark
last_successful_at state none = last_run_if_ok state

-- `_classify_canvas_error`
classify_canvas_error : Option ℕ → ErrorClass
classify_canvas_error none = canvas_unavailable
classify_canvas_error (some status) =
    if status == 401 || status == 403 then auth_rejected else canvas_unavailable

-- The `except` clauses of `sync_tenant`, in their order.
unfoldable pub classify : Exn → ErrorClass
unfolding classify_canvas_error
classify Exn.method_rejected = unexpected
classify (Exn.request_error status) = classify_canvas_error status
classify Exn.schema_drift = schema_drift
classify Exn.pagination_error = schema_drift
classify (Exn.http_error mentions_payload) =
    if mentions_payload then schema_drift else canvas_unavailable
classify Exn.validation_error = schema_drift
classify _ = unexpected

unfoldable pub error_class_name : ErrorClass → String
error_class_name canvas_unavailable = "canvas_unavailable"
error_class_name schema_drift = "schema_drift"
error_class_name auth_rejected = "auth_rejected"
error_class_name unexpected = "unexpected"

-- `_write_failure_state`: an existing state keeps its watermark.
abbrev pub mark_failed : ℕ → ErrorClass → SyncState → SyncState
mark_failed run_at error_class state = record state {
  last_run_at = some run_at;
  last_status = "failed";
  last_error_class = some (error_class_name error_class);
}

abbrev pub failed_mark : Option SyncState → Option ℕ → ℕ → ErrorClass → SyncState → SyncState
failed_mark none previous_watermark run_at error_class state =
    record (mark_failed run_at error_class state) { last_watermark = previous_watermark }
failed_mark (some _) previous_watermark run_at error_class state =
    mark_failed run_at error_class state

module _ (env : Env) (t : ℕ) where
  unfoldable pub write_failure_state : ℕ → Option ℕ → ErrorClass → Exec Session (Unit {0})
  write_failure_state run_at previous_watermark error_class = do
    found ← find_state t sync_state_table
    write_state t sync_state_table (failed_mark found previous_watermark run_at error_class) found
    flush env.server

  -- The caller's transaction is lost where its flush fails.
  abbrev or_lost : Result (Unit {0}) × Session → Session
  or_lost (Result.ok _, s) = s
  or_lost (Result.err _, s) = record s { db = s.durable }

  -- `_finish_failure` but its result: the failure is recorded in a transaction of its own, or in
  -- the caller's; an exception of that is swallowed.
  unfoldable pub record_failure : Bool → ℕ → Option ℕ → ErrorClass → Session → Session
  record_failure owns_transaction run_at previous_watermark error_class s =
      let m = write_failure_state run_at previous_watermark error_class in
      if owns_transaction
      then (with_begin env.server m (if s.in_transaction then rollback s else s)).1
      else or_lost (m s)

  abbrev failure_result : ℕ → ErrorClass → Run → SyncResult
  failure_result run_at error_class r = record {
    tenant_id = t;
    status = Status.failed;
    last_error_class = some error_class;
    last_successful_at = r.previous_successful_at;
    last_run_at = run_at;
    counts = r.counts;
    lock_acquired = false;
  }

  unfoldable pub finish_failure : Bool → ℕ → ErrorClass → Run → SyncResult × Run
  unfolding record_failure
  finish_failure owns_transaction run_at error_class r = (
    failure_result run_at error_class r,
    put_session (record_failure owns_transaction run_at r.previous_watermark error_class r.session)
        r,
  )

  -- The part of the body under an acquired lock.
  unfoldable pub sync_resources : Option ℕ → Exec Run (Unit {0})
  sync_resources updated_after = do
    tenant_user_id ← sync_self_user env t
    (course_ids, embedded) ← sync_favorite_courses env t tenant_user_id updated_after
    if embedded == 0 then sync_fallback_enrollments env t tenant_user_id else pure tt
    fold_each course_ids tt
        (λ course_id _. sync_course_assignments env t tenant_user_id course_id updated_after)

  locked_result : ℕ → Exec Run SyncResult
  locked_result run_at r = (
    Result.ok (record {
      tenant_id = t;
      status = Status.locked;
      last_error_class = none;
      last_successful_at = r.previous_successful_at;
      last_run_at = run_at;
      counts = r.counts;
      lock_acquired = false;
    }),
    r,
  )

  ok_result : ℕ → Exec Run SyncResult
  ok_result run_at r = (
    Result.ok (record {
      tenant_id = t;
      status = Status.ok;
      last_error_class = none;
      last_successful_at = some run_at;
      last_run_at = run_at;
      counts = r.counts;
      lock_acquired = true;
    }),
    r,
  )

  abbrev is_acquired : Result Bool → Bool
  is_acquired (Result.ok b) = b
  is_acquired (Result.err _) = false

  pub locked_body : ℕ → Option ℕ → Bool → Exec Run SyncResult
  unfolding sync_resources locked_result ok_result
  locked_body run_at previous_watermark false = locked_result run_at
  locked_body run_at previous_watermark true = do
    sync_resources previous_watermark
    on_session (advance_watermark t sync_state_table env.server run_at "ok" none (some run_at))
    ok_result run_at

  -- `previous_watermark` and `previous_successful_at`
  remember : Option ℕ → Option ℕ → Exec Run (Unit {0})
  remember watermark successful r = (
    Result.ok tt,
    record r { previous_watermark = watermark; previous_successful_at = successful },
  )

  -- The lock is taken here unless the caller holds it (`lock_id`).
  pub acquire : Bool → Exec Run Bool
  acquire true r = (Result.ok true, r)
  acquire false r =
      let (result, s) = try_acquire_sync_lock env.server t r.session in
      (result, record r { session = s; acquired_here = is_acquired result })

  -- The body of `with scope:`
  unfoldable pub body : Bool → ℕ → Exec Run SyncResult
  unfolding remember acquire locked_body
  body lock_held run_at = do
    watermark ← on_session (read_watermark t sync_state_table)
    state ← on_session (find_state t sync_state_table)
    remember watermark (last_successful_at state watermark)
    acquired ← acquire lock_held
    locked_body run_at watermark acquired

  -- `with scope:`, where the session's own transaction begins and ends, or a savepoint's.
  unfoldable pub with_scope : {A : Type 0} → Bool → Exec Run A → Exec Run A
  with_scope true m r =
      let (result, r') = m (put_session (enter_begin r.session) r) in
      let (result', s) = close_begin env.server (result, r'.session) in (result', put_session s r')
  with_scope false m r =
      let (result, r') = m (put_session (enter_nested r.session) r) in
      let (result', s) = close_nested env.server r.session.db (result, r'.session) in
      (result', put_session s r')

  abbrev pub handle : Bool → ℕ → Result SyncResult × Run → SyncResult × Run
  handle owns run_at (Result.ok result, r) = (result, r)
  handle owns run_at (Result.err e, r) = finish_failure owns run_at (classify e) r

  -- `finally:`
  pub release_if_acquired : SyncResult × Run → SyncResult × Run
  release_if_acquired (result, r) =
      (result, if r.acquired_here then put_session (release_sync_lock t r.session) r else r)

  abbrev pub start : Session → Run
  start s = record {
    session = s;
    counts = new_counts;
    calls = 0;
    previous_watermark = none;
    previous_successful_at = none;
    acquired_here = false;
  }

  -- `run_at` is the argument `now`, or else the time of the call.
  unfoldable pub sync_tenant : Bool → ℕ → Session → SyncResult × Run
  sync_tenant lock_held run_at s =
      let owns_transaction = not s.in_transaction in
      release_if_acquired (
        handle owns_transaction run_at
          (with_scope owns_transaction (body lock_held run_at) (start s)))
