-- ===== src/Service.antt =====
-- app/services/canvas_service.py: the rate limit on manual runs, and one run of the pipeline under
-- the tenant's lock. Times are in microseconds, on exact numbers; the times of the pipeline's own
-- state are those of the same clock.
pub mod Locked
pub mod Throttle
pub mod Post
pub mod Examples
use paquitobot_rag.Prelude.{
  ℕ, suc, ◌+◌, ◌-◌, ◌*◌, ◌/◌, max, ltb, String, Bool, true, false, Option, none, some,
  if◌then◌else◌,
}
use paquitobot_rag.Exec.{
  Exn, Result, ok, err, tenant_not_found, token_invalid, credentials_missing, sync_throttled, Exec,
  pure, raise, lift, ◌>>=◌, ◌>>◌,
}
use paquitobot_rag.Models.{SyncState}
use paquitobot_rag.Session.{
  Server, Session, draw, enter_begin, close_begin, enter_nested, close_nested, rollback,
  try_acquire_sync_lock, release_sync_lock,
}
use paquitobot_rag.Tenancy.Access.{excepting}
use paquitobot_rag.Watermark.{find_state, write_state, stamp, read_watermark}
use paquitobot_rag.Sync.State.{Env, CanvasClient, SyncResult, Status, new_counts}
use paquitobot_rag.Sync.Tenant.{sync_tenant}

abbrev pub manual_sync : String
manual_sync = "manual_sync"

-- `max(1, int(minimum - elapsed + 0.999))`, and the `max` of `SyncThrottled`
unfoldable pub retry_after : ℕ → ℕ → ℕ → ℕ
retry_after minimum last_run now =
    max 1 (max 1 ((last_run + minimum * 1000000 - now + 999000) / 1000000))

abbrev pub last_run_of : Option SyncState → Option ℕ
last_run_of none = none
last_run_of (some row) = row.last_run_at

-- The session begins a transaction with its first query.
abbrev pub autobegin : Session → Session
autobegin s = if s.in_transaction then s else enter_begin s

module _ (server : Server) (t : ℕ) where
  -- `select_sync_state_last_run`
  unfoldable pub select_sync_state_last_run : String → Exec Session (Option ℕ)
  select_sync_state_last_run table = do row ← find_state t table; pure (last_run_of row)

  -- `elapsed < minimum`, where the clock may have gone back
  unfoldable pub check_window : ℕ → Option ℕ → ℕ → Exec Session (Unit {0})
  check_window minimum none now = pure tt
  check_window minimum (some last_run) now =
      if ltb now (last_run + minimum * 1000000)
      then raise (sync_throttled (retry_after minimum last_run now))
      else pure tt

  -- `_stamp_manual_run`
  unfoldable pub stamp_manual_run : ℕ → Exec Session (Unit {0})
  stamp_manual_run now = do
    state ← find_state t manual_sync
    write_state t manual_sync (stamp now now "ok" none) state

  -- `enforce_manual_rate_limit`, with the interval of the settings
  unfoldable pub enforce_manual_rate_limit : ℕ → Exec Session ℕ
  unfolding select_sync_state_last_run check_window stamp_manual_run
  enforce_manual_rate_limit interval s =
      (do
        last_run ← select_sync_state_last_run manual_sync
        now ← draw server.now
        check_window (max 1 interval) last_run now
        stamp_manual_run now
        pure now)
        (autobegin s)

-- `session.close()`, by the end of `get_db_session` or of `with self._session_factory()`
unfoldable pub close : {A : Type 0} → Result A × Session → Result A × Session
close (r, s) = (r, if s.in_transaction then rollback s else s)

-- `except (TenantNotFound, CanvasTokenInvalid, UnicodeError)`
abbrev pub credentials_error : Exn → Exn
credentials_error tenant_not_found = credentials_missing
credentials_error token_invalid = credentials_missing
credentials_error e = e

module _ (env : Env) (t : ℕ) where
  -- `counts={}` is a count of nothing.
  abbrev pub busy_result : ℕ → Option ℕ → SyncResult
  busy_result now watermark = record {
    tenant_id = t;
    status = Status.locked;
    last_error_class = none;
    last_successful_at = watermark;
    last_run_at = now;
    counts = new_counts;
    lock_acquired = false;
  }

  busy : Exec Session SyncResult
  busy = do
    watermark ← read_watermark t "users"
    now ← draw env.server.now
    pure (busy_result now watermark)

  -- `sync_tenant(session, tenant_id, client, lock_id=…)`, which reads the clock
  pub call_sync_tenant : Exec Session SyncResult
  call_sync_tenant s =
      let (result, run) =
        sync_tenant env t true (env.server.now s.tick) (record s { tick = suc s.tick }) in
      (ok result, run.session)

  pub locked_or_synced : Result Bool → Exec Session SyncResult
  unfolding busy call_sync_tenant
  locked_or_synced (err e) = raise e
  locked_or_synced (ok false) = busy
  locked_or_synced (ok true) = call_sync_tenant

  abbrev pub is_true : Result Bool → Bool
  is_true (ok b) = b
  is_true (err e) = false

  -- `with scope:`, entered and left
  abbrev pub enter_scope : Session → Session
  enter_scope s = if s.in_transaction then enter_nested s else enter_begin s

  abbrev pub leave_scope : Session → Result SyncResult × Session → Result SyncResult × Session
  leave_scope s p =
      if s.in_transaction then close_nested env.server s.db p else close_begin env.server p

  -- `finally:`
  abbrev pub release_if : Bool → Result SyncResult × Session → Result SyncResult × Session
  release_if acquired (result, s) = (result, if acquired then release_sync_lock t s else s)

  -- `_run_locked`
  unfoldable pub run_locked : Exec Session SyncResult
  unfolding locked_or_synced
  run_locked s =
      let (acquired, entered) = try_acquire_sync_lock env.server t (enter_scope s) in
      release_if (is_true acquired) (leave_scope s (locked_or_synced acquired entered))

  -- `_run_with_owned_session`, on the new session
  unfoldable pub run_with_owned_session : Exec Session SyncResult
  unfolding run_locked close
  run_with_owned_session s = close (run_locked s)

-- `run_sync_for_tenant`, on a new session or on the caller's: the client is made with the stored
-- token.
unfoldable pub run_sync_for_tenant :
    Env → (String → CanvasClient) → Bool → ℕ → Result String → Exec Session SyncResult
unfolding run_locked run_with_owned_session
run_sync_for_tenant env client_factory owned t token = do
  token' ← lift (excepting credentials_error token)
  let env' : Env = record env { client = client_factory token' } in
      if owned then run_with_owned_session env' t else run_locked env' t
