-- ===== src/Scheduler.antt =====
-- app/sync/scheduler.py: the tenants of a tick, and the run of one of them on a session of its own.
-- A run is one sequence of steps here; Pool has the order in which those of a tick are started.
pub mod Runs
pub mod Pool
pub mod Lifecycle
pub mod Examples
use paquitobot_rag.Prelude.{
  ℕ, suc, String, Bool, true, false, List, [], ◌∷◌, min, ◌==◌, if◌then◌else◌,
}
use paquitobot_rag.Exec.{Exn, Result, ok, err, value_error, Exec}
use paquitobot_rag.Lock.{release_memory_lock, contains}
use paquitobot_rag.Service.{is_true, run_sync_for_tenant}
use paquitobot_rag.Session.{Session, enter_begin, close_begin, try_acquire_sync_lock}
use paquitobot_rag.Sync.State.{Env, CanvasClient}
use paquitobot_rag.Sync.Tenant.{sync_tenant}
use paquitobot_rag.Tenancy.Stored.{CanvasCredential}

-- `MAX_WORKERS_PER_PROCESS`
abbrev pub max_workers_per_process : ℕ
max_workers_per_process = 4

-- `_WorkerPool(max_workers)`
unfoldable pub new_worker_pool : ℕ → Result ℕ
new_worker_pool max_workers =
    if max_workers == 0 then err value_error else ok (min max_workers_per_process max_workers)

-- `_list_tenant_ids`: `select(CanvasCredential.tenant_id).distinct()`
unfoldable pub list_tenant_ids : List CanvasCredential → List ℕ
list_tenant_ids [] = []
list_tenant_ids (row ∷ rows) =
    let rest = list_tenant_ids rows in
    if contains row.tenant_id rest then rest else row.tenant_id ∷ rest

module _ (env : Env) (t : ℕ) where
  call_sync_tenant : Exec Session (Unit {0})
  call_sync_tenant s =
      let (result, run) =
        sync_tenant env t true (env.server.now s.tick) (record s { tick = suc s.tick }) in
      (ok tt, run.session)

  -- What is done with the lock, or without it.
  pub unless_busy : Result Bool → Exec Session (Unit {0})
  unfolding call_sync_tenant
  unless_busy (err e) s = (err e, s)
  unless_busy (ok false) s = (ok tt, s)
  unless_busy (ok true) s = call_sync_tenant s

  -- `finally:`
  abbrev pub release_if : Bool → Session → Session
  release_if acquired s =
      if acquired then record s { process = release_memory_lock t s.process } else s

  -- The session of `_run_for_tenant`; every exception is swallowed.
  unfoldable pub run_on_session : Session → Session
  unfolding unless_busy
  run_on_session s =
      let (acquired, entered) = try_acquire_sync_lock env.server t (enter_begin s) in
      release_if (is_true env t acquired) (close_begin env.server (unless_busy acquired entered)).1

-- `_run_for_tenant`, with the token that is stored, or the exception of reading it; a service that
-- was supplied runs the tenant instead, and its exception goes to `gather`, which keeps it.
unfoldable pub run_for_tenant :
    Env → (String → CanvasClient) → Bool → ℕ → Result String → Session → Session
unfolding run_on_session
run_for_tenant env client_factory true t token s =
    (run_sync_for_tenant env client_factory true t token s).1
run_for_tenant env client_factory false t (err e) s = s
run_for_tenant env client_factory false t (ok token) s =
    run_on_session (record env { client = client_factory token }) t s
