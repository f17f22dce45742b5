-- ===== src/Sync/Tenant/Isolation.antt =====
-- Tenant isolation of a whole run of `sync_tenant`.
use paquitobot_rag.Prelude.{ℕ, ◌≡◌, Bool, false, Option}
use paquitobot_rag.Exec.{Result}
use paquitobot_rag.Exec.Keeps.{Keeps, Keeps-bind}
use paquitobot_rag.Models.{SyncState, Db}
use paquitobot_rag.Session.{Session}
use paquitobot_rag.Repository.Durable.{flush-Durable}
use paquitobot_rag.Repository.Tenants.{SameOthers, SameOthers-refl, Isolated, flush-Isolated}
use paquitobot_rag.Watermark.Laws.{
  find_state-Isolated, find_state-Durable, write_state-Isolated, write_state-Durable,
}
use paquitobot_rag.Sync.State.{Env, ErrorClass}
use paquitobot_rag.Sync.Tenant.{sync_state_table, sync_tenant, write_failure_state, failed_mark}
use paquitobot_rag.Sync.Tenant.Body.{state_in}
use paquitobot_rag.Sync.Tenant.Failure.{marks}
use paquitobot_rag.Sync.Tenant.Kept.{sync_tenant_kept}
use paquitobot_rag.Sync.Tenant.Parts.{Isolated-kept}

module _ (env : Env) (t : ℕ) (d : Db) where
  write_failure_state-Isolated :
      (run_at : ℕ) (w : Option ℕ) (c : ErrorClass)
      → Keeps (Isolated t d) (write_failure_state env t run_at w c)
  unfolding write_failure_state
  write_failure_state-Isolated run_at w c =
      Keeps-bind _ _ (find_state-Isolated t sync_state_table d sync_state_table) (λ found.
        Keeps-bind _ _
          (write_state-Isolated t sync_state_table d (failed_mark found w run_at c) found
            (marks env t found w run_at c))
          (λ _. flush-Isolated t d env.server))

  pub write_failure_state-Durable :
      (run_at : ℕ) (w : Option ℕ) (c : ErrorClass)
      → Keeps (λ s. s.durable ≡ d) (write_failure_state env t run_at w c)
  unfolding write_failure_state
  write_failure_state-Durable run_at w c =
      Keeps-bind _ _ (find_state-Durable t sync_state_table d) (λ found.
        Keeps-bind _ _
          (write_state-Durable t sync_state_table d (failed_mark found w run_at c) found)
          (λ _. flush-Durable d env.server))

-- A run in its own transaction, on a database where the tenant has at most one sync state, leaves
-- in the durable database every row and every sync state of the other tenants as they were, in
-- their order, whatever Canvas and the server do.
pub sync_tenant-SameOthers :
    (env : Env) (t : ℕ) (lock_held : Bool) (run_at : ℕ) (s : Session) (found : Option SyncState)
    → s.in_transaction ≡ false
    → state_in t s.durable ≡ Result.ok found
    → SameOthers t s.durable (sync_tenant env t lock_held run_at s).1.session.durable
sync_tenant-SameOthers env t lock_held run_at s found idle e =
    sync_tenant_kept env t (SameOthers t s.durable) (Isolated-kept env t s.durable)
      (write_failure_state-Isolated env t s.durable) (write_failure_state-Durable env t) lock_held
      run_at s found idle e (SameOthers-refl t s.durable)
