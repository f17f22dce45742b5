-- ===== src/Sync/Tenant/Parts.antt =====
-- The parts of a run keep the durable database, the other tenants' rows, and the natural keys.
use paquitobot_rag.Prelude.{ℕ, ◌≡◌, refl, sym, some, none, ◌∙◌, Bool-cases, inl, inr}
use mathlib.Core.Path.{subst}
use paquitobot_rag.Models.{Db}
use paquitobot_rag.Session.{Session, Server, try_acquire_sync_lock}
use paquitobot_rag.Repository.Durable.{Durable, upsert-Durable, soft_delete-Durable, flush-Durable}
use paquitobot_rag.Repository.Tenants.{
  SameOthers, Isolated, upsert-Isolated, soft_delete-Isolated, flush-Isolated,
}
use paquitobot_rag.Watermark.Laws.{advance-Durable, advance-Isolated}
use paquitobot_rag.Sync.State.{Env}
use paquitobot_rag.Sync.Tenant.{sync_state_table}
use paquitobot_rag.Sync.Tenant.Body.{IsKeptByRun}

-- The lock changes neither database.
pub try_acquire_keeps :
    (server : Server) (t : ℕ) (s : Session)
    → let s' = (try_acquire_sync_lock server t s).1 in (s'.durable ≡ s.durable) × (s'.db ≡ s.db)
unfolding try_acquire_sync_lock
try_acquire_keeps server t s = elim (Bool-cases s.postgres) [
  | inl on ↦ simp on (refl, refl)
  | inr off ↦ simp off (refl, refl)
]

module _ (env : Env) (t : ℕ) (d : Db) where
  pub Durable-kept : IsKeptByRun env t (Durable d)
  Durable-kept = record {
    resources = record {
      upsert = λ m c payload. upsert-Durable d env.server m t c payload;
      soft_delete = λ m c state. soft_delete-Durable d env.server m t c env.lower state;
      flush_kept = flush-Durable d env.server;
    };
    lock_kept = record { run = λ s h. (try_acquire_keeps env.server t s).0 ∙ h };
    advance =
        λ run_at. advance-Durable t sync_state_table d env.server run_at "ok" none (some run_at);
  }

  pub Isolated-kept : IsKeptByRun env t (Isolated t d)
  Isolated-kept = record {
    resources = record {
      upsert = λ m c payload. upsert-Isolated t d env.server m c payload;
      soft_delete = λ m c state. soft_delete-Isolated t d env.lower env.server m c state;
      flush_kept = flush-Isolated t d env.server;
    };
    lock_kept = record {
      run = λ s h. subst (SameOthers t d) (sym (try_acquire_keeps env.server t s).1) h;
    };
    advance =
        λ run_at. advance-Isolated t sync_state_table d env.server run_at "ok" none (some run_at);
  }
