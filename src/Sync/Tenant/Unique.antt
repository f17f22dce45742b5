-- ===== src/Sync/Tenant/Unique.antt =====
-- The unique keys of the tables, over a whole run of `sync_tenant`.
use paquitobot_rag.Prelude.{ℕ, ◌≡◌, sym, Bool, false, Option, some, none}
use mathlib.Core.Path.{subst}
use paquitobot_rag.Exec.{Result}
use paquitobot_rag.Exec.Keeps.{Keeps, Keeps-bind}
use paquitobot_rag.Models.{SyncState}
use paquitobot_rag.Session.{Session, flush}
use paquitobot_rag.Repository.Keys.{HasUniqueKeys, upsert-HasUniqueKeys, soft_delete-HasUniqueKeys}
use paquitobot_rag.Watermark.Tables.{find_state-OnTables, write_state-OnTables, advance-OnTables}
use paquitobot_rag.Sync.State.{Env, ErrorClass}
use paquitobot_rag.Sync.Tenant.{sync_state_table, sync_tenant, write_failure_state, failed_mark}
use paquitobot_rag.Sync.Tenant.Body.{state_in, IsKeptByRun}
use paquitobot_rag.Sync.Tenant.Isolation.{write_failure_state-Durable}
use paquitobot_rag.Sync.Tenant.Kept.{sync_tenant_kept}
use paquitobot_rag.Sync.Tenant.Parts.{try_acquire_keeps}

abbrev HasKeys : Session → Type 0
HasKeys s = HasUniqueKeys s.db.tables

module _ (env : Env) (t : ℕ) where
  flush-Keeps : Keeps HasKeys (flush env.server)
  unfolding flush
  flush-Keeps = record { run = λ s h. h }

  write_failure_state-Keeps :
      (run_at : ℕ) (w : Option ℕ) (c : ErrorClass)
      → Keeps HasKeys (write_failure_state env t run_at w c)
  unfolding write_failure_state
  write_failure_state-Keeps run_at w c =
      Keeps-bind _ _ (find_state-OnTables t sync_state_table HasUniqueKeys) (λ found.
        Keeps-bind _ _
          (write_state-OnTables t sync_state_table HasUniqueKeys (failed_mark found w run_at c)
            found)
          (λ _. flush-Keeps))

  HasKeys-kept : IsKeptByRun env t HasKeys
  HasKeys-kept = record {
    resources = record {
      upsert =
          λ m c payload. record { run = λ s h. upsert-HasUniqueKeys env.server m t c payload s h };
      soft_delete = λ m c state. record {
        run = λ s h. soft_delete-HasUniqueKeys env.lower env.server m t c state s h;
      };
      flush_kept = flush-Keeps;
    };
    lock_kept = record {
      run =
          λ s h. subst (λ db. HasUniqueKeys db.tables) (sym (try_acquire_keeps env.server t s).1) h;
    };
    advance = λ run_at.
        advance-OnTables t sync_state_table HasUniqueKeys env.server run_at "ok" none (some run_at);
  }

-- A run in its own transaction, on a database where the tenant has at most one sync state and
-- every `(tenant_id, canvas_id)` is unique in its table, keeps them unique in each durable table,
-- whatever its outcome.
pub sync_tenant-HasUniqueKeys :
    (env : Env) (t : ℕ) (lock_held : Bool) (run_at : ℕ) (s : Session) (found : Option SyncState)
    → s.in_transaction ≡ false
    → state_in t s.durable ≡ Result.ok found
    → HasUniqueKeys s.durable.tables
    → HasUniqueKeys (sync_tenant env t lock_held run_at s).1.session.durable.tables
sync_tenant-HasUniqueKeys env t lock_held run_at s found idle e h =
    sync_tenant_kept env t (λ db. HasUniqueKeys db.tables) (HasKeys-kept env t)
      (write_failure_state-Keeps env t) (λ d. write_failure_state-Durable env t d) lock_held run_at
      s found idle e h
