-- ===== src/Sync/Tenant/Kept.antt =====
-- A property of a database that every write for a tenant keeps holds of what a run makes durable.
use paquitobot_rag.Prelude.{ℕ, ◌≡◌, refl, sym, Bool, true, false, Option, inl, inr}
use mathlib.Core.Path.{subst}
use paquitobot_rag.Exec.{Result}
use paquitobot_rag.Exec.Keeps.{Keeps}
use paquitobot_rag.Models.{SyncState, Db}
use paquitobot_rag.Session.{Session, with_begin, enter_begin, end_transaction}
use paquitobot_rag.Session.Laws.{close_begin_cases}
use paquitobot_rag.Watermark.{watermark_of}
use paquitobot_rag.Sync.State.{Env, Run, SyncResult, ErrorClass}
use paquitobot_rag.Sync.Tenant.{
  last_successful_at, classify, finish_failure, record_failure, release_if_acquired, sync_tenant,
  write_failure_state,
}
use paquitobot_rag.Sync.Tenant.Atomic.{release_keeps, worked_durable}
use paquitobot_rag.Sync.Tenant.Body.{state_in, IsKeptByRun, rest-Keeps}
use paquitobot_rag.Sync.Tenant.Outcome.{opened, worked, Completed, Failed, sync_tenant_cases}

module _ (env : Env) (t : ℕ) (Q : Db → Type 0) (kept : IsKeptByRun env t (λ s. Q s.db))
    (failing : (run_at : ℕ) (w : Option ℕ) (c : ErrorClass)
      → Keeps (λ s. Q s.db) (write_failure_state env t run_at w c))
    (failing_durable : (d : Db) (run_at : ℕ) (w : Option ℕ) (c : ErrorClass)
      → Keeps (λ s. s.durable ≡ d) (write_failure_state env t run_at w c)) where
  record_failure_kept :
      (run_at : ℕ) (w : Option ℕ) (c : ErrorClass) (s : Session)
      → s.in_transaction ≡ false
      → Q s.durable
      → Q (record_failure env t true run_at w c s).durable
  unfolding record_failure with_begin end_transaction
  record_failure_kept run_at w c s idle h =
      let (r, s') = write_failure_state env t run_at w c (enter_begin s) in
      let durable = (failing_durable s.durable run_at w c).run (enter_begin s) refl in
      rw idle (elim (close_begin_cases env.server r s') [
        | inl (a, returned, closed) ↦ rw closed ((failing run_at w c).run (enter_begin s) h)
        | inr (x, closed) ↦ rw closed (subst Q (sym durable) h)
      ])

  module _ (lock_held : Bool) (run_at : ℕ) (s : Session) (found : Option SyncState) where
    released_Q :
        (p : SyncResult × Run)
        → Q p.1.session.durable
        → Q (release_if_acquired env t p).1.session.durable
    released_Q p h = subst Q (sym (release_keeps env t lock_held run_at p).1) h

    failed_Q :
        Q s.durable
        → Failed env t lock_held run_at s found
        → Q (sync_tenant env t lock_held run_at s).1.session.durable
    unfolding end_transaction finish_failure
    failed_Q h (x, raised, run) =
        let r = (worked env t lock_held run_at s found).1 in
        let (durable, _) = worked_durable env t lock_held run_at s found in
        subst (λ p. Q p.1.session.durable) (sym run)
          (released_Q _ (
            record_failure_kept run_at r.previous_watermark (classify x)
              (end_transaction r.session.durable r.session) refl (subst Q (sym durable) h)))

    completed_Q :
        Q s.durable
        → Completed env t lock_held run_at s found
        → Q (sync_tenant env t lock_held run_at s).1.session.durable
    unfolding end_transaction
    completed_Q h (a, returned, run) =
        let k =
          (rest-Keeps env t _ (watermark_of found) (last_successful_at found (watermark_of found))
              kept lock_held run_at (watermark_of found)).run
            (opened env t lock_held run_at s found) (h, (refl, refl)) in
        subst (λ p. Q p.1.session.durable) (sym run) (released_Q _ k.0)

    pub sync_tenant_kept :
        s.in_transaction ≡ false
        → state_in t s.durable ≡ Result.ok found
        → Q s.durable
        → Q (sync_tenant env t lock_held run_at s).1.session.durable
    sync_tenant_kept idle e h = elim (sync_tenant_cases env t lock_held run_at s found idle e) [
      | inl completed ↦ completed_Q h completed
      | inr failed ↦ failed_Q h failed
    ]
