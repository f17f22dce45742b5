-- ===== src/Sync/Tenant/Failure.antt =====
-- A failed run in its own transaction: nothing of the work is durable, and the failure is recorded
-- beside an unchanged watermark.
use paquitobot_rag.Prelude.{ℕ, ◌≡◌, ◌⊎◌, refl, true, false, Option, none, some, inl, inr}
use paquitobot_rag.Exec.{Result, ◌>>=◌}
use paquitobot_rag.Models.{SyncState, Db}
use paquitobot_rag.Session.{Session, enter_begin, with_begin, end_transaction, flush}
use paquitobot_rag.Session.Laws.{close_begin_cases}
use paquitobot_rag.Watermark.{find_state}
use paquitobot_rag.Watermark.Laws.{
  KeepsKey, old_state, find_state-write_state, ok-write_state, write_state_keeps,
}
use paquitobot_rag.Sync.State.{Env, ErrorClass}
use paquitobot_rag.Sync.Tenant.{sync_state_table, record_failure, write_failure_state, failed_mark}
use paquitobot_rag.Sync.Tenant.Body.{state_in}

module _ (env : Env) (t : ℕ) where
  -- What the database holds after a failure is recorded in it.
  abbrev pub Recorded : ErrorClass → ℕ → Option SyncState → Option ℕ → Db → Db → Type 0
  Recorded error_class run_at found watermark before after =
      (after.tables ≡ before.tables)
      × (state_in t after
          ≡ Result.ok (
              some (
                failed_mark found watermark run_at error_class
                  (old_state t sync_state_table found))))

  pub marks :
      (found : Option SyncState) (watermark : Option ℕ) (run_at : ℕ) (error_class : ErrorClass)
      → KeepsKey (failed_mark found watermark run_at error_class)
  marks none watermark run_at error_class x = (refl, refl)
  marks (some _) watermark run_at error_class x = (refl, refl)

  -- The writing of the mark, up to the flush.
  pub write_failure_state_lem :
      (run_at : ℕ) (watermark : Option ℕ) (error_class : ErrorClass) (found : Option SyncState)
      (s : Session)
      → state_in t s.db ≡ Result.ok found
      → let (result, s') = write_failure_state env t run_at watermark error_class s in
        (s'.durable ≡ s.durable) × Recorded error_class run_at found watermark s.db s'.db
  unfolding write_failure_state ◌>>=◌ find_state flush
  write_failure_state_lem run_at watermark error_class found s e =
      let mark = failed_mark found watermark run_at error_class in
      let (durable, tables) = write_state_keeps t sync_state_table mark found s in
      rw (e, ok-write_state t sync_state_table mark found s)
        (
          durable,
          (
            tables,
            find_state-write_state t sync_state_table mark found s
                (marks found watermark run_at error_class) e,
          ),
        )

  -- Recording a failure in a transaction of its own leaves the durable database as it was, or adds
  -- exactly the mark.
  pub record_failure_lem :
      (run_at : ℕ) (watermark : Option ℕ) (error_class : ErrorClass) (found : Option SyncState)
      (s : Session)
      → s.in_transaction ≡ false
      → state_in t s.durable ≡ Result.ok found
      → let s' = record_failure env t true run_at watermark error_class s in
        (s'.durable ≡ s.durable) ⊎ Recorded error_class run_at found watermark s.durable s'.durable
  unfolding record_failure with_begin end_transaction
  record_failure_lem run_at watermark error_class found s idle e =
      let m = write_failure_state env t run_at watermark error_class in
      let (r, s') = m (enter_begin s) in
      let (durable, recorded) =
        write_failure_state_lem run_at watermark error_class found (enter_begin s) e in
      rw idle (elim (close_begin_cases env.server r s') [
        | inl (a, returned, closed) ↦ rw closed (inr recorded)
        | inr (x, closed) ↦ rw closed (inl durable)
      ])
