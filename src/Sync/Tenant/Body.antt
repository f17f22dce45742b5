-- ===== src/Sync/Tenant/Body.antt =====
-- The body of `sync_tenant`'s transaction: first the state is read, then all that follows keeps
-- what its parts keep.
use paquitobot_rag.Prelude.{ℕ, ◌==◌, ◌≡◌, Bool, true, false, Option, none, some}
use paquitobot_rag.Exec.{Result, Exec, ◌>>=◌}
use paquitobot_rag.Exec.Keeps.{Keeps, Keeps-bind, Keeps-if, Keeps-pure, Keeps-fold_each}
use paquitobot_rag.Query.{select, scalar_one_or_none}
use paquitobot_rag.Models.{SyncState, Db}
use paquitobot_rag.Session.{Session, try_acquire_sync_lock}
use paquitobot_rag.Watermark.{is_state, find_state, read_watermark, advance_watermark, watermark_of}
use paquitobot_rag.Sync.State.{Env, Run, SyncResult, on_session}
use paquitobot_rag.Sync.Resources.Preserved.{
  IsKept, OnRun, on_session-Keeps, sync_self_user-Keeps, sync_favorite_courses-Keeps,
  sync_fallback_enrollments-Keeps, sync_course_assignments-Keeps,
}
use paquitobot_rag.Sync.Tenant.{
  sync_state_table, last_successful_at, sync_resources, locked_body, remember, acquire, body,
}

-- What a query of the tenant's state finds in a database.
abbrev pub state_in : ℕ → Db → Result (Option SyncState)
state_in t db = scalar_one_or_none (select (is_state t sync_state_table) db.states)

-- The state is one that the run's first queries find.
abbrev pub remembered : Option SyncState → Run → Run
remembered found r = record r {
  previous_watermark = watermark_of found;
  previous_successful_at = last_successful_at found (watermark_of found);
}

module _ (env : Env) (t : ℕ) where
  -- After the queries: the lock, the resources, and the watermark.
  abbrev pub rest : Bool → ℕ → Option ℕ → Exec Run SyncResult
  rest lock_held run_at watermark = acquire env t lock_held >>= locked_body env t run_at watermark

  pub body_found :
      (lock_held : Bool) (run_at : ℕ) (r : Run) (found : Option SyncState)
      → state_in t r.session.db ≡ Result.ok found
      → body env t lock_held run_at r
        ≡ rest lock_held run_at (watermark_of found) (remembered found r)
  unfolding body on_session read_watermark find_state remember ◌>>=◌
  body_found lock_held run_at r found e = rw (e, e)

  pub record IsKeptByRun (P : Session → Type 0) : Type 0 where
    pub resources : IsKept env t P
    pub lock_kept : Keeps P (try_acquire_sync_lock env.server t)
    pub advance :
        (run_at : ℕ)
        → Keeps P (advance_watermark t sync_state_table env.server run_at "ok" none (some run_at))

  module _ (P : Session → Type 0) (w v : Option ℕ) (kept : IsKeptByRun P) where
    abbrev Times : Option ℕ → Option ℕ → Bool → Type 0
    Times w' v' _ = (w' ≡ w) × (v' ≡ v)

    -- The session's property, and the remembered times.
    abbrev pub During : Run → Type 0
    During = OnRun P Times

    sync_resources-Keeps : (after : Option ℕ) → Keeps During (sync_resources env t after)
    unfolding sync_resources
    sync_resources-Keeps after =
        Keeps-bind _ _ (sync_self_user-Keeps env t P Times kept.resources) λ u.
          Keeps-bind _ _ (sync_favorite_courses-Keeps env t P Times kept.resources u after) λ acc.
            Keeps-bind _ _
              (Keeps-if (acc.1 == 0) _ _
                (λ _. sync_fallback_enrollments-Keeps env t P Times kept.resources u)
                (λ _. Keeps-pure tt))
              λ _. Keeps-fold_each acc.0 tt _ λ course_id _.
                sync_course_assignments-Keeps env t P Times kept.resources u course_id after

    locked_body-Keeps :
        (run_at : ℕ) (watermark : Option ℕ) (acquired : Bool)
        → Keeps During (locked_body env t run_at watermark acquired)
    unfolding locked_body
    locked_body-Keeps run_at watermark false = record { run = λ r h. h }
    locked_body-Keeps run_at watermark true = Keeps-bind _ _ (sync_resources-Keeps watermark) λ _.
        Keeps-bind _ _ (on_session-Keeps env t P Times kept.resources _ (kept.advance run_at))
          λ _. record { run = λ r h. h }

    acquire-Keeps : (lock_held : Bool) → Keeps During (acquire env t lock_held)
    unfolding acquire
    acquire-Keeps true = record { run = λ r h. h }
    acquire-Keeps false = record { run = λ r h. (kept.lock_kept.run r.session h.0, h.1) }

    pub rest-Keeps :
        (lock_held : Bool) (run_at : ℕ) (watermark : Option ℕ)
        → Keeps During (rest lock_held run_at watermark)
    rest-Keeps lock_held run_at watermark =
        Keeps-bind _ _ (acquire-Keeps lock_held)
          (λ acquired. locked_body-Keeps run_at watermark acquired)
