-- ===== src/Sync/Tenant/Atomic.antt =====
-- A run of `sync_tenant` in its own transaction, whatever Canvas and the server do: it succeeds and
-- all is durable, or the lock is busy and nothing is, or it fails and only the failure is recorded.
use paquitobot_rag.Prelude.{
  ℕ, ◌≡◌, ◌≢◌, ◌⊎◌, refl, sym, ap, ◌∙◌, Bool, true, false, Option, none, some, inl, inr, Bool-cases,
}
use mathlib.Core.Path.{subst}
use paquitobot_rag.Exec.{Exn, Result}
use paquitobot_rag.Models.{SyncState, Db}
use paquitobot_rag.Session.{Session, release_sync_lock, end_transaction}
use paquitobot_rag.Watermark.{watermark_of}
use paquitobot_rag.Watermark.Laws.{old_state}
use paquitobot_rag.Sync.State.{Env, Run, SyncResult, Status, ErrorClass}
use paquitobot_rag.Sync.Tenant.{
  last_successful_at, classify, finish_failure, release_if_acquired, sync_tenant, failed_mark,
  sync_state_table,
}
use paquitobot_rag.Sync.Tenant.Body.{state_in, rest-Keeps}
use paquitobot_rag.Sync.Tenant.Failure.{Recorded, record_failure_lem}
use paquitobot_rag.Sync.Tenant.Outcome.{
  IsClassOf, classify-IsClassOf, Raised, opened, worked, ended, Completed, Failed,
  sync_tenant_cases,
}
use paquitobot_rag.Sync.Tenant.Parts.{Durable-kept}
use paquitobot_rag.Sync.Tenant.Success.{Stamped, IsSuccess, rest_returns}

module _ (env : Env) (t : ℕ) (lock_held : Bool) (run_at : ℕ) where
  pub release_keeps :
      (p : SyncResult × Run)
      → let p' = release_if_acquired env t p in
        (p'.0 ≡ p.0) × (p'.1.session.durable ≡ p.1.session.durable)
  unfolding release_if_acquired release_sync_lock
  release_keeps (a, r) = elim (Bool-cases r.acquired_here) [
    | inl here ↦ (
      refl,
      elim (Bool-cases r.session.postgres) [
        | inl on ↦ rw (here, on) refl
        | inr off ↦ rw (here, off) refl
      ],
    )
    | inr not_here ↦ (refl, rw not_here refl)
  ]

  module _ (s : Session) (found : Option SyncState) where
    abbrev pub Succeeds : SyncResult → Db → Type 0
    Succeeds a d = IsSuccess env t run_at a × Stamped env t run_at d

    abbrev pub IsLocked : SyncResult → Db → Type 0
    IsLocked a d = (a.status ≡ Status.locked) × (d ≡ s.durable)

    -- The exception that was raised decides the class.
    abbrev pub Fails : (Exn → Type 0) → SyncResult → Db → Type 0
    Fails raised a d =
        (e : Exn) × (c : ErrorClass) × raised e
        × IsClassOf e c
        × (a.status ≡ Status.failed)
        × (a.last_error_class ≡ some c)
        × (a.last_successful_at ≡ last_successful_at found (watermark_of found))
        × ((d ≡ s.durable) ⊎ Recorded env t c run_at found (watermark_of found) s.durable d)

    abbrev pub Ends : (Exn → Type 0) → SyncResult → Db → Type 0
    Ends raised a d = Succeeds a d ⊎ (IsLocked a d ⊎ Fails raised a d)

    abbrev EndsWith : SyncResult × Run → Type 0
    EndsWith p = Ends (Raised env t lock_held run_at s) p.0 p.1.session.durable

    released : (p : SyncResult × Run) → EndsWith p → EndsWith (release_if_acquired env t p)
    released p h =
        let (result, durable) = release_keeps p in
        let raised = Raised env t lock_held run_at s in
        subst (λ a. Ends raised a (release_if_acquired env t p).1.session.durable) (sym result)
          (subst (Ends raised p.0) (sym durable) h)

    -- Up to its end, the work leaves the durable database and the remembered times.
    pub worked_durable :
        ((worked env t lock_held run_at s found).1.session.durable ≡ s.durable)
        × (((worked env t lock_held run_at s found).1.previous_watermark ≡ watermark_of found)
            × ((worked env t lock_held run_at s found).1.previous_successful_at
                ≡ last_successful_at found (watermark_of found)))
    worked_durable =
        (rest-Keeps env t _ (watermark_of found) (last_successful_at found (watermark_of found))
            (Durable-kept env t s.durable) lock_held run_at (watermark_of found)).run
          (opened env t lock_held run_at s found) (refl, (refl, refl))

    Completed-Ends :
        Completed env t lock_held run_at s found → EndsWith (sync_tenant env t lock_held run_at s)
    unfolding end_transaction
    Completed-Ends (a, returned, run) =
        let returns =
          rest_returns env t run_at lock_held (watermark_of found)
            (opened env t lock_held run_at s found) a returned in
        subst EndsWith (sym run) (
          released _
            (elim returns [ inl done ↦ inl done | inr (status, same) ↦ inr (inl (status, same)) ]))

    Failed-Ends :
        state_in t s.durable ≡ Result.ok found
        → Failed env t lock_held run_at s found
        → EndsWith (sync_tenant env t lock_held run_at s)
    unfolding end_transaction finish_failure
    Failed-Ends e (x, raised, run) =
        let (durable, (watermark, successful)) = worked_durable in
        let r = (worked env t lock_held run_at s found).1 in
        let after =
          finish_failure env t true run_at (classify x)
            (ended env t lock_held run_at r.session.durable r) in
        let d = after.1.session.durable in
        let mark =
          record_failure_lem env t run_at r.previous_watermark (classify x) found
            (end_transaction r.session.durable r.session) refl (ap (state_in t) durable ∙ e) in
        subst EndsWith (sym run) (
          released after (
            inr (
              inr (
                x,
                classify x,
                raised,
                classify-IsClassOf x,
                refl,
                refl,
                successful,
                subst
                    (λ old.
                      (d ≡ old)
                      ⊎ Recorded env t (classify x) run_at found (watermark_of found) old d)
                    durable
                    (subst
                      (λ w.
                        (d ≡ r.session.durable)
                        ⊎ Recorded env t (classify x) run_at found w r.session.durable d)
                      watermark mark),
              ))))

    pub sync_tenant-Ends :
        s.in_transaction ≡ false
        → state_in t s.durable ≡ Result.ok found
        → let (a, r) = sync_tenant env t lock_held run_at s in
          Ends (Raised env t lock_held run_at s) a r.session.durable
    sync_tenant-Ends idle e = elim (sync_tenant_cases env t lock_held run_at s found idle e) [
      | inl completed ↦ Completed-Ends completed
      | inr failed ↦ Failed-Ends e failed
    ]

  -- What is recorded of a failure keeps the watermark.
  recorded_watermark :
      (c : ErrorClass) (found : Option SyncState)
      → (failed_mark found
          (watermark_of found)
          run_at
          c
          (old_state t sync_state_table found)).last_watermark
        ≡ watermark_of found
  recorded_watermark c none = refl
  recorded_watermark c (some x) = refl

  -- The watermark that a database holds for the tenant.
  abbrev pub HasWatermark : Option ℕ → Db → Type 0
  HasWatermark w d =
      (found : Option SyncState) × (state_in t d ≡ Result.ok found) × (watermark_of found ≡ w)

  Ends-HasWatermark :
      (s : Session) (found : Option SyncState) (raised : Exn → Type 0) (a : SyncResult) (d : Db)
      → Ends s found raised a d
      → state_in t s.durable ≡ Result.ok found
      → a.status ≢ Status.ok
      → HasWatermark (watermark_of found) d
  Ends-HasWatermark s found raised a d (inl ((status, _, _, _), _)) e h = absurd (h status)
  Ends-HasWatermark s found raised a d (inr (inl (status, same))) e h =
      (found, ap (state_in t) same ∙ e, refl)
  Ends-HasWatermark s found raised a d (inr (inr (x, c, _, _, _, _, _, inl same))) e h =
      (found, ap (state_in t) same ∙ e, refl)
  Ends-HasWatermark s found raised a d (inr (inr (x, c, _, _, _, _, _, inr (_, recorded)))) e h =
      (_, recorded, recorded_watermark c found)

  -- A run in its own transaction, on a database where the tenant has at most one sync state, that
  -- is not a success leaves the durable watermark as it was.
  pub sync_tenant-HasWatermark :
      (s : Session) (found : Option SyncState)
      → s.in_transaction ≡ false
      → state_in t s.durable ≡ Result.ok found
      → (sync_tenant env t lock_held run_at s).0.status ≢ Status.ok
      → HasWatermark (watermark_of found) (sync_tenant env t lock_held run_at s).1.session.durable
  sync_tenant-HasWatermark s found idle e h =
      let (a, r) = sync_tenant env t lock_held run_at s in
      Ends-HasWatermark s found (Raised env t lock_held run_at s) a r.session.durable
        (sync_tenant-Ends s found idle e) e h
