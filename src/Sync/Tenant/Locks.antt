-- ===== src/Sync/Tenant/Locks.antt =====
-- The fallback locks of a run of `sync_tenant`: the session leaves with none, and none stays held
-- because of it.
use paquitobot_rag.Prelude.{
  ℕ, ◌≡◌, ◌⊎◌, refl, sym, ◌∙◌, Bool, true, false, Option, some, none, [], inl, inr, Bool-cases,
  arith,
}
use mathlib.Core.Path.{subst}
use paquitobot_rag.Exec.{Result}
use paquitobot_rag.Exec.Keeps.{Keeps}
use paquitobot_rag.Lock.{contains, is_locked, release_sync_lock as release_by, try_acquire_sqlite}
use paquitobot_rag.Lock.Exclusion.{info-release_session_fallback_locks, info-release_sync_lock}
use paquitobot_rag.Lock.Others.{
  IsWithin, IsWithin-refl, try_acquire-is_other, release-IsWithin, hook-is_other,
}
use paquitobot_rag.Models.{SyncState, Db}
use paquitobot_rag.Repository.Writes.{
  upsert-Stable, soft_delete-Stable, flush-Stable, advance-Stable, fail-Stable,
}
use paquitobot_rag.Session.{
  Session, with_begin, enter_begin, end_transaction, try_acquire_sync_lock, release_sync_lock,
}
use paquitobot_rag.Session.Laws.{close_begin_cases}
use paquitobot_rag.Sync.State.{Env, Run, SyncResult, ErrorClass}
use paquitobot_rag.Sync.Tenant.{
  classify, finish_failure, record_failure, release_if_acquired, sync_tenant, sync_state_table,
  write_failure_state, failed_mark, last_successful_at,
}
use paquitobot_rag.Sync.Tenant.Body.{state_in, IsKeptByRun, rest-Keeps}
use paquitobot_rag.Sync.Tenant.Outcome.{opened, worked, Completed, Failed, sync_tenant_cases}
use paquitobot_rag.Watermark.{watermark_of}

module _ (env : Env) (t : ℕ) (base : Session) where
  -- The session is the one of the run's start, and sees others hold no lock that they did not.
  record Leaves (s : Session) : Type 0 where
    same : s.sid ≡ base.sid
    within : IsWithin base.sid base.process s.process

  Leaves-stable :
      (s : Session) (db : Db) (tick : ℕ) → Leaves s → Leaves (record s { db = db; tick = tick })
  Leaves-stable s db tick h = record { same = h.same; within = h.within }

  -- A step after which others hold no more than before it
  Leaves-step :
      (s s' : Session) → s'.sid ≡ s.sid → IsWithin s.sid s.process s'.process → Leaves s → Leaves s'
  Leaves-step s s' e step h = record {
    same = e ∙ h.same;
    within = λ k.
        let later = subst (λ sid. IsWithin sid s.process s'.process) h.same step k in
        elim later [
          | inl free ↦ inl free
          | inr held ↦ elim (h.within k) [
            | inl free ↦ ground (arith, free, held)
            | inr before ↦ inr before
          ]
        ];
  }

  try_acquire-Leaves : Keeps Leaves (try_acquire_sync_lock env.server t)
  unfolding try_acquire_sync_lock
  try_acquire-Leaves = record {
    run = λ s h. elim (Bool-cases s.postgres) [
      | inl on ↦ rw (on) (record { same = h.same; within = h.within })
      | inr off ↦
          let stepped =
            Leaves-step s (record s { process = (try_acquire_sqlite s.sid t s.process).0 }) refl
              (λ k. ground (arith, try_acquire-is_other s.sid t k s.process)) h in
          rw (off) (record { same = stepped.same; within = stepped.within })
    ];
  }

  Leaves-kept : IsKeptByRun env t Leaves
  Leaves-kept = record {
    resources = record {
      upsert = λ m c payload. upsert-Stable Leaves Leaves-stable env.server m t c payload;
      soft_delete =
          λ m c state. soft_delete-Stable Leaves Leaves-stable env.server m t c env.lower state;
      flush_kept = flush-Stable Leaves Leaves-stable env.server;
    };
    lock_kept = try_acquire-Leaves;
    advance = λ run_at.
        advance-Stable Leaves Leaves-stable t sync_state_table env.server run_at "ok" none
          (some run_at);
  }

  -- At the end the session remembers no lock, besides.
  abbrev Cleared : Session → Type 0
  Cleared s = (s.process.info s.sid ≡ []) × Leaves s

  end_transaction-Cleared : (db : Db) (s : Session) → Leaves s → Cleared (end_transaction db s)
  unfolding end_transaction
  end_transaction-Cleared db s h = (
    info-release_session_fallback_locks s.sid s.process,
    Leaves-step s (end_transaction db s) refl (λ k. ground (arith, hook-is_other s.sid k s.process))
        h,
  )

  release-Cleared :
      (p : SyncResult × Run) → Cleared p.1.session → Cleared (release_if_acquired env t p).1.session
  unfolding release_if_acquired release_sync_lock
  release-Cleared (a, r) (info, h) = elim (Bool-cases r.acquired_here) [
    | inl here ↦ elim (Bool-cases r.session.postgres) [
      | inl on ↦ rw (here, on) (info, record { same = h.same; within = h.within })
      | inr off ↦
          let s = r.session in
          let stepped =
            Leaves-step s (record s { process = release_by s.sid t s.process }) refl
              (release-IsWithin s.sid t s.process) h in
          rw (here, off)
            (
              info-release_sync_lock s.sid t s.process info,
              record { same = stepped.same; within = stepped.within },
            )
    ]
    | inr not_here ↦ rw not_here (info, h)
  ]

  record_failure-Cleared :
      (run_at : ℕ) (w : Option ℕ) (c : ErrorClass) (s : Session)
      → s.in_transaction ≡ false
      → Leaves s
      → Cleared (record_failure env t true run_at w c s)
  unfolding record_failure with_begin write_failure_state
  record_failure-Cleared run_at w c s idle h =
      let (r, s') = write_failure_state env t run_at w c (enter_begin s) in
      let h' : Leaves s' =
        (fail-Stable Leaves Leaves-stable t sync_state_table env.server
            (λ found. failed_mark found w run_at c)).run
          (enter_begin s) (record { same = h.same; within = h.within }) in
      rw idle (elim (close_begin_cases env.server r s') [
        | inl (a, returned, closed) ↦ rw closed (end_transaction-Cleared s'.db s' h')
        | inr (x, closed) ↦ rw closed (end_transaction-Cleared s'.durable s' h')
      ])

module _ (env : Env) (t : ℕ) (lock_held : Bool) (run_at : ℕ) (s : Session)
    (found : Option SyncState) where
  worked-Leaves : Leaves env t s (worked env t lock_held run_at s found).1.session
  worked-Leaves =
      ((rest-Keeps env t (Leaves env t s) (watermark_of found)
          (last_successful_at found (watermark_of found)) (Leaves-kept env t s) lock_held run_at
          (watermark_of found)).run
        (opened env t lock_held run_at s found)
        (record { same = refl; within = IsWithin-refl s.sid s.process }, (refl, refl))).0

  Failed-Cleared :
      Failed env t lock_held run_at s found
      → Cleared env t s (sync_tenant env t lock_held run_at s).1.session
  unfolding finish_failure end_transaction
  Failed-Cleared (x, raised, run) =
      let r = (worked env t lock_held run_at s found).1 in
      subst (λ p. Cleared env t s p.1.session) (sym run)
        (release-Cleared env t s _ (
          record_failure-Cleared env t s run_at r.previous_watermark (classify x)
            (end_transaction r.session.durable r.session) refl
            (end_transaction-Cleared env t s r.session.durable r.session worked-Leaves).1))

  Completed-Cleared :
      Completed env t lock_held run_at s found
      → Cleared env t s (sync_tenant env t lock_held run_at s).1.session
  Completed-Cleared (a, returned, run) =
      let r = (worked env t lock_held run_at s found).1 in
      subst (λ p. Cleared env t s p.1.session) (sym run)
        (release-Cleared env t s _
          (end_transaction-Cleared env t s r.session.db r.session worked-Leaves))

  -- The session remembers no lock; and every lock of the process is free, or it was held before and the
  -- session did not remember it.
  abbrev pub HasNoLocks : Session → Type 0
  HasNoLocks s' =
      (s'.process.info s'.sid ≡ [])
      × ((k : ℕ)
          → (is_locked k s'.process ≡ false)
            ⊎ ((is_locked k s.process ≡ true) × (contains k (s.process.info s.sid) ≡ false)))

  Cleared-HasNoLocks : (s' : Session) → Cleared env t s s' → HasNoLocks s'
  Cleared-HasNoLocks s' (info, h) = (
    info,
    λ k.
        let gone : s'.process.info s.sid ≡ [] =
          subst (λ sid. s'.process.info sid ≡ []) h.same info in
        elim (h.within k) [
          | inl free ↦ inl (ground (arith, free, gone))
          | inr held ↦ inr (ground (arith, held), ground (arith, held))
        ],
  )

  -- A run in its own transaction, on a database where the tenant has at most one sync state, leaves its
  -- session with no fallback lock, whatever its outcome; and every tenant's lock is free afterwards, or
  -- was held before by another session: none stays held because of the run.
  pub sync_tenant-HasNoLocks :
      s.in_transaction ≡ false
      → state_in t s.durable ≡ Result.ok found
      → HasNoLocks (sync_tenant env t lock_held run_at s).1.session
  sync_tenant-HasNoLocks idle e =
      Cleared-HasNoLocks _ (elim (sync_tenant_cases env t lock_held run_at s found idle e) [
        | inl completed ↦ Completed-Cleared completed
        | inr failed ↦ Failed-Cleared failed
      ])
