-- ===== src/Sync/Tenant/Nested.antt =====
-- A run of `sync_tenant` inside the caller's transaction, as app/services/canvas_service.py and the
-- scheduler make it: the work is under a savepoint, and nothing is durable yet.
use paquitobot_rag.Prelude.{
  ℕ, ◌≡◌, ◌⊎◌, refl, sym, ap, ◌∙◌, Bool, true, false, Option, some, not, inl, inr, Bool-cases,
}
use mathlib.Core.Path.{subst}
use paquitobot_rag.Exec.{Exn, Result, integrity_error}
use paquitobot_rag.Models.{SyncState, Db}
use paquitobot_rag.Session.{Server, Session, enter_nested, close_nested, release_sync_lock}
use paquitobot_rag.Watermark.{watermark_of}
use paquitobot_rag.Sync.State.{Env, Run, SyncResult, Status, ErrorClass, put_session}
use paquitobot_rag.Sync.Tenant.{
  body, with_scope, finish_failure, handle, start, classify, sync_tenant, release_if_acquired,
  last_successful_at, write_failure_state, record_failure, or_lost,
}
use paquitobot_rag.Sync.Tenant.Atomic.{Succeeds}
use paquitobot_rag.Sync.Tenant.Body.{state_in, remembered, rest, body_found, rest-Keeps}
use paquitobot_rag.Sync.Tenant.Failure.{Recorded, write_failure_state_lem}
use paquitobot_rag.Sync.Tenant.Outcome.{IsClassOf, classify-IsClassOf}
use paquitobot_rag.Sync.Tenant.Parts.{Durable-kept}
use paquitobot_rag.Sync.Tenant.Success.{rest_returns}

module _ {A : Type 0} where
  close_nested_cases :
      (server : Server) (saved : Db) (r : Result A) (s : Session)
      → ((a : A) × (r ≡ Result.ok a) × (close_nested server saved (r, s) ≡ (Result.ok a, s)))
        ⊎ ((e : Exn) × (close_nested server saved (r, s) ≡ (Result.err e, record s { db = saved })))
  unfolding close_nested
  close_nested_cases server saved (Result.err e) s = inr (e, refl)
  close_nested_cases server saved (Result.ok a) s = elim (Bool-cases (server.accepts s.db)) [
    | inl fine ↦ inl (a, refl, rw fine)
    | inr refused ↦ inr (integrity_error, rw refused)
  ]

module _ (env : Env) (t : ℕ) (lock_held : Bool) (run_at : ℕ) (s : Session)
    (found : Option SyncState) where
  abbrev opened : Run
  opened = remembered found (put_session (enter_nested s) (start env t s))

  abbrev worked : Result SyncResult × Run
  worked = rest env t lock_held run_at (watermark_of found) opened

  -- The outcomes, by the database before the run and the one that the caller's transaction sees.
  abbrev Locked : SyncResult → Db → Type 0
  Locked a d = (a.status ≡ Status.locked) × (d ≡ s.db)

  -- The exception that the savepoint ends with, of the work or of the flush at its end
  abbrev pub RaisedInside : Exn → Type 0
  RaisedInside e =
      (with_scope env t false (body env t lock_held run_at) (start env t s)).0 ≡ Result.err e

  abbrev Fails : SyncResult → Db → Type 0
  Fails a d =
      (e : Exn) × (c : ErrorClass) × RaisedInside e
      × IsClassOf e c
      × (a.status ≡ Status.failed)
      × (a.last_error_class ≡ some c)
      × (a.last_successful_at ≡ last_successful_at found (watermark_of found))
      × ((d ≡ s.durable) ⊎ Recorded env t c run_at found (watermark_of found) s.db d)

  abbrev pub EndsInside : SyncResult → Db → Type 0
  EndsInside a d = Succeeds env t lock_held run_at s found a d ⊎ (Locked a d ⊎ Fails a d)

  -- The caller's transaction is not ended.
  abbrev Outcome : SyncResult × Run → Type 0
  Outcome p = (p.1.session.durable ≡ s.durable) × EndsInside p.0 p.1.session.db

  abbrev finish : Result SyncResult × Session → SyncResult × Run
  finish (result, s') =
      release_if_acquired env t (handle env t false run_at (result, put_session s' worked.1))

  sync_tenant-eq-finish :
      s.in_transaction ≡ true
      → state_in t s.db ≡ Result.ok found
      → sync_tenant env t lock_held run_at s
        ≡ finish (close_nested env.server s.db (worked.0, worked.1.session))
  unfolding sync_tenant with_scope
  sync_tenant-eq-finish inside e =
      ap
        (λ b. release_if_acquired env t (
          handle env t (not b) run_at
            (with_scope env t (not b) (body env t lock_held run_at) (start env t s))))
        inside
      ∙ ap
          (λ w.
            let (result, s') = close_nested env.server s.db (w.0, w.1.session) in
            release_if_acquired env t (handle env t false run_at (result, put_session s' w.1)))
          (body_found env t lock_held run_at (put_session (enter_nested s) (start env t s)) found e)

  worked_durable :
      (worked.1.session.durable ≡ s.durable)
      × ((worked.1.previous_watermark ≡ watermark_of found)
          × (worked.1.previous_successful_at ≡ last_successful_at found (watermark_of found)))
  worked_durable =
      (rest-Keeps env t _ (watermark_of found) (last_successful_at found (watermark_of found))
          (Durable-kept env t s.durable) lock_held run_at (watermark_of found)).run
        opened (refl, (refl, refl))

  -- The release keeps the databases.
  released-Outcome : (p : SyncResult × Run) → Outcome p → Outcome (release_if_acquired env t p)
  unfolding release_if_acquired release_sync_lock
  released-Outcome (a, r) h = elim (Bool-cases r.acquired_here) [
    | inl here ↦ elim (Bool-cases r.session.postgres) [
      | inl on ↦ rw (here, on) h
      | inr off ↦ rw (here, off) h
    ]
    | inr not_here ↦ rw not_here h
  ]

  completed-Outcome : (a : SyncResult) → worked.0 ≡ Result.ok a → Outcome (a, worked.1)
  completed-Outcome a returned = (
    worked_durable.0,
    elim (rest_returns env t run_at lock_held (watermark_of found) opened a returned) [
      | inl done ↦ inl done
      | inr (status, same) ↦ inr (inl (status, same))
    ],
  )

  abbrev Marked : Exn → Option ℕ → Db → Type 0
  Marked c w d = (d ≡ s.durable) ⊎ Recorded env t (classify c) run_at found w s.db d

  or_lost_cases :
      (c : Exn) (w : Option ℕ) (p : Result (Unit {0}) × Session)
      → p.1.durable ≡ s.durable
      → Recorded env t (classify c) run_at found w s.db p.1.db
      → ((or_lost env t p).durable ≡ s.durable) × Marked c w (or_lost env t p).db
  or_lost_cases c w (Result.ok u, s') durable recorded = (durable, inr recorded)
  or_lost_cases c w (Result.err x, s') durable recorded = (durable, inl durable)

  failed-Outcome :
      (c : Exn)
      → RaisedInside c
      → state_in t s.db ≡ Result.ok found
      → Outcome (
          finish_failure env t false run_at
            (classify c)
            (put_session (record worked.1.session { db = s.db }) worked.1))
  unfolding finish_failure record_failure
  failed-Outcome c raised e =
      let r = worked.1 in
      let (durable, (watermark, successful)) = worked_durable in
      let m =
        write_failure_state env t run_at r.previous_watermark (classify c)
          (record r.session { db = s.db }) in
      let (kept, recorded) =
        write_failure_state_lem env t run_at r.previous_watermark (classify c) found
          (record r.session { db = s.db }) e in
      let (durable', marked) = or_lost_cases c r.previous_watermark m (kept ∙ durable) recorded in
      (
        durable',
        inr (
            inr (
              c,
              classify c,
              raised,
              classify-IsClassOf c,
              refl,
              refl,
              successful,
              subst (λ w. Marked c w (or_lost env t m).db) watermark marked,
            )),
      )

  scope_raises :
      (x : Exn)
      → state_in t s.db ≡ Result.ok found
      → (close_nested env.server s.db (worked.0, worked.1.session)).0 ≡ Result.err x
      → RaisedInside x
  unfolding with_scope
  scope_raises x e closed =
      ap (λ w. (close_nested env.server s.db (w.0, w.1.session)).0)
        (body_found env t lock_held run_at (put_session (enter_nested s) (start env t s)) found e)
      ∙ closed

  -- A run inside the caller's transaction, where the tenant has at most one sync state, makes nothing
  -- durable, and is one of three: it succeeds, and its result and the watermark say so; or the lock
  -- is busy and the database is as it was; or it fails with the exception that its savepoint
  -- ended with, its result has the class of that exception and repeats the last success, and the database is as it was but for the failure, or as at the start of the caller's transaction.
  pub sync_tenant-EndsInside :
      s.in_transaction ≡ true
      → state_in t s.db ≡ Result.ok found
      → let (a, r) = sync_tenant env t lock_held run_at s in
        (r.session.durable ≡ s.durable) × EndsInside a r.session.db
  sync_tenant-EndsInside inside e =
      let run = sync_tenant-eq-finish inside e in
      subst Outcome (sym run) (elim (close_nested_cases env.server s.db worked.0 worked.1.session) [
        | inl (a, returned, closed) ↦
            subst (λ q. Outcome (finish q)) (sym closed)
              (released-Outcome (a, worked.1) (completed-Outcome a returned))
        | inr (x, closed) ↦
            subst (λ q. Outcome (finish q)) (sym closed)
              (released-Outcome _ (failed-Outcome x (scope_raises x e (ap (λ p. p.0) closed)) e))
      ])
