-- ===== src/Service/Locked.antt =====
-- One run of app/services/canvas_service.py under the tenant's lock, on a session without a
-- transaction: it ends as `sync_tenant` does by itself, or raises and nothing is durable.
use paquitobot_rag.Prelude.{
  ℕ, suc, ◌≡◌, ◌≢◌, ◌⊎◌, ◌&&◌, inl, inr, refl, sym, ap, ◌∙◌, Bool, true, false, Option, Bool-cases,
  if◌then◌else◌,
}
use mathlib.Core.Path.{subst}
use paquitobot_rag.Exec.{Result, ok, err, pure, raise, ◌>>=◌}
use paquitobot_rag.Models.{SyncState, Db}
use paquitobot_rag.Service.{
  busy_result, call_sync_tenant, locked_or_synced, is_true, release_if, run_locked,
  run_with_owned_session, close,
}
use paquitobot_rag.Session.{
  Session, draw, enter_begin, close_begin, enter_nested, close_nested, end_transaction, rollback,
  try_acquire_sync_lock, release_sync_lock,
}
use paquitobot_rag.Session.Laws.{close_begin_cases}
use paquitobot_rag.Sync.State.{Env, Run, SyncResult, Status}
use paquitobot_rag.Sync.Tenant.{sync_tenant}
use paquitobot_rag.Sync.Tenant.Atomic.{Ends}
use paquitobot_rag.Sync.Tenant.Body.{state_in}
use paquitobot_rag.Sync.Tenant.Nested.{RaisedInside, EndsInside, sync_tenant-EndsInside}
use paquitobot_rag.Sync.Tenant.Parts.{try_acquire_keeps}
use paquitobot_rag.Watermark.{watermark_of, read_watermark, find_state}

module _ (env : Env) (t : ℕ) (s : Session) (found : Option SyncState) where
  -- The session when the lock was asked for, and the time that a run would read next.
  abbrev pub asked : Session
  asked = (try_acquire_sync_lock env.server t (enter_begin s)).1

  abbrev pub run_time : ℕ
  run_time = env.server.now asked.tick

  -- The session that a run under the lock is given, and the run.
  abbrev pub inside : Session
  inside = record asked { tick = suc asked.tick }

  abbrev pub ran : SyncResult × Run
  ran = sync_tenant env t true run_time inside

  -- The result and the database are those of the run, which ends as one by itself does.
  abbrev pub IsRun : SyncResult → Db → Type 0
  IsRun a d =
      (a ≡ ran.0)
      × (d ≡ ran.1.session.db)
      × Ends env t true run_time s found (RaisedInside env t true run_time inside found) a d

  -- The lock was not got, or the server refused what the run would have committed.
  abbrev pub NotRun : Type 0
  NotRun =
      ((try_acquire_sync_lock env.server t (enter_begin s)).0 ≢ ok true)
      ⊎ (env.server.accepts ran.1.session.db && env.server.commits ran.1.session.db ≡ false)

  abbrev pub IsBusy : SyncResult → Db → Type 0
  IsBusy a d = (a.status ≡ Status.locked) × (d ≡ s.durable) × NotRun

  -- How the service ends.
  abbrev pub Served : Result SyncResult → Db → Type 0
  Served (err e) d = (d ≡ s.durable) × NotRun
  Served (ok a) d = IsBusy a d ⊎ IsRun a d

  abbrev ServedBy : Result SyncResult × Session → Type 0
  ServedBy p = Served p.0 p.1.durable

  -- What the work leaves before the transaction ends.
  abbrev Worked : Result SyncResult × Session → Type 0
  Worked (r, s') = (s'.durable ≡ s.durable) × Served r s'.db

  closed-ServedBy :
      (p : Result SyncResult × Session)
      → ((a : SyncResult) → p.0 ≡ ok a → Served (ok a) p.1.db)
      → p.1.durable ≡ s.durable
      → NotRun
      → ServedBy (close_begin env.server p)
  unfolding end_transaction
  closed-ServedBy (r, s') h d not_run = elim (close_begin_cases env.server r s') [
    | inl (a, returned, closed) ↦ subst ServedBy (sym closed) (h a returned)
    | inr (x, closed) ↦ subst ServedBy (sym closed) (d, not_run)
  ]

  released-ServedBy :
      (b : Bool) (p : Result SyncResult × Session) → ServedBy p → ServedBy (release_if env t b p)
  unfolding release_sync_lock
  released-ServedBy false p h = h
  released-ServedBy true (r, s') h = elim (Bool-cases s'.postgres) [
    | inl on ↦ rw (on) h
    | inr off ↦ rw (off) h
  ]

  pub asked_keeps : (asked.durable ≡ s.durable) × (asked.db ≡ s.durable)
  asked_keeps = try_acquire_keeps env.server t (enter_begin s)

  asked_inside : asked.in_transaction ≡ true
  unfolding try_acquire_sync_lock
  asked_inside = elim (Bool-cases s.postgres) [ inl on ↦ rw (on) refl | inr off ↦ rw (off) refl ]

  -- A run inside a transaction that has just begun ends as one in its own.
  EndsInside-Ends :
      (run_at : ℕ) (nested : Session) (a : SyncResult) (d : Db)
      → nested.durable ≡ s.durable
      → nested.db ≡ s.durable
      → EndsInside env t true run_at nested found a d
      → Ends env t true run_at s found (RaisedInside env t true run_at nested found) a d
  EndsInside-Ends run_at nested a d durable db (inl done) = inl done
  EndsInside-Ends run_at nested a d durable db (inr (inl (status, same))) =
      inr (inl (status, same ∙ db))
  EndsInside-Ends run_at nested a d durable db
        (inr (inr (x, c, raised, class, status, told, last, inl same))) =
      inr (inr (x, c, raised, class, status, told, last, inl (same ∙ durable)))
  EndsInside-Ends run_at nested a d durable db
        (inr (inr (x, c, raised, class, status, told, last, inr (tables, mark)))) =
      inr
        (inr (x, c, raised, class, status, told, last, inr (tables ∙ ap (λ b. b.tables) db, mark)))

  busy_found :
      state_in t s.durable ≡ ok found
      → locked_or_synced env t (ok false) asked ≡ (
        ok (busy_result env t run_time (watermark_of found)),
        record asked { tick = suc asked.tick },
      )
  unfolding locked_or_synced read_watermark find_state draw ◌>>=◌ pure
  busy_found e = rw (ap (state_in t) asked_keeps.1 ∙ e) refl

  busy-Served :
      (a : SyncResult)
      → state_in t s.durable ≡ ok found
      → NotRun
      → (locked_or_synced env t (ok false) asked).0 ≡ ok a
      → Served (ok a) (locked_or_synced env t (ok false) asked).1.db
  busy-Served a e not_run returned =
      let run = busy_found e in
      let result : busy_result env t run_time (watermark_of found) ≡ a = cc in
      inl (ap (λ b. b.status) (sym result), ap (λ p. p.1.db) run ∙ asked_keeps.1, not_run)

  pub inside-Ends :
      state_in t s.durable ≡ ok found
      → (ran.1.session.durable ≡ s.durable) × IsRun ran.0 ran.1.session.db
  inside-Ends e =
      let (a, r) = sync_tenant env t true run_time inside in
      let (durable, db) = asked_keeps in
      let (kept, ends) =
        sync_tenant-EndsInside env t true run_time inside found asked_inside
          (ap (state_in t) db ∙ e) in
      (kept ∙ durable, (refl, refl, EndsInside-Ends run_time inside a r.session.db durable db ends))

  synced-ServedBy :
      state_in t s.durable ≡ ok found → ServedBy (close_begin env.server (ok ran.0, ran.1.session))
  unfolding close_begin end_transaction rollback
  synced-ServedBy e =
      let (durable, is_run) = inside-Ends e in
      elim (Bool-cases
        (env.server.accepts ran.1.session.db && env.server.commits ran.1.session.db)) [
          | inl fine ↦ rw (fine) (inr is_run)
          | inr refused ↦ rw (refused) (durable, inr refused)
        ]

  worked-ServedBy :
      state_in t s.durable ≡ ok found
      → (r : Result Bool) → (try_acquire_sync_lock env.server t (enter_begin s)).0 ≡ r
      → ServedBy (close_begin env.server (locked_or_synced env t r asked))
  unfolding locked_or_synced call_sync_tenant raise
  worked-ServedBy e (err x) got = closed-ServedBy _ (λ a returned. cc) asked_keeps.0 (inl (λ h. cc))
  worked-ServedBy e (ok false) got =
      let not_run : NotRun = inl (λ h. cc) in
      closed-ServedBy _ (λ a returned. busy-Served a e not_run returned)
        (ap (λ p. p.1.durable) (busy_found e) ∙ asked_keeps.0) not_run
  worked-ServedBy e (ok true) got = synced-ServedBy e

  -- `_run_locked`, by whether the session is in a transaction
  abbrev run_by : Bool → Result SyncResult × Session
  run_by inside =
      let (acquired, entered) =
        try_acquire_sync_lock env.server t (if inside then enter_nested s else enter_begin s) in
      let worked = locked_or_synced env t acquired entered in
      release_if env t (is_true env t acquired)
        (if inside then close_nested env.server s.db worked else close_begin env.server worked)

  -- A run of the service on a session without a transaction, on a database where the tenant has at
  -- most one sync state: it returns the result of the run of `sync_tenant`, whose database is durable;
  -- or the lock is busy, or it raises, and the durable database is as it was.
  pub run_locked-Served :
      s.in_transaction ≡ false
      → state_in t s.durable ≡ ok found
      → let (r, s') = run_locked env t s in Served r s'.durable
  unfolding run_locked
  run_locked-Served idle e = subst ServedBy (sym (ap run_by idle)) (
      released-ServedBy (is_true env t (try_acquire_sync_lock env.server t (enter_begin s)).0) _
        (worked-ServedBy e (try_acquire_sync_lock env.server t (enter_begin s)).0 refl))

  close_begin_idle :
      (p : Result SyncResult × Session) → (close_begin env.server p).1.in_transaction ≡ false
  unfolding end_transaction
  close_begin_idle (r, s') = elim (close_begin_cases env.server r s') [
    | inl (a, returned, closed) ↦ ap (λ p. p.1.in_transaction) closed
    | inr (x, closed) ↦ ap (λ p. p.1.in_transaction) closed
  ]

  release_idle :
      (b : Bool) (p : Result SyncResult × Session)
      → p.1.in_transaction ≡ false
      → (release_if env t b p).1.in_transaction ≡ false
  unfolding release_sync_lock
  release_idle false p h = h
  release_idle true (r, s') h = elim (Bool-cases s'.postgres) [
    | inl on ↦ rw (on) h
    | inr off ↦ rw (off) h
  ]

  -- The transaction is ended.
  pub run_locked_idle : s.in_transaction ≡ false → (run_locked env t s).1.in_transaction ≡ false
  unfolding run_locked
  run_locked_idle idle =
      let acquired = (try_acquire_sync_lock env.server t (enter_begin s)).0 in
      let worked = locked_or_synced env t acquired asked in
      ap (λ b. (run_by b).1.in_transaction) idle
      ∙ release_idle (is_true env t acquired) (close_begin env.server worked)
          (close_begin_idle worked)

  -- On a session of its own the service ends as on the caller's.
  pub run_with_owned_session-Served :
      s.in_transaction ≡ false
      → state_in t s.durable ≡ ok found
      → let (r, s') = run_with_owned_session env t s in Served r s'.durable
  unfolding run_with_owned_session close
  run_with_owned_session-Served idle e = rw (run_locked_idle idle) (run_locked-Served idle e)
