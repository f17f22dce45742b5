-- ===== src/Scheduler/Runs.antt =====
-- What a scheduled run leaves, and which tenants a tick runs.
use paquitobot_rag.Prelude.{
  ℕ, ◌≡◌, ◌⊎◌, inl, inr, refl, sym, ap, ◌∙◌, String, Bool, true, false, Option, Bool-cases, List,
  [], ◌∷◌, ◌==◌, ◌||◌, ◌&&◌, any, arith,
}
use mathlib.Core.Path.{subst}
use paquitobot_rag.Exec.{Result, ok, err, lift, ◌>>=◌}
use paquitobot_rag.Lock.{contains}
use paquitobot_rag.Models.{SyncState, Db}
use paquitobot_rag.Scheduler.{
  list_tenant_ids, unless_busy, release_if, run_on_session, run_for_tenant,
}
use paquitobot_rag.Service.{is_true, run_sync_for_tenant, run_with_owned_session}
use paquitobot_rag.Service.Locked.{
  Served, IsRun, NotRun, ran, run_with_owned_session-Served, asked, asked_keeps, inside-Ends,
}
use paquitobot_rag.Session.{
  Session, enter_begin, close_begin, end_transaction, rollback, try_acquire_sync_lock,
}
use paquitobot_rag.Session.Laws.{close_begin_cases}
use paquitobot_rag.Sync.State.{Env, CanvasClient, SyncResult}
use paquitobot_rag.Sync.Tenant.Body.{state_in}
use paquitobot_rag.Tenancy.Stored.{CanvasCredential, of_tenant}

module _ (env : Env) (t : ℕ) (s : Session) (found : Option SyncState) where
  -- The run's database is durable; or the lock was not got or the server refused the commit, and the
  -- database is as it was.
  abbrev pub Ran : Db → Type 0
  Ran d = ((d ≡ s.durable) × NotRun env t s found) ⊎ ((a : SyncResult) × IsRun env t s found a d)

  abbrev worked : Result Bool → Result (Unit {0}) × Session
  worked r = unless_busy env t r (asked env t s found)

  unrun-Ran :
      (p : Result (Unit {0}) × Session)
      → p.1.durable ≡ s.durable
      → p.1.db ≡ s.durable
      → NotRun env t s found
      → Ran (close_begin env.server p).1.durable
  unfolding end_transaction
  unrun-Ran (r, s') durable db not_run = elim (close_begin_cases env.server r s') [
    | inl (a, returned, closed) ↦ subst (λ p. Ran p.1.durable) (sym closed) (inl (db, not_run))
    | inr (x, closed) ↦ subst (λ p. Ran p.1.durable) (sym closed) (inl (durable, not_run))
  ]

  worked-Ran :
      state_in t s.durable ≡ ok found
      → (r : Result Bool) → (try_acquire_sync_lock env.server t (enter_begin s)).0 ≡ r
      → Ran (close_begin env.server (worked r)).1.durable
  unfolding unless_busy close_begin end_transaction rollback
  worked-Ran e (err x) got =
      let (durable, db) = asked_keeps env t s found in
      unrun-Ran (worked (err x)) durable db (inl (λ h. cc))
  worked-Ran e (ok false) got =
      let (durable, db) = asked_keeps env t s found in
      unrun-Ran (worked (ok false)) durable db (inl (λ h. cc))
  worked-Ran e (ok true) got =
      let (a, r) = ran env t s found in
      let (durable, is_run) = inside-Ends env t s found e in
      elim (Bool-cases (env.server.accepts r.session.db && env.server.commits r.session.db)) [
        | inl fine ↦ rw (fine) (inr (a, is_run))
        | inr refused ↦ rw (refused) (inl (durable, inr refl))
      ]

  released-Ran : (b : Bool) (s' : Session) → Ran s'.durable → Ran (release_if env t b s').durable
  released-Ran true s' h = h
  released-Ran false s' h = h

  pub run_on_session-Ran : state_in t s.durable ≡ ok found → Ran (run_on_session env t s).durable
  unfolding run_on_session
  run_on_session-Ran e =
      let acquired = (try_acquire_sync_lock env.server t (enter_begin s)).0 in
      released-Ran (is_true env t acquired) (close_begin env.server (worked acquired)).1
        (worked-Ran e acquired refl)

module _ (env : Env) (client_factory : String → CanvasClient) (t : ℕ) (token : String) (s : Session)
    (found : Option SyncState) where
  abbrev with_token : Env
  with_token = record env { client = client_factory token }

  Served-Ran :
      (r : Result SyncResult) (d : Db)
      → Served with_token t s found r d
      → Ran with_token t s found d
  Served-Ran (err e) d unrun = inl unrun
  Served-Ran (ok a) d (inl (_, same, unrun)) = inl (same, unrun)
  Served-Ran (ok a) d (inr is_run) = inr (a, is_run)

  -- A scheduled run of a tenant with at most one sync state on a fresh session, by the scheduler or by
  -- a service that was supplied, makes durable what the run of `sync_tenant` with the client of the
  -- stored token leaves; unless the tenant's lock is not got or the server refuses the commit, and then
  -- the durable database is as it was.
  pub run_for_tenant-Ran :
      (has_service : Bool)
      → s.in_transaction ≡ false
      → state_in t s.durable ≡ ok found
      → Ran with_token t s found
          (run_for_tenant env client_factory has_service t (ok token) s).durable
  unfolding run_for_tenant run_sync_for_tenant ◌>>=◌ lift
  run_for_tenant-Ran false idle e = run_on_session-Ran with_token t s found e
  run_for_tenant-Ran true idle e =
      let (r, s') = run_with_owned_session with_token t s in
      Served-Ran r s'.durable (run_with_owned_session-Served with_token t s found idle e)

contains_same : (a t : ℕ) (ids : List ℕ) → a == t ≡ true → contains a ids ≡ contains t ids
contains_same a t ids same = let e : a ≡ t = ground arith in rw (e) refl

contains-list_tenant_ids :
    (rows : List CanvasCredential) (t : ℕ)
    → contains t (list_tenant_ids rows) ≡ any (of_tenant t) rows
unfolding list_tenant_ids
contains-list_tenant_ids [] t = refl
contains-list_tenant_ids (row ∷ rows) t =
    let rest = list_tenant_ids rows in
    let again = contains-list_tenant_ids rows t in
    elim (Bool-cases (contains row.tenant_id rest)) [
      | inl seen ↦ elim (Bool-cases (row.tenant_id == t)) [
        | inl same ↦ rw (seen, same) (sym (contains_same row.tenant_id t rest same) ∙ seen)
        | inr other ↦ rw (seen, other) again
      ]
      | inr new ↦ rw (new) (ap (λ b. row.tenant_id == t || b) again)
    ]

-- No id is in the list twice.
abbrev pub IsDistinct : List ℕ → Type 0
IsDistinct [] = Unit {0}
IsDistinct (a ∷ ids) = (contains a ids ≡ false) × IsDistinct ids

list_tenant_ids-IsDistinct : (rows : List CanvasCredential) → IsDistinct (list_tenant_ids rows)
unfolding list_tenant_ids
list_tenant_ids-IsDistinct [] = tt
list_tenant_ids-IsDistinct (row ∷ rows) =
    elim (Bool-cases (contains row.tenant_id (list_tenant_ids rows))) [
      | inl seen ↦ rw (seen) (list_tenant_ids-IsDistinct rows)
      | inr new ↦ rw (new) (new, list_tenant_ids-IsDistinct rows)
    ]

-- A tick runs the tenants that have a credential, each of them once.
pub list_tenant_ids_exact :
    (rows : List CanvasCredential)
    → IsDistinct (list_tenant_ids rows)
      × ((t : ℕ) → contains t (list_tenant_ids rows) ≡ any (of_tenant t) rows)
list_tenant_ids_exact rows = (list_tenant_ids-IsDistinct rows, contains-list_tenant_ids rows)
