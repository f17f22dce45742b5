-- ===== src/Sync/Tenant/Outcome.antt =====
-- How a run in its own transaction ends: its work is committed, or it is rolled back and the
-- failure is recorded.
use paquitobot_rag.Prelude.{
  ℕ, ◌≡◌, ◌≢◌, ◌⊎◌, refl, ap, ◌∙◌, Bool, true, false, Option, none, some, not, inl, inr, ◌==◌,
  Bool-cases, arith,
}
use paquitobot_rag.Exec.{Exn, Result}
use paquitobot_rag.Models.{SyncState, Db}
use paquitobot_rag.Session.{Session, enter_begin, close_begin, end_transaction}
use paquitobot_rag.Session.Laws.{close_begin_cases}
use paquitobot_rag.Watermark.{watermark_of}
use paquitobot_rag.Sync.State.{
  Env, Run, SyncResult, put_session, ErrorClass, canvas_unavailable, schema_drift, auth_rejected,
  unexpected,
}
use paquitobot_rag.Sync.Tenant.{
  body, with_scope, finish_failure, handle, start, classify, sync_tenant, release_if_acquired,
}
use paquitobot_rag.Sync.Tenant.Body.{state_in, remembered, rest, body_found}

-- The class that an exception is reported as: a 401 or 403 of Canvas is a rejected token, another
-- failed request says that Canvas is unavailable, and so does an error of the connection; a body that
-- is not what was expected is a drift of the schema; and every other exception is unexpected.
abbrev pub IsClassOf : Exn → ErrorClass → Type 0
IsClassOf (Exn.request_error none) c = c ≡ canvas_unavailable
IsClassOf (Exn.request_error (some status)) c =
    (((status ≡ 401) ⊎ (status ≡ 403)) × (c ≡ auth_rejected))
    ⊎ ((status ≢ 401) × (status ≢ 403) × (c ≡ canvas_unavailable))
IsClassOf (Exn.http_error true) c = c ≡ schema_drift
IsClassOf (Exn.http_error false) c = c ≡ canvas_unavailable
IsClassOf Exn.schema_drift c = c ≡ schema_drift
IsClassOf Exn.pagination_error c = c ≡ schema_drift
IsClassOf Exn.validation_error c = c ≡ schema_drift
IsClassOf e c = c ≡ unexpected

status-IsClassOf :
    (status : ℕ)
    → IsClassOf (Exn.request_error (some status)) (classify (Exn.request_error (some status)))
unfolding classify
status-IsClassOf status = elim (Bool-cases (status == 401)) [
  | inl first ↦ rw (first) (inl (inl (ground arith), refl))
  | inr other ↦ elim (Bool-cases (status == 403)) [
    | inl second ↦ rw (other, second) (inl (inr (ground arith), refl))
    | inr another ↦ rw (other, another) (inr (ground arith, ground arith, refl))
  ]
]

pub classify-IsClassOf : (e : Exn) → IsClassOf e (classify e)
unfolding classify
classify-IsClassOf (Exn.request_error none) = refl
classify-IsClassOf (Exn.request_error (some status)) = status-IsClassOf status
classify-IsClassOf (Exn.http_error true) = refl
classify-IsClassOf (Exn.http_error false) = refl
classify-IsClassOf Exn.schema_drift = refl
classify-IsClassOf Exn.pagination_error = refl
classify-IsClassOf Exn.validation_error = refl
classify-IsClassOf e = refl

module _ (env : Env) (t : ℕ) (lock_held : Bool) (run_at : ℕ) where
  -- The transaction is open and the tenant's state is read.
  abbrev pub opened : Session → Option SyncState → Run
  opened s found = remembered found (put_session (enter_begin s) (start env t s))

  -- The work, before the transaction ends.
  abbrev pub worked : Session → Option SyncState → Result SyncResult × Run
  worked s found = rest env t lock_held run_at (watermark_of found) (opened s found)

  abbrev pub ended : Db → Run → Run
  ended db r = put_session (end_transaction db r.session) r

  -- The result of the work, all of it durable.
  abbrev pub Completed : Session → Option SyncState → Type 0
  Completed s found =
      (a : SyncResult) × ((worked s found).0 ≡ Result.ok a)
      × (sync_tenant env t lock_held run_at s
          ≡ release_if_acquired env t (a, ended (worked s found).1.session.db (worked s found).1))

  -- The exception that `with scope:` ends with, of the work or of the end of its transaction
  abbrev pub Raised : Session → Exn → Type 0
  Raised s e =
      (with_scope env t true (body env t lock_held run_at) (start env t s)).0 ≡ Result.err e

  -- The result of a failure, after the work is rolled back.
  abbrev pub Failed : Session → Option SyncState → Type 0
  Failed s found =
      (e : Exn) × Raised s e
      × (sync_tenant env t lock_held run_at s
          ≡ release_if_acquired env t (
              finish_failure env t true run_at (classify e)
                (ended (worked s found).1.session.durable (worked s found).1)))

  -- The exit of the transaction, the `except` clauses and the `finally`.
  abbrev finish : Run → Result SyncResult × Session → SyncResult × Run
  finish r (result, s) =
      release_if_acquired env t (handle env t true run_at (result, put_session s r))

  abbrev close : Result SyncResult × Run → SyncResult × Run
  close (result, r) = finish r (close_begin env.server (result, r.session))

  abbrev sync_by : Bool → Session → SyncResult × Run
  sync_by owns s = release_if_acquired env t (
      handle env t owns run_at
        (with_scope env t owns (body env t lock_held run_at) (start env t s)))

  sync_tenant-eq-close :
      (s : Session) (found : Option SyncState)
      → s.in_transaction ≡ false
      → state_in t s.durable ≡ Result.ok found
      → sync_tenant env t lock_held run_at s ≡ close (worked s found)
  unfolding sync_tenant with_scope
  sync_tenant-eq-close s found idle e =
      ap (λ b. sync_by (not b) s) idle
      ∙ ap close
          (body_found env t lock_held run_at (put_session (enter_begin s) (start env t s)) found e)

  scope_raises :
      (s : Session) (found : Option SyncState) (x : Exn)
      → state_in t s.durable ≡ Result.ok found
      → (close_begin env.server ((worked s found).0, (worked s found).1.session)).0 ≡ Result.err x
      → Raised s x
  unfolding with_scope
  scope_raises s found x e closed =
      ap (λ w. (close_begin env.server (w.0, w.1.session)).0)
        (body_found env t lock_held run_at (put_session (enter_begin s) (start env t s)) found e)
      ∙ closed

  pub sync_tenant_cases :
      (s : Session) (found : Option SyncState)
      → s.in_transaction ≡ false
      → state_in t s.durable ≡ Result.ok found
      → Completed s found ⊎ Failed s found
  sync_tenant_cases s found idle e =
      let (result, r) = worked s found in
      let run = sync_tenant-eq-close s found idle e in
      elim (close_begin_cases env.server result r.session) [
        | inl (a, returned, closed) ↦ inl (a, returned, run ∙ ap (finish r) closed)
        | inr (x, closed) ↦
            inr (x, scope_raises s found x e (ap (λ p. p.0) closed), run ∙ ap (finish r) closed)
      ]
