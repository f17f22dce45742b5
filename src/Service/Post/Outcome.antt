-- ===== src/Service/Post/Outcome.antt =====
-- What each reply of `post_sync` says of the durable database, on a fresh session.
use paquitobot_rag.Prelude.{
  ℕ, ◌≡◌, ◌≢◌, ◌⊎◌, inl, inr, refl, sym, ap, ◌∙◌, String, Bool, true, false, false≢true, Option,
  none, Bool-cases, if◌then◌else◌,
}
use mathlib.Core.Path.{subst}
use paquitobot_rag.Exec.{Exn, Result, and_then, ok, err, pure, lift, ◌>>=◌, ◌>>◌}
use paquitobot_rag.Models.{SyncState, Db}
use paquitobot_rag.Query.{scalar_one_or_none}
use paquitobot_rag.Service.{
  close, manual_sync, autobegin, credentials_error, run_locked, run_sync_for_tenant,
}
use paquitobot_rag.Service.Locked.{
  run_time, inside, IsRun, Served, run_locked-Served, run_locked_idle,
}
use paquitobot_rag.Service.Post.{
  Reply, accepted, sync_throttled, sync_locked, tenant_credentials_missing, commit, is_missing,
  is_locked, reply_to, run_and_reply, after_limit, post_sync,
}
use paquitobot_rag.Service.Throttle.{
  time_of, drawn, Finds, enforce_early, enforce_late, enforce_cases,
}
use paquitobot_rag.Session.{Session, close_begin, end_transaction, enter_begin, rollback}
use paquitobot_rag.Session.Laws.{close_begin_cases}
use paquitobot_rag.Sync.State.{Env, CanvasClient, SyncResult, Status}
use paquitobot_rag.Sync.Tenant.Atomic.{Ends}
use paquitobot_rag.Sync.Tenant.Nested.{RaisedInside}
use paquitobot_rag.Sync.Tenant.Body.{state_in}
use paquitobot_rag.Watermark.{write_state, stamp}
use paquitobot_rag.Watermark.Laws.{write_state_keeps}
use paquitobot_rag.Watermark.Others.{write_state_other, write_state_inside}

is_locked_sound : (x : Status) → is_locked x ≡ true → x ≡ Status.locked
is_locked_sound Status.locked h = refl
is_locked_sound Status.ok h = cc
is_locked_sound Status.failed h = cc

Ends-locked :
    (env : Env) (t : ℕ) (lock_held : Bool) (run_at : ℕ) (s : Session) (found : Option SyncState)
    (raised : Exn → Type 0) (a : SyncResult) (d : Db)
    → a.status ≡ Status.locked
    → Ends env t lock_held run_at s found raised a d
    → d ≡ s.durable
Ends-locked env t lock_held run_at s found raised a d locked (inl ((status, _, _, _), _)) = cc
Ends-locked env t lock_held run_at s found raised a d locked (inr (inl (status, same))) = same
Ends-locked env t lock_held run_at s found raised a d locked
      (inr (inr (x, c, _, _, status, _, _, _))) =
    cc

module _ (env : Env) (t : ℕ) (s : Session) (found : Option SyncState) (a : SyncResult)
    (d : Db) where
  Served-locked : a.status ≡ Status.locked → Served env t s found (ok a) d → d ≡ s.durable
  Served-locked locked (inl (status, same, _)) = same
  Served-locked locked (inr (_, _, ends)) =
      Ends-locked env t true (run_time env t s found) s found
        (RaisedInside env t true (run_time env t s found) (inside env t s found) found) a d locked
        ends

  Served-IsRun : a.status ≢ Status.locked → Served env t s found (ok a) d → IsRun env t s found a d
  Served-IsRun unlocked (inl (status, _, _)) = absurd (unlocked status)
  Served-IsRun unlocked (inr is_run) = is_run

module _ (env : Env) (client_factory : String → CanvasClient) (interval t : ℕ)
    (token : Result String) (s : Session) (manual users : Option SyncState) where
  -- The manual run is stamped, and the stamp is committed.
  abbrev stamped : Session
  stamped =
      let now = time_of env.server t interval s in
      (write_state t manual_sync (stamp now now "ok" none) manual
        (drawn env.server t interval (autobegin s))).1

  abbrev started : Session
  started = end_transaction stamped.db stamped

  abbrev with_token : String → Env
  with_token token' = record env { client = client_factory token' }

  -- What a reply says of the durable database.
  abbrev pub Posted : Result Reply → Db → Type 0
  Posted (err e) d = (d ≡ s.durable) ⊎ (d ≡ stamped.db)
  Posted (ok (sync_throttled wait)) d = d ≡ s.durable
  Posted (ok (sync_locked wait)) d = d ≡ stamped.db
  Posted (ok tenant_credentials_missing) d = d ≡ stamped.db
  Posted (ok (accepted a)) d =
      (token' : String) × (token ≡ ok token')
      × (a.status ≢ Status.locked)
      × IsRun (with_token token') t started users a d

  abbrev PostedBy : Result Reply × Session → Type 0
  PostedBy p = Posted p.0 p.1.durable

  close-PostedBy : (p : Result Reply × Session) → PostedBy p → PostedBy (close p)
  unfolding close rollback end_transaction
  close-PostedBy (r, s') h = elim (Bool-cases s'.in_transaction) [
    | inl open_ ↦ rw (open_) h
    | inr closed ↦ rw (closed) h
  ]

  stamped_users :
      s.in_transaction ≡ false → state_in t s.durable ≡ ok users → state_in t stamped.db ≡ ok users
  stamped_users idle e =
      let now = time_of env.server t interval s in
      ap scalar_one_or_none (
        write_state_other t manual_sync "users" refl (stamp now now "ok" none) manual
          (drawn env.server t interval (autobegin s)) (λ x. (refl, refl)))
      ∙ ap (λ b. state_in t (if b then s else enter_begin s).db) idle
      ∙ e

  reply_to-err :
      (e : Exn) (s' : Session)
      → s'.durable ≡ stamped.db
      → PostedBy (reply_to env client_factory interval t token (err e) s')
  unfolding reply_to rollback end_transaction
  reply_to-err e s' h = elim (Bool-cases (is_missing e)) [
    | inl missing ↦ rw (missing) h
    | inr other ↦ rw (other) (inr h)
  ]

  reply_to-ok :
      (a : SyncResult) (s' : Session) (token' : String)
      → token ≡ ok token'
      → s'.in_transaction ≡ false
      → Served (with_token token') t started users (ok a) s'.durable
      → PostedBy (reply_to env client_factory interval t token (ok a) s')
  unfolding reply_to rollback end_transaction commit ◌>>=◌ pure
  reply_to-ok a s' token' given idle ends = elim (Bool-cases (is_locked a.status)) [
    | inl locked ↦ rw (locked) (
        Served-locked (with_token token') t started users a s'.durable
          (is_locked_sound a.status locked) ends)
    | inr other ↦
        let unlocked : a.status ≢ Status.locked = λ h. false≢true (sym other ∙ ap is_locked h) in
        rw (other, idle)
          (
            token',
            given,
            unlocked,
            Served-IsRun (with_token token') t started users a s'.durable unlocked ends,
          )
  ]

  reply_to-PostedBy :
      (r : Result SyncResult) (s' : Session) (token' : String)
      → token ≡ ok token'
      → s'.in_transaction ≡ false
      → Served (with_token token') t started users r s'.durable
      → PostedBy (reply_to env client_factory interval t token r s')
  unfolding end_transaction
  reply_to-PostedBy (err e) s' token' given idle served = reply_to-err e s' served.0
  reply_to-PostedBy (ok a) s' token' given idle served = reply_to-ok a s' token' given idle served

  abbrev replied : Result SyncResult × Session → Result Reply × Session
  replied p = reply_to env client_factory interval t token p.0 p.1

  run_sync_for_tenant-ok :
      (token' : String)
      → token ≡ ok token'
      → run_sync_for_tenant env client_factory false t token started
        ≡ run_locked (with_token token') t started
  unfolding run_sync_for_tenant ◌>>=◌ lift
  run_sync_for_tenant-ok token' given = rw (given) refl

  run_sync_for_tenant-err :
      (e : Exn)
      → token ≡ err e
      → run_sync_for_tenant env client_factory false t token started
        ≡ (err (credentials_error e), started)
  unfolding run_sync_for_tenant ◌>>=◌ lift
  run_sync_for_tenant-err e given = rw (given) refl

  run_and_reply-PostedBy :
      state_in t stamped.db ≡ ok users
      → PostedBy (run_and_reply env client_factory interval t token started)
  unfolding run_and_reply end_transaction
  run_and_reply-PostedBy e = go token refl
    where
      go :
          (r : Result String)
          → token ≡ r
          → PostedBy (replied (run_sync_for_tenant env client_factory false t token started))
      go (err x) given =
          subst (λ p. PostedBy (replied p)) (sym (run_sync_for_tenant-err x given))
            (reply_to-err (credentials_error x) started refl)
      go (ok token') given =
          subst (λ p. PostedBy (replied p)) (sym (run_sync_for_tenant-ok token' given))
            (reply_to-PostedBy (run_locked (with_token token') t started).0
              (run_locked (with_token token') t started).1 token' given
              (run_locked_idle (with_token token') t started users refl)
              (run_locked-Served (with_token token') t started users refl e))

  stamped_keeps :
      s.in_transaction ≡ false → (stamped.in_transaction ≡ true) × (stamped.durable ≡ s.durable)
  stamped_keeps idle =
      let now = time_of env.server t interval s in
      let begun = drawn env.server t interval (autobegin s) in
      (
        write_state_inside t manual_sync (stamp now now "ok" none) manual begun
            ∙ ap (λ b. (if b then s else enter_begin s).in_transaction) idle,
        (write_state_keeps t manual_sync (stamp now now "ok" none) manual begun).0
            ∙ ap (λ b. (if b then s else enter_begin s).durable) idle,
      )

  abbrev continued : Result (Unit {0}) × Session → Result Reply × Session
  continued p = and_then (λ _. run_and_reply env client_factory interval t token) p.0 p.1

  commit-PostedBy :
      s.in_transaction ≡ false
      → state_in t stamped.db ≡ ok users
      → PostedBy ((commit env.server >> run_and_reply env client_factory interval t token) stamped)
  unfolding commit ◌>>=◌ end_transaction
  commit-PostedBy idle e =
      let (inside, durable) = stamped_keeps idle in
      subst
        (λ b.
          PostedBy
            (continued (if b then close_begin env.server (ok tt, stamped) else (ok tt, stamped))))
        (sym inside)
        (elim (close_begin_cases env.server (ok tt) stamped) [
          | inl (u, returned, closed) ↦
              subst (λ p. PostedBy (continued p)) (sym closed) (run_and_reply-PostedBy e)
          | inr (x, closed) ↦ subst (λ p. PostedBy (continued p)) (sym closed) (inl durable)
        ])

  -- On a fresh session, on a database where the tenant has at most one state of each kind: an
  -- exception leaves what is durable, or adds the stamp of the manual run; a throttled reply leaves
  -- what is durable; a busy reply and a refusal add the stamp and no more; and an accepted reply has
  -- the result of the run of `sync_tenant` with the client of the stored token, after the stamp, and
  -- what that run leaves is durable.
  pub post_sync-Posted :
      s.in_transaction ≡ false
      → Finds env.server t interval s manual
      → state_in t s.durable ≡ ok users
      → let (r, s') = post_sync env client_factory interval t token s in Posted r s'.durable
  unfolding post_sync after_limit rollback end_transaction
  post_sync-Posted idle found e = elim (enforce_cases env.server t interval s manual) [
    | inl (last_run, ran, early) ↦
        subst (λ p. PostedBy (close (after_limit env client_factory interval t token p.0 p.1)))
          (sym (enforce_early env.server t interval s manual last_run found ran early))
          (close-PostedBy _ (ap (λ b. (if b then s else enter_begin s).durable) idle))
    | inr late ↦
        subst (λ p. PostedBy (close (after_limit env client_factory interval t token p.0 p.1)))
          (sym (enforce_late env.server t interval s manual found late))
          (close-PostedBy _ (commit-PostedBy idle (stamped_users idle e)))
  ]
