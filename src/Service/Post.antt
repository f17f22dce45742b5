-- ===== src/Service/Post.antt =====
-- `post_sync` of app/controllers/sync.py: the rate limit, its commit, the run, and the reply. The
-- tenant and the stored token come from the dependencies of the request.
pub mod Outcome
use paquitobot_rag.Prelude.{ℕ, max, String, Bool, true, false, Option, none, some, if◌then◌else◌}
use paquitobot_rag.Exec.{Exn, Result, ok, err, credentials_missing, Exec, pure, raise, ◌>>=◌, ◌>>◌}
use paquitobot_rag.Service.{close, enforce_manual_rate_limit, run_sync_for_tenant}
use paquitobot_rag.Session.{Server, Session, close_begin, rollback}
use paquitobot_rag.Sync.State.{Env, CanvasClient, SyncResult, Status}

-- The responses: 202, 429 with one of two codes and its `Retry-After`, and 403.
pub data Reply : Type 0 where
  accepted : SyncResult → Reply
  sync_throttled sync_locked : ℕ → Reply
  tenant_credentials_missing : Reply

-- `session.commit()`
unfoldable pub commit : Server → Exec Session (Unit {0})
commit server s = if s.in_transaction then close_begin server (ok tt, s) else (ok tt, s)

abbrev pub throttled_of : Exn → Option ℕ
throttled_of (Exn.sync_throttled n) = some n
throttled_of _ = none

abbrev pub is_missing : Exn → Bool
is_missing credentials_missing = true
is_missing _ = false

abbrev pub is_locked : Status → Bool
is_locked Status.locked = true
is_locked _ = false

module _ (env : Env) (client_factory : String → CanvasClient) (interval t : ℕ)
    (token : Result String) where
  pub reply_to : Result SyncResult → Exec Session Reply
  unfolding commit
  reply_to (err e) s =
      if is_missing e then (ok tenant_credentials_missing, rollback s) else (err e, s)
  reply_to (ok result) s =
      if is_locked result.status
      then (ok (sync_locked (max 1 interval)), rollback s)
      else (commit env.server >> pure (accepted result)) s

  pub run_and_reply : Exec Session Reply
  unfolding reply_to
  run_and_reply s =
      let (r, s') = run_sync_for_tenant env client_factory false t token s in reply_to r s'

  abbrev pub throttled_or_raised : Exn → Option ℕ → Exec Session Reply
  throttled_or_raised e none s = (err e, s)
  throttled_or_raised e (some n) s = (ok (sync_throttled (max 1 n)), rollback s)

  pub after_limit : Result ℕ → Exec Session Reply
  unfolding run_and_reply
  after_limit (err e) = throttled_or_raised e (throttled_of e)
  after_limit (ok now) = commit env.server >> run_and_reply

  -- `post_sync`, on the session that `get_db_session` yields
  unfoldable pub post_sync : Exec Session Reply
  unfolding after_limit
  post_sync s =
      let (limit, s') = enforce_manual_rate_limit env.server t interval s in
      close (after_limit limit s')
