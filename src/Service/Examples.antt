-- ===== src/Service/Examples.antt =====
-- The rate limit, a run of the service and a reply of the controller at tenant 1 of the examples of
-- `sync_tenant`.
use paquitobot_rag.Prelude.{◌+◌, ◌*◌, ◌≤◌, max, ◌≡◌, refl, true, none, some, String}
use paquitobot_rag.Exec.{ok, ◌>>=◌, pure, modify}
use paquitobot_rag.Query.{select, scalar_one_or_none, update_where}
use paquitobot_rag.Service.{
  manual_sync, autobegin, enforce_manual_rate_limit, select_sync_state_last_run, check_window,
  stamp_manual_run,
}
use paquitobot_rag.Service.Post.{post_sync}
use paquitobot_rag.Service.Post.Outcome.{Posted, post_sync-Posted}
use paquitobot_rag.Service.Throttle.{Finds, enforce_manual_rate_limit_spaced}
use paquitobot_rag.Session.{Server, Session, draw, set_states}
use paquitobot_rag.Sync.State.{CanvasClient}
use paquitobot_rag.Sync.Tenant.{sync_tenant}
use paquitobot_rag.Sync.Tenant.Nested.{EndsInside, sync_tenant-EndsInside}
use paquitobot_rag.Sync.Tenant.Examples.{answering, idle, before, synced, idle_state}
use paquitobot_rag.Watermark.{find_state, write_state}

-- A clock of a minute and a half a tick.
abbrev slow : Server
slow = record (answering.server) { now = λ n. n * 90000000 }

no_stamp : Finds slow 1 60 idle none
unfolding find_state select scalar_one_or_none
no_stamp = refl

abbrev after_first : Session
after_first = (enforce_manual_rate_limit slow 1 60 idle).1

first_passes : (enforce_manual_rate_limit slow 1 60 idle).0 ≡ ok 0
unfolding enforce_manual_rate_limit find_state select scalar_one_or_none draw ◌>>=◌ pure
    select_sync_state_last_run check_window stamp_manual_run write_state modify
first_passes = refl

second_passes : (enforce_manual_rate_limit slow 1 60 after_first).0 ≡ ok 90000000
unfolding enforce_manual_rate_limit find_state select scalar_one_or_none draw ◌>>=◌ pure
    select_sync_state_last_run check_window stamp_manual_run write_state modify set_states
    update_where
second_passes = refl

same_stamp :
    (find_state 1 manual_sync (autobegin after_first)).0 ≡ (find_state 1 manual_sync after_first).0
unfolding enforce_manual_rate_limit find_state select scalar_one_or_none draw ◌>>=◌ pure
    select_sync_state_last_run check_window stamp_manual_run write_state modify set_states
same_stamp = refl

enforce_manual_rate_limit_spaced_example : 0 + max 1 60 * 1000000 ≤ 90000000
enforce_manual_rate_limit_spaced_example =
    enforce_manual_rate_limit_spaced slow 1 60 idle after_first none 0 90000000 no_stamp
      first_passes same_stamp second_passes

abbrev begun : Session
begun = record idle { in_transaction = true }

sync_tenant-EndsInside_example :
    let (a, r) = sync_tenant answering 1 true 50 begun in
    (r.session.durable ≡ before) × EndsInside answering 1 true 50 begun (some synced) a r.session.db
sync_tenant-EndsInside_example =
    sync_tenant-EndsInside answering 1 true 50 begun (some synced) refl idle_state

abbrev client_of : String → CanvasClient
client_of token = answering.client

no_manual_run : Finds answering.server 1 60 idle none
unfolding find_state select scalar_one_or_none
no_manual_run = refl

post_sync-Posted_example :
    let (r, s) = post_sync answering client_of 60 1 (ok "canvas") idle in
    Posted answering client_of 60 1 (ok "canvas") idle none (some synced) r s.durable
post_sync-Posted_example =
    post_sync-Posted answering client_of 60 1 (ok "canvas") idle none (some synced) refl
      no_manual_run idle_state
