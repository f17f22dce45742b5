-- ===== src/Scheduler/Lifecycle.antt =====
-- `start` and `shutdown` of app/sync/scheduler.py. The state is whether a scheduler is kept, the jobs that
-- it has, and how many of APScheduler's were started and not stopped; APScheduler is a parameter, by the
-- exceptions of its calls.
use paquitobot_rag.Prelude.{
  arith, ℕ, suc, ◌-◌, ◌≡◌, Bool, true, false, Option, none, some, if◌then◌else◌,
}
use paquitobot_rag.Exec.{Exn, ok, err, Exec}
use paquitobot_rag.Exec.Keeps.{Keeps}

pub record SyncScheduler : Type 0 where
  pub kept : Bool
  pub live : ℕ

abbrev begun : Option Exn → Exec SyncScheduler (Unit {0})
begun none s = (ok tt, record s { kept = true; live = suc s.live })
begun (some e) s = (err e, s)

-- `start`, with `scheduler_enabled` and the exception of adding the job or of starting
unfoldable pub start : Bool → Option Exn → Exec SyncScheduler (Unit {0})
start enabled raised s =
    if enabled then (if s.kept then (ok tt, s) else begun raised s) else (ok tt, s)

-- `shutdown`: an exception of `scheduler.shutdown` is swallowed, and the scheduler is dropped.
unfoldable pub shutdown : Option Exn → Exec SyncScheduler (Unit {0})
shutdown none s = (ok tt, if s.kept then record s { kept = false; live = s.live - 1 } else s)
shutdown (some e) s = (ok tt, record s { kept = false })

-- One scheduler is live while it is kept, and none otherwise.
pub record IsSingle (s : SyncScheduler) : Type 0 where
  pub single : s.live ≡ (if s.kept then 1 else 0)

began :
    (raised : Option Exn) (live : ℕ)
    → live ≡ 0
    → IsSingle (begun raised (record { kept = false; live = live })).1
began none live e = record { single = omega arith }
began (some x) live e = record { single = e }

pub start-Keeps : (enabled : Bool) (raised : Option Exn) → Keeps IsSingle (start enabled raised)
unfolding start
start-Keeps enabled raised = record { run = λ s single. go enabled s.kept s.live single.single }
  where
    go :
        (enabled kept : Bool) (live : ℕ)
        → live ≡ (if kept then 1 else 0)
        → IsSingle (start enabled raised (record { kept = kept; live = live })).1
    go false kept live e = record { single = e }
    go true true live e = record { single = e }
    go true false live e = began raised live e

-- Where it is stopped without an exception.
pub shutdown-Keeps : Keeps IsSingle (shutdown none)
unfolding shutdown
shutdown-Keeps = record { run = λ s single. stopped s.kept s.live single.single }
  where
    stopped :
        (kept : Bool) (live : ℕ)
        → live ≡ (if kept then 1 else 0)
        → IsSingle (shutdown none (record { kept = kept; live = live })).1
    stopped true live e = record { single = omega arith }
    stopped false live e = record { single = e }
