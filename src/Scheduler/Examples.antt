-- ===== src/Scheduler/Examples.antt =====
-- The scheduled run of one tenant, and a tick over two.
use paquitobot_rag.Prelude.{suc, ◌≤◌, ◌≡◌, ◌⊎◌, String, true, refl, some, [], ◌∷◌, length}
use paquitobot_rag.Exec.{ok}
use paquitobot_rag.Scheduler.{run_for_tenant, new_worker_pool, max_workers_per_process}
use paquitobot_rag.Scheduler.Pool.{Tick, Step, Reach, started, stepped, wake, enter, work}
use paquitobot_rag.Scheduler.Pool.Bounded.{IsOver, Reach-IsOver}
use paquitobot_rag.Scheduler.Runs.{Ran, run_for_tenant-Ran}
use paquitobot_rag.Sync.State.{CanvasClient}
use paquitobot_rag.Sync.Tenant.Examples.{answering, idle, synced, idle_state}

abbrev client_of : String → CanvasClient
client_of token = answering.client

run_for_tenant-Ran_example :
    Ran answering 1 idle
      (some synced)
      (run_for_tenant answering client_of true 1 (ok "canvas") idle).durable
run_for_tenant-Ran_example =
    run_for_tenant-Ran answering client_of 1 "canvas" idle (some synced) true refl idle_state

-- A pool of one worker runs tenant 7, and tenant 8 sleeps.
abbrev one_runs : Tick
one_runs = record { sleeping = 8 ∷ []; waiting = []; running = 7 ∷ []; finished = []; free = 0 }

one_reached : Reach (7 ∷ 8 ∷ []) 1 one_runs
one_reached =
    stepped (stepped started (wake [] 7 (8 ∷ []) [] [] [] 1)) (enter (8 ∷ []) [] 7 [] [] [] 0)

pool_of_one : new_worker_pool 1 ≡ ok 1
unfolding new_worker_pool
pool_of_one = refl

Reach-IsOver_example :
    (length one_runs.running ≤ max_workers_per_process)
    × (length one_runs.running ≤ 1)
    × (IsOver (7 ∷ 8 ∷ []) 1 one_runs
        ⊎ ((s' : Tick) × Step one_runs s' × (work one_runs ≡ suc (work s'))))
Reach-IsOver_example = Reach-IsOver (7 ∷ 8 ∷ []) 1 1 one_runs pool_of_one one_reached
