-- ===== src/Scheduler/Pool.antt =====
-- A tick of app/sync/scheduler.py: `_tick`, `_dispatch_with_jitter` and `_WorkerPool.run` as the steps of
-- the tenants' coroutines, which the event loop takes in any order. asyncio's semaphore lets a coroutine
-- in while its counter is not zero, and counts up again at the end of the block, also after an exception.
pub mod Bounded
use paquitobot_rag.Prelude.{
  ℕ, zero, suc, ◌+◌, ◌*◌, List, [], ◌∷◌, ◌++◌, length, ◌==◌, if◌then◌else◌,
}
use paquitobot_rag.Exec.{Result, ok, err}
use paquitobot_rag.Scheduler.{new_worker_pool}

-- The tenants by where their coroutines are, and the counter of the semaphore
pub record Tick : Type 0 where
  pub sleeping : List ℕ
  pub waiting : List ℕ
  pub running : List ℕ
  pub finished : List ℕ
  pub free : ℕ

-- `gather`: every tenant's coroutine draws its delay.
abbrev pub start_tick : List ℕ → ℕ → Tick
start_tick tenants workers = record {
  sleeping = tenants;
  waiting = [];
  running = [];
  finished = [];
  free = workers;
}

-- The steps: a delay ends, a coroutine enters `async with self._semaphore`, and a run is over.
pub data Step : Tick → Tick → Type 0 where
  wake :
      (before : List ℕ) (t : ℕ) (after waiting running finished : List ℕ) (free : ℕ)
      → Step
          (record {
            sleeping = before ++ t ∷ after;
            waiting = waiting;
            running = running;
            finished = finished;
            free = free;
          })
          (record {
            sleeping = before ++ after;
            waiting = t ∷ waiting;
            running = running;
            finished = finished;
            free = free;
          })
  enter :
      (sleeping before : List ℕ) (t : ℕ) (after running finished : List ℕ) (free : ℕ)
      → Step
          (record {
            sleeping = sleeping;
            waiting = before ++ t ∷ after;
            running = running;
            finished = finished;
            free = suc free;
          })
          (record {
            sleeping = sleeping;
            waiting = before ++ after;
            running = t ∷ running;
            finished = finished;
            free = free;
          })
  leave_pool :
      (sleeping waiting before : List ℕ) (t : ℕ) (after finished : List ℕ) (free : ℕ)
      → Step
          (record {
            sleeping = sleeping;
            waiting = waiting;
            running = before ++ t ∷ after;
            finished = finished;
            free = free;
          })
          (record {
            sleeping = sleeping;
            waiting = waiting;
            running = before ++ after;
            finished = t ∷ finished;
            free = suc free;
          })

-- The states of a tick, for tenants and a pool of so many workers
pub data Reach (tenants : List ℕ) (workers : ℕ) : Tick → Type 0 where
  started : Reach tenants workers (start_tick tenants workers)
  stepped : {s s' : Tick} → Reach tenants workers s → Step s s' → Reach tenants workers s'

-- How often a tenant is in a list
unfoldable pub times : ℕ → List ℕ → ℕ
times t [] = 0
times t (x ∷ xs) = (if x == t then 1 else 0) + times t xs

-- The steps that are left
abbrev pub work : Tick → ℕ
work s = 3 * length s.sleeping + 2 * length s.waiting + length s.running
