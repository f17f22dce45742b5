-- ===== src/Scheduler/Pool/Bounded.antt =====
-- How many tenants run at once, and that every one of them runs.
use paquitobot_rag.Prelude.{
  ℕ, zero, suc, ◌+◌, ◌≤◌, ◌≡◌, refl, ap, ◌⊎◌, inl, inr, List, [], ◌∷◌, ◌++◌, length, arith,
}
use paquitobot_rag.Exec.{ok}
use paquitobot_rag.Scheduler.{new_worker_pool, max_workers_per_process}
use paquitobot_rag.Scheduler.Pool.{
  Tick, Step, wake, enter, leave_pool, Reach, started, stepped, times, work,
}

length-insert :
    (before : List ℕ) (t : ℕ) (after : List ℕ)
    → length (before ++ t ∷ after) ≡ suc (length (before ++ after))
length-insert [] t after = refl
length-insert (x ∷ before) t after = ap suc (length-insert before t after)

times-insert :
    (u : ℕ) (before : List ℕ) (t : ℕ) (after : List ℕ)
    → times u (before ++ t ∷ after) ≡ times u (t ∷ before ++ after)
unfolding times
times-insert u [] t after = refl
times-insert u (x ∷ before) t after = let ih = times-insert u before t after in omega arith

-- All workers are free or run a tenant, and every tenant is somewhere.
pub record IsSteady (tenants : List ℕ) (workers : ℕ) (s : Tick) : Type 0 where
  pub workers_kept : length s.running + s.free ≡ workers
  pub tenants_kept :
      (t : ℕ)
      → times t s.sleeping + times t s.waiting + times t s.running + times t s.finished
        ≡ times t tenants

module _ (tenants : List ℕ) (workers : ℕ) where
  Step-IsSteady :
      {s s' : Tick} → Step s s' → IsSteady tenants workers s → IsSteady tenants workers s'
  unfolding times
  Step-IsSteady (wake before t after waiting running finished free) steady = record {
    workers_kept = steady.workers_kept;
    tenants_kept = λ u.
        let moved = times-insert u before t after in
        let kept = steady.tenants_kept u in omega arith;
  }
  Step-IsSteady (enter sleeping before t after running finished free) steady = record {
    workers_kept = let kept = steady.workers_kept in omega arith;
    tenants_kept = λ u.
        let moved = times-insert u before t after in
        let kept = steady.tenants_kept u in omega arith;
  }
  Step-IsSteady (leave_pool sleeping waiting before t after finished free) steady = record {
    workers_kept =
        let kept = steady.workers_kept in let moved = length-insert before t after in omega arith;
    tenants_kept = λ u.
        let moved = times-insert u before t after in
        let kept = steady.tenants_kept u in omega arith;
  }

  Reach-IsSteady : {s : Tick} → Reach tenants workers s → IsSteady tenants workers s
  unfolding times
  Reach-IsSteady started = record { workers_kept = omega arith; tenants_kept = λ t. omega arith }
  Reach-IsSteady (stepped reach step) = Step-IsSteady step (Reach-IsSteady reach)

  work-Step : {s s' : Tick} → Step s s' → work s ≡ suc (work s')
  work-Step (wake before t after waiting running finished free) =
      let moved = length-insert before t after in omega arith
  work-Step (enter sleeping before t after running finished free) =
      let moved = length-insert before t after in omega arith
  work-Step (leave_pool sleeping waiting before t after finished free) =
      let moved = length-insert before t after in omega arith

  -- No tenant runs or waits, and each has finished as often as it was listed.
  pub record IsOver (s : Tick) : Type 0 where
    pub none_runs : s.running ≡ []
    pub all_finished : (t : ℕ) → times t s.finished ≡ times t tenants

  next_of :
      (sleeping waiting running finished : List ℕ) (free : ℕ)
      → let s : Tick = record {
        sleeping = sleeping;
        waiting = waiting;
        running = running;
        finished = finished;
        free = free;
      } in
        IsSteady tenants workers s → 1 ≤ workers → IsOver s ⊎ ((s' : Tick) × Step s s')
  unfolding times
  next_of (t ∷ rest) w r f n steady some_worker = inr (_, wake [] t rest w r f n)
  next_of [] w (t ∷ rest) f n steady some_worker = inr (_, leave_pool [] w [] t rest f n)
  next_of [] (t ∷ rest) [] f (suc n) steady some_worker = inr (_, enter [] [] t rest [] f n)
  next_of [] (t ∷ rest) [] f zero steady some_worker =
      let kept = steady.workers_kept in let none_left : ⊥ = omega arith in elim none_left [ ]
  next_of [] [] [] f n steady some_worker = inl (record {
    none_runs = refl;
    all_finished = λ u. let kept = steady.tenants_kept u in omega arith;
  })

pool_size :
    (max_workers workers : ℕ)
    → new_worker_pool max_workers ≡ ok workers
    → (workers ≤ max_workers_per_process) × (workers ≤ max_workers) × (1 ≤ workers)
unfolding new_worker_pool
pool_size max_workers workers e = ground arith

-- In whatever order the event loop takes the steps of a tick over any tenants, with a pool of any size
-- that is accepted: no more than four tenants run at once, nor more than the size; and the tick is
-- over, with each tenant finished as often as it was listed, or there is a step, and every step leaves
-- one step less.
pub Reach-IsOver :
    (tenants : List ℕ) (max_workers workers : ℕ) (s : Tick)
    → new_worker_pool max_workers ≡ ok workers
    → Reach tenants workers s
    → (length s.running ≤ max_workers_per_process)
      × (length s.running ≤ max_workers)
      × (IsOver tenants workers s ⊎ ((s' : Tick) × Step s s' × (work s ≡ suc (work s'))))
Reach-IsOver tenants max_workers workers s accepted reach =
    let steady = Reach-IsSteady tenants workers reach in
    let kept = steady.workers_kept in
    let (few, fewer, some_worker) = pool_size max_workers workers accepted in
    (
      omega arith,
      omega arith,
      elim (next_of tenants workers s.sleeping s.waiting s.running s.finished s.free steady
          some_worker) [
            | inl over ↦ inl over
            | inr (s', step) ↦ inr (s', step, work-Step tenants workers step)
          ],
    )
