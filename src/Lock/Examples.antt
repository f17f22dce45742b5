-- ===== src/Lock/Examples.antt =====
-- Runs of app/sync/lock.py on two sessions.
use paquitobot_rag.Prelude.{ℕ, ◌≡◌, ◌≢◌, refl, true, false, none, [], arith}
use paquitobot_rag.Lock.{
  Process, is_locked, try_acquire_sqlite, release_sync_lock, release_session_fallback_locks,
}
use paquitobot_rag.Lock.Exclusion.{Holds, start, attempt, Reach-single, release_by_stranger}

abbrev fresh : Process
fresh = record { registry = λ _. none; info = λ _. [] }

-- Session 1 holds tenant 7.
abbrev taken : Process
taken = (try_acquire_sqlite 1 7 fresh).0

lock_runs :
    (is_locked 7 taken ≡ true)
    × ((try_acquire_sqlite 2 7 taken).1 ≡ false)
    × ((try_acquire_sqlite 2 8 taken).1 ≡ true)
    × ((try_acquire_sqlite 2 7 (release_sync_lock 1 7 taken)).1 ≡ true)
    × ((try_acquire_sqlite 2 7 (release_session_fallback_locks 1 taken)).1 ≡ true)
unfolding try_acquire_sqlite release_sync_lock release_session_fallback_locks
lock_runs = (refl, refl, refl, refl, refl)

taken_held : Holds taken 1 7
unfolding try_acquire_sqlite
taken_held = refl

Reach-single_example : ◌≡◌ {A = ℕ} 1 1
Reach-single_example = Reach-single (attempt 1 7 start) 1 1 7 taken_held taken_held

taken_locked : is_locked 7 taken ≡ true
unfolding try_acquire_sqlite
taken_locked = refl

two_ne_one : ◌≢◌ {A = ℕ} 2 1
two_ne_one = omega arith

release_by_stranger_example :
    Holds (release_sync_lock 2 7 taken) 1 7
    × ((try_acquire_sqlite 3 7 (release_sync_lock 2 7 taken)).1 ≡ true)
release_by_stranger_example = release_by_stranger 2 1 3 7 taken two_ne_one taken_held taken_locked
