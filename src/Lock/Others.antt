-- ===== src/Lock/Others.antt =====
-- The locks that are held and that a session does not count as its own: no operation of the session
-- adds one.
use paquitobot_rag.Prelude.{ℕ, ◌≡◌, ◌⊎◌, Bool, true, false, not, ◌&&◌, [], arith}
use paquitobot_rag.Lock.{
  Process, assign, contains, is_locked, try_acquire_sqlite, release_sync_lock,
  release_session_fallback_locks,
}
use paquitobot_rag.Lock.Exclusion.{
  is_locked-release_all, info-release_session_fallback_locks, contains-discard_ne,
}

-- The lock of `k` is held, and the session does not remember it.
abbrev pub is_other : ℕ → ℕ → Process → Bool
is_other sid k p = is_locked k p && not (contains k (p.info sid))

-- What others are seen to hold afterwards, they were seen to hold before.
abbrev pub IsWithin : ℕ → Process → Process → Type 0
IsWithin sid before after =
    (k : ℕ) → (is_other sid k after ≡ false) ⊎ (is_other sid k before ≡ true)

pub IsWithin-refl : (sid : ℕ) (p : Process) → IsWithin sid p p
IsWithin-refl sid p k = ground arith

pub try_acquire-is_other :
    (sid t k : ℕ) (p : Process) → is_other sid k (try_acquire_sqlite sid t p).0 ≡ is_other sid k p
unfolding try_acquire_sqlite
try_acquire-is_other sid t k p = ground arith

pub release-IsWithin : (sid t : ℕ) (p : Process) → IsWithin sid p (release_sync_lock sid t p)
unfolding release_sync_lock
release-IsWithin sid t p k = ground (arith, contains-discard_ne t k (p.info sid))

-- After the hook the session remembers none, so all that is held is held by others.
pub hook-is_other :
    (sid k : ℕ) (p : Process)
    → is_other sid k (release_session_fallback_locks sid p) ≡ is_other sid k p
unfolding release_session_fallback_locks
hook-is_other sid k p = ground (
  arith,
  info-release_session_fallback_locks sid p,
  is_locked-release_all (p.info sid) k (record p { info = assign sid [] p.info }),
)
