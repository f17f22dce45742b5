-- ===== src/Lock.antt =====
-- app/sync/lock.py: the process-wide fallback locks, keyed by tenant. `_tenant_locks` is a map from
-- a tenant to its lock, which is held or free; each session remembers in its `info` the tenants
-- that it has locked. A tenant key is the tenant's UUID, whose text is never blank, so the
-- `ValueError` of `_tenant_key` does not arise. The PostgreSQL lock is in Session.antt.
pub mod Examples
pub mod Exclusion
pub mod Key
pub mod Others
use paquitobot_rag.Prelude.{
  ℕ, Bool, true, false, Option, none, some, List, [], ◌∷◌, ◌==◌, if◌then◌else◌, any,
}

pub record Process : Type 0 where
  pub registry : ℕ → Option Bool
  -- `session.info[_SESSION_LOCKS_KEY]` of each session; an absent entry is the empty set
  pub info : ℕ → List ℕ

module _ {V : Type 0} where
  abbrev pub assign : ℕ → V → (ℕ → V) → ℕ → V
  assign k v f j = if k == j then v else f j

abbrev pub contains : ℕ → List ℕ → Bool
contains k = any (λ j. j == k)

pub add : ℕ → List ℕ → List ℕ
add k ks = if contains k ks then ks else k ∷ ks

pub discard : ℕ → List ℕ → List ℕ
discard k [] = []
discard k (j ∷ js) = let rest = discard k js in if j == k then rest else j ∷ rest

remember_session_lock : ℕ → ℕ → Process → Process
remember_session_lock sid k p = record p { info = assign sid (add k (p.info sid)) p.info }

forget_session_lock : ℕ → ℕ → Process → Process
forget_session_lock sid k p = record p { info = assign sid (discard k (p.info sid)) p.info }

-- The lock is created free.
memory_lock_for : ℕ → Process → Process
memory_lock_for k p = elim (p.registry k) [
  | some _ ↦ p
  | none ↦ record p { registry = assign k (some false) p.registry }
]

abbrev pub is_locked : ℕ → Process → Bool
is_locked k p = elim (p.registry k) [ some b ↦ b | none ↦ false ]

-- `lock.acquire(blocking=False)`
acquire : ℕ → Process → Process × Bool
acquire k p =
    if is_locked k p
    then (p, false)
    else (record p { registry = assign k (some true) p.registry }, true)

unfoldable pub release_memory_lock : ℕ → Process → Process
release_memory_lock k p =
    if is_locked k p then record p { registry = assign k (some false) p.registry } else p

unfoldable pub try_acquire_sqlite : ℕ → ℕ → Process → Process × Bool
unfolding remember_session_lock memory_lock_for acquire add
try_acquire_sqlite sid k p =
    let (p', acquired) = acquire k (memory_lock_for k p) in
    (if acquired then remember_session_lock sid k p' else p', acquired)

-- The non-PostgreSQL branch of `release_sync_lock`.
unfoldable pub release_sync_lock : ℕ → ℕ → Process → Process
unfolding forget_session_lock release_memory_lock discard
release_sync_lock sid k p = release_memory_lock k (forget_session_lock sid k p)

pub release_all : List ℕ → Process → Process
unfolding release_memory_lock
release_all [] p = p
release_all (k ∷ ks) p = release_all ks (release_memory_lock k p)

-- The hook on `after_transaction_end`, for a transaction that has no parent.
unfoldable pub release_session_fallback_locks : ℕ → Process → Process
unfolding release_all
release_session_fallback_locks sid p =
    release_all (p.info sid) (record p { info = assign sid [] p.info })

unfoldable pub reset_memory_locks : Process → Process
reset_memory_locks p = record p { registry = λ _. none }
