-- ===== src/Lock/Exclusion.antt =====
-- At most one session holds a tenant's fallback lock, as long as only holders release.
use paquitobot_rag.Prelude.{
  ℕ, ◌≡◌, ◌≢◌, refl, not, ◌==◌, true, false, none, List, [], ◌∷◌, ◌∙◌, arith, if◌then◌else◌,
}
use paquitobot_rag.Lock.{
  Process, assign, contains, discard, is_locked, release_memory_lock, try_acquire_sqlite,
  release_sync_lock, release_all, release_session_fallback_locks,
}

abbrev pub Holds : Process → ℕ → ℕ → Type 0
Holds p sid k = contains k (p.info sid) ≡ true

pub record IsExclusive (p : Process) : Type 0 where
  pub locked : (sid k : ℕ) → Holds p sid k → is_locked k p ≡ true
  pub single : (a b k : ℕ) → Holds p a k → Holds p b k → a ≡ b

contains-discard_self : (k : ℕ) (ks : List ℕ) → contains k (discard k ks) ≡ false
unfolding discard
contains-discard_self k [] = refl
contains-discard_self k (j ∷ js) = ground (arith, contains-discard_self k js)

pub contains-discard_ne :
    (k j : ℕ) (ks : List ℕ) → k ≢ j → contains j (discard k ks) ≡ contains j ks
unfolding discard
contains-discard_ne k j [] h = refl
contains-discard_ne k j (i ∷ is) h = ground (arith, contains-discard_ne k j is h)

-- A non-blocking attempt succeeds exactly on a free lock; afterwards that lock is held, and every
-- other tenant's lock is as it was.
pub try_acquire_sqlite_lem :
    (sid k j : ℕ) (p : Process)
    → ((try_acquire_sqlite sid k p).1 ≡ not (is_locked k p))
      × (is_locked j (try_acquire_sqlite sid k p).0 ≡ (if j == k then true else is_locked j p))
unfolding try_acquire_sqlite
try_acquire_sqlite_lem sid k j p = (ground arith, ground arith)

pub try_acquire_sqlite-IsExclusive :
    (sid k : ℕ) (p : Process) → IsExclusive p → IsExclusive (try_acquire_sqlite sid k p).0
unfolding try_acquire_sqlite
try_acquire_sqlite-IsExclusive sid k p h = record {
  locked = λ s j held. ground (arith, h.locked s j);
  single = λ a b j x y. ground (arith, h.single a b j, h.locked a j, h.locked b j);
}

-- A release by the holder.
pub release_sync_lock-IsExclusive :
    (sid k : ℕ) (p : Process)
    → Holds p sid k
    → IsExclusive p
    → IsExclusive (release_sync_lock sid k p)
unfolding release_sync_lock
release_sync_lock-IsExclusive sid k p own h = record {
  locked = λ s j held. ground (
    arith,
    h.locked s j,
    h.single s sid k,
    contains-discard_self k (p.info sid),
    contains-discard_ne k j (p.info sid),
  );
  single = λ a b j x y. ground (
    arith,
    h.single a b j,
    contains-discard_self k (p.info sid),
    contains-discard_ne k j (p.info sid),
  );
}

-- The hook frees the locks of the list and no others.
pub is_locked-release_all :
    (ks : List ℕ) (j : ℕ) (p : Process)
    → is_locked j (release_all ks p) ≡ (if contains j ks then false else is_locked j p)
unfolding release_all
is_locked-release_all [] j p = refl
is_locked-release_all (k ∷ ks) j p =
    is_locked-release_all ks j (release_memory_lock k p) ∙ ground arith

info-release_all : (ks : List ℕ) (p : Process) → (release_all ks p).info ≡ p.info
unfolding release_all
info-release_all [] p = refl
info-release_all (k ∷ ks) p = info-release_all ks (release_memory_lock k p) ∙ ground arith

-- The hook leaves its session no lock.
pub info-release_session_fallback_locks :
    (sid : ℕ) (p : Process) → (release_session_fallback_locks sid p).info sid ≡ []
unfolding release_session_fallback_locks
info-release_session_fallback_locks sid p =
    rw (info-release_all (p.info sid) (record p { info = assign sid [] p.info })) (ground arith)

pub info-release_sync_lock :
    (sid k : ℕ) (p : Process) → p.info sid ≡ [] → (release_sync_lock sid k p).info sid ≡ []
unfolding release_sync_lock
info-release_sync_lock sid k p e = ground arith

Holds-release_session_fallback_locks :
    (sid s k : ℕ) (p : Process)
    → Holds (release_session_fallback_locks sid p) s k
    → Holds p s k × (s ≢ sid)
unfolding release_session_fallback_locks
Holds-release_session_fallback_locks sid s k p held =
    let held' : contains k (assign sid [] p.info s) ≡ true =
      rw (info-release_all (p.info sid) (record p { info = assign sid [] p.info })) at held in
    (ground arith, ground arith)

-- The end of a session's transaction.
pub release_session_fallback_locks-IsExclusive :
    (sid : ℕ) (p : Process) → IsExclusive p → IsExclusive (release_session_fallback_locks sid p)
unfolding release_session_fallback_locks
release_session_fallback_locks-IsExclusive sid p h = record {
  locked = λ s j held. ground (
    arith,
    Holds-release_session_fallback_locks sid s j p held,
    h.locked s j,
    h.single s sid j,
    is_locked-release_all (p.info sid) j (record p { info = assign sid [] p.info }),
  );
  single = λ a b j x y.
      h.single a b j (Holds-release_session_fallback_locks sid a j p x).0
        (Holds-release_session_fallback_locks sid b j p y).0;
}

-- The processes that sessions reach by attempts, by releases of what they hold, and by ending
-- their transactions.
pub data Reach : Process → Type 0 where
  start : Reach (record { registry = λ _. none; info = λ _. [] })
  attempt : (sid k : ℕ) {p : Process} → Reach p → Reach (try_acquire_sqlite sid k p).0
  release : (sid k : ℕ) {p : Process} → Reach p → Holds p sid k → Reach (release_sync_lock sid k p)
  finish : (sid : ℕ) {p : Process} → Reach p → Reach (release_session_fallback_locks sid p)

Reach-IsExclusive : {p : Process} → Reach p → IsExclusive p
Reach-IsExclusive start = record { locked = λ sid k h. cc; single = λ a b k x y. cc }
Reach-IsExclusive (attempt sid k {p} r) =
    try_acquire_sqlite-IsExclusive sid k p (Reach-IsExclusive r)
Reach-IsExclusive (release sid k {p} r own) =
    release_sync_lock-IsExclusive sid k p own (Reach-IsExclusive r)
Reach-IsExclusive (finish sid {p} r) =
    release_session_fallback_locks-IsExclusive sid p (Reach-IsExclusive r)

-- In every process that attempts, releases by holders and ends of transactions reach, two sessions
-- that hold one tenant's lock are the same.
pub Reach-single : {p : Process} → Reach p → (a b k : ℕ) → Holds p a k → Holds p b k → a ≡ b
Reach-single {p} r = (Reach-IsExclusive r).single

-- In every process that attempts, releases by holders and ends of transactions reach, a lock that
-- some session remembers is held, and no session's attempt at it succeeds.
pub Reach-exclusive :
    {p : Process}
    → Reach p
    → (a b k : ℕ) → Holds p a k
    → (is_locked k p ≡ true) × ((try_acquire_sqlite b k p).1 ≡ false)
Reach-exclusive {p} r a b k held =
    let busy : is_locked k p ≡ true = (Reach-IsExclusive r).locked a k held in
    (busy, ground (arith, try_acquire_sqlite_lem b k k p))

-- Where a session releases the held lock of a tenant that another session holds, that other
-- session still counts itself the holder, and a third session's attempt succeeds.
pub release_by_stranger :
    (sid other third k : ℕ) (p : Process)
    → sid ≢ other
    → Holds p other k
    → is_locked k p ≡ true
    → Holds (release_sync_lock sid k p) other k
      × ((try_acquire_sqlite third k (release_sync_lock sid k p)).1 ≡ true)
unfolding release_sync_lock
release_by_stranger sid other third k p ne own busy =
    (ground arith, ground (arith, try_acquire_sqlite_lem third k k (release_sync_lock sid k p)))
