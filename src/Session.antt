-- ===== src/Session.antt =====
-- A SQLAlchemy session as app/sync uses it: what the transaction sees, what is committed, and the
-- locks of the process. The database server and the standard library's clock and `uuid4` are the
-- parameter `Server`; each is asked at a tick, which no rollback takes back.
pub mod Laws
use paquitobot_rag.Prelude.{
  ℕ, ◌+◌, suc, Bool, true, false, Option, none, some, List, [], ◌∷◌, ◌++◌, ◌==◌, ◌&&◌, not,
  if◌then◌else◌,
}
use paquitobot_rag.Exec.{
  Exn, Result, ok, err, integrity_error, invalid_request, Exec, pure, raise, gets, ◌>>=◌,
}
use paquitobot_rag.Models.{Model, model_eq, Row, SyncState, Db}
use paquitobot_rag.Lock
use paquitobot_rag.Lock.{Process}

pub record Server : Type 0 where
  -- `uuid.uuid4()` and `datetime.now(UTC)`
  pub uuid4 : ℕ → ℕ
  pub now : ℕ → ℕ
  -- whether a flush meets every constraint of the schema, and whether a commit goes through
  pub accepts : Db → Bool
  pub commits : Db → Bool
  -- `pg_try_advisory_xact_lock` for a tenant: other processes' locks decide
  pub try_advisory : ℕ → ℕ → Bool

pub record Session : Type 0 where
  pub sid : ℕ
  pub postgres : Bool
  pub db : Db
  pub durable : Db
  pub in_transaction : Bool
  pub tick : ℕ
  pub process : Process

-- The value that the server gives at this tick.
unfoldable pub draw : {A : Type 0} → (ℕ → A) → Exec Session A
draw f s = (ok (f s.tick), record s { tick = suc s.tick })

unfoldable pub set_table : Model → (List Row → List Row) → Session → Session
set_table m f s = record s {
  db = record s.db { tables = λ n. if model_eq m n then f (s.db.tables n) else s.db.tables n };
}

unfoldable pub set_states : (List SyncState → List SyncState) → Session → Session
set_states f s = record s { db = record s.db { states = f s.db.states } }

-- `session.flush()`
unfoldable pub flush : Server → Exec Session (Unit {0})
flush server s = (if server.accepts s.db then ok tt else err integrity_error, s)

-- The outermost transaction ends: the hook of lock.py runs.
unfoldable pub end_transaction : Db → Session → Session
end_transaction db s = record s {
  db = db;
  durable = db;
  in_transaction = false;
  process = Lock.release_session_fallback_locks s.sid s.process;
}

-- `session.rollback()`
unfoldable pub rollback : Session → Session
unfolding end_transaction
rollback s = end_transaction s.durable s

-- The entry of `with session.begin()` and of `with session.begin_nested()`.
abbrev pub enter_begin : Session → Session
enter_begin s = record s { db = s.durable; in_transaction = true }

abbrev pub enter_nested : Session → Session
enter_nested s = record s { in_transaction = true }

module _ {A : Type 0} where
  -- The exit of `with session.begin()`: a commit, which flushes, or a rollback.
  unfoldable pub close_begin : Server → Result A × Session → Result A × Session
  unfolding rollback end_transaction
  close_begin server (err e, s) = (err e, rollback s)
  close_begin server (ok a, s) =
      if server.accepts s.db && server.commits s.db
      then (ok a, end_transaction s.db s)
      else (err integrity_error, rollback s)

  -- `with session.begin(): m`
  unfoldable pub with_begin : Server → Exec Session A → Exec Session A
  unfolding close_begin
  with_begin server m s =
      let done = close_begin server (m (enter_begin s)) in
      if s.in_transaction then (err invalid_request, s) else done

  -- The exit of `with session.begin_nested()`, which began at the savepoint `saved`.
  unfoldable pub close_nested : Server → Db → Result A × Session → Result A × Session
  close_nested server saved (err e, s) = (err e, record s { db = saved })
  close_nested server saved (ok a, s) =
      if server.accepts s.db then (ok a, s) else (err integrity_error, record s { db = saved })

-- `try_acquire_sync_lock` of app/sync/lock.py, on the session's dialect
unfoldable pub try_acquire_sync_lock : Server → ℕ → Exec Session Bool
unfolding draw
try_acquire_sync_lock server tenant s =
    if s.postgres
    then draw (server.try_advisory tenant) s
    else (let (p, acquired) = Lock.try_acquire_sqlite s.sid tenant s.process in
        (ok acquired, record s { process = p }))

-- `release_sync_lock`: PostgreSQL releases at the end of the transaction.
unfoldable pub release_sync_lock : ℕ → Session → Session
release_sync_lock tenant s =
    if s.postgres then s else record s { process = Lock.release_sync_lock s.sid tenant s.process }
