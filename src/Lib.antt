-- ===== src/Lib.antt =====
-- A verification library for the Canvas synchronization of paquitobot-rag: a FastAPI back end
-- copies one student's data per tenant from Canvas into PostgreSQL tables that all tenants
-- share. What matters is that a run of `sync_tenant` is atomic, that it touches its own tenant
-- only, that nothing of other students crosses the boundary, and that two runs for one tenant
-- exclude each other.
--
-- The parts, and the files that model them:
--
-- - Prelude, Text (Text/Strip), Query, Value (Value/Int, Value/Text, Value/Laws): shared names;
--   lengths, slices and stripping of texts; queries of a table as functions on lists; Python
--   values as JSON and pydantic give them, dicts as lists of entries in order, `int()` of a
--   text.
-- - Exec (Exec/Keeps, Exec/Inversion): methods that change an object and may raise, with the
--   exceptions that the code tells apart; a state comes back beside an exception too. `Keeps P
--   m` says that `m` keeps `P` on every branch.
-- - Models: app/models/__init__.py, the five tables that a sync writes with their column names,
--   and `sync_state`; the tables of tenants and credentials are in Tenancy/Stored; `Db` is the
--   contents of a database.
-- - Lock (Lock/Exclusion, Lock/Others, Lock/Key): app/sync/lock.py, the fallback locks of a
--   process, the hook at the end of a transaction, and the diagnostic key on machine integers.
-- - Session (Session/Laws): a SQLAlchemy session, with what the transaction sees and what is
--   durable, `begin()`, `begin_nested()`, commits that may fail and rollbacks; the choice
--   between PostgreSQL's advisory lock and the fallback.
-- - Repository (Laws, Columns, Keys, Tenants, Deletion, Revival, Durable, Writes):
--   app/repositories/upsert.py, as `upsert_by_canvas_id`, `soft_delete_if_inactive` and
--   `assert_tenant_fk_target`.
-- - Dto (Dto/Schema, Dto/Peers): app/canvas/dto.py, the declared fields, `strip_peer_data` and
--   `to_payload`.
-- - Watermark (Laws, Tables): app/sync/watermark.py, `read_watermark` and `advance_watermark`.
-- - Sync (Sync/State, Sync/Resources, Sync/Tenant): app/sync/pipeline.py. State holds a run's
--   local variables and the Canvas client, Resources the reads and writes of each resource in
--   the code's order, Tenant `sync_tenant` itself: `body` is the `with` block, `with_scope` its
--   context manager, `handle` the `except` clauses, `release_if_acquired` the `finally`. Its
--   children prove what a run does: Body and Parts that each step keeps what the writes keep,
--   Outcome how the transaction ends, Success and Failure what either leaves, and Atomic,
--   Isolation, Unique and Locks the properties of whole runs.
-- - Canvas (Canvas/Pagination with Pages, Requests, Links): app/canvas/pagination.py, the
--   generator `paginate` as the list of what it yields and how it ends; the pipeline takes such
--   a stream from the client. `loop` is its `while`, with `left` for what its counter leaves of
--   the bound of a thousand.
-- - Canvas client (Canvas/Client with Attempts): app/canvas/client.py, `request` with its guard
--   of methods and the retries around `do_request`. The state is the requests that were sent and
--   how often the token provider was asked. tenacity's `AsyncRetrying` is a parameter, of which
--   Attempts assumes the documented loop (`IsRetrying`).
-- - Tenancy (Directory, Contract, Memory, Stored with Rows and Refinement, Access with Granted,
--   Connect): app/security/token_crypto.py and app/services/tenant_service.py. Directory is the
--   abstract view, Contract the interface of operations and laws that the clients take as a
--   parameter; Memory and Stored/Refinement fill it for the dicts and for the tables. Access is
--   `verify_backend_jwt` of app/security/backend_auth.py and the chain of dependencies of
--   app/core/deps.py, Connect `connect_canvas` of app/controllers/auth.py, both over the
--   interface.
-- - Service (Locked, Throttle, Post with Outcome): app/services/canvas_service.py, the rate
--   limit on manual runs and `run_locked`, and `post_sync` of app/controllers/sync.py.
--   Sync/Tenant/Nested has the run inside a caller's transaction that they and the scheduler
--   make.
-- - Scheduler (Scheduler/Runs, Pool with Bounded, Lifecycle): app/sync/scheduler.py, the tenants
--   of a tick and the run of one; the coroutines of a tick as a step relation, with the
--   semaphore of the pool; `start` and `shutdown`.
-- - RAG (Rag with Upserts, Hybrid, Answer with Own, Language, Bare): app/rag/vector_store.py,
--   app/rag/router.py, the languages of app/rag/prompts.py, and `answer` of
--   app/services/rag_service.py. The state is what the vector store remembers and what has been
--   asked of it and of the SQL executor.
-- - Redaction (Redaction/Masked): app/security/redaction.py, and `safe_message` and `_safe_dict`
--   of app/core/errors.py. The substitutions of the regular expressions are parameters.
-- - Query route (Rag/Post with Probe, Reply, Wired): app/controllers/query.py, over `answer`,
--   with `provider_health` of app/services/rag_service.py and the counters.
-- - Text to SQL (TextToSql/Templates, Validator, Executor): app/text_to_sql, the registry of
--   templates, `validate_sql`, and `execute_readonly` with the calls that a session is asked.
--   The searches of regular expressions, sqlglot, sqlparse and the database are parameters.
-- - HTTP (Http, App, with Served, Handled, Answered): app/middleware/correlation_id.py and the
--   exception handlers of app/core/errors.py. App puts the handlers around the middleware as
--   `register_exception_handlers` and app/main.py do, between two layers of Starlette, which are
--   parameters (`IsCatching`).
-- - Metrics (Metrics/Counted): the helpers of app/observability/metrics.py. prometheus_client is
--   a parameter that may refuse a sample.
-- - Ingestion (Ingest/Chunks): app/services/ingest_service.py, with bleach as a parameter.
-- - Health (Health/Degraded): app/controllers/health.py.
-- - Migration (Migration/Tables, Agreement, Undone): alembic/versions/0001_init.py, its
--   operations, and what a database of tables with named indexes and unique constraints makes of
--   them.
--
-- The pipeline calls the DTOs to filter what Canvas sends, the repository to write it, the
-- watermark to know where to start and to record where it ended, and the locks; the session is
-- the state that all of these change. An interface is a property of sessions that the
-- repository's writes keep (`IsKept`, `IsKeptByRun`): the pipeline's theorems take it as a
-- parameter, and the theorems of Repository and Watermark fill it.
--
-- Parameters stand for code that is not in the repository. `Server` is the database server, the
-- clock and `uuid4`: whether it accepts a flush and a commit is arbitrary, so every theorem on a
-- run holds for each failure; `Database` is the same for the tables of tenants, whose theorems
-- name the rows that it must take. `Pydantic` is validation and dumping, `CanvasClient` the
-- answers of Canvas, each call of a run numbered so that two calls may differ, and `lower` and
-- `decimal` are Python's `str.lower` and `str` of an integer. No hypothesis is made of these.
-- `Fernet`, `Jwt` and `Python` are the token encryption, PyJWT and Python's character classes,
-- `Transport` httpx and tenacity: that decryption undoes encryption (`IsInverse`) and how
-- tenacity loops (`IsRetrying`) are hypotheses where they are used; so are that the layers of
-- Starlette catch (`IsCatching`), which exceptions prometheus_client raises (`IsMild`), what
-- `re.sub` removes (`IsSubstituting`), and that SQLAlchemy asks for every parameter
-- (`IsBinding`). UUIDs and times are natural numbers, times in UTC.
--
-- SQLAlchemy's factory in app/core/db.py sets `autoflush=False`, so a query does not see what
-- was added since the last flush. The pipeline, the only caller of `upsert_by_canvas_id`,
-- flushes next after each upsert, and the model takes the write and that flush together: a new
-- row has its id, and the next query finds it. A query between the two is not modelled, nor are
-- the values of `created_at` and `updated_at`, which the server stamps.
--
-- No fuel is added to the code: the loops go over what a generator yielded, `strip_mapping` over
-- the payload itself, and `paginate` counts its requests as the code does, so every function is
-- total.
--
-- Not modelled: log calls, metrics and tracing; column types and constraints, which are the
-- server's answer to a flush; NaN and infinite floats; digits other than ASCII's in `int()` of a
-- text; the interleaving of two runs within a step, since a run is one sequence and the locks
-- are studied by sequences of lock operations; the refusal of SQLAlchemy to commit a session
-- whose flush has failed, where the commit here is one of the unchanged database. The length of
-- the scheduler's delays, the closing of clients, the filter of log records, tracing, the
-- settings, Alembic's set-up and the legacy scripts are outside these files.
pub mod Prelude
pub mod Text
pub mod Exec
pub mod Value
pub mod Query
pub mod Metrics
pub mod Models
pub mod Lock
pub mod Session
pub mod Repository
pub mod Dto
pub mod Canvas
pub mod Tenancy
pub mod Watermark
pub mod Sync
pub mod Service
pub mod Scheduler
pub mod Rag
pub mod Redaction
pub mod Http
pub mod TextToSql
pub mod Ingest
pub mod Health
pub mod Migration
