-- ===== src/Sync/State.antt =====
-- What a run of `sync_tenant` holds and returns, and the Canvas client that it is given.
use paquitobot_rag.Prelude.{ℕ, suc, String, Bool, Option, none, some, List, leb, if◌then◌else◌}
use paquitobot_rag.Exec.{Exn, Result, Exec, pure, raise, lift, modify, zoom, fold_each, ◌>>=◌}
use paquitobot_rag.Value.{Value, list, dict}
use paquitobot_rag.Value.Int.{ℤ}
use paquitobot_rag.Dto.{Pydantic}
use paquitobot_rag.Session.{Server, Session}

pub data Endpoint : Type 0 where
  -- `/users/self`, `/users/self/favorites/courses`, `/users/self/enrollments`
  users_self favorite_courses self_enrollments : Endpoint
  -- `/courses/{id}/assignments`
  course_assignments : ℤ → Endpoint

-- The query parameters: both `include[]` values or none, and `updated_after`.
pub record Params : Type 0 where
  pub includes : Bool
  pub updated_after : Option ℕ

-- The body of a response: JSON, or `response.json()` raises, or there is no such method.
pub data Body : Type 0 where
  json : Value → Body
  not_json no_json : Body

-- `client.get` hands over a response, or an in-memory client a dict or a list.
pub data Response : Type 0 where
  payload : Value → Response
  response : ℕ → Body → Response

-- What an async generator yields, and the exception that it ends with, if any.
pub record Stream : Type 0 where
  pub items : List Value
  pub ending : Option Exn

-- The answers of Canvas, through app/canvas/client.py and app/canvas/pagination.py; the first
-- argument numbers the calls of a run, so that two calls may be answered differently.
pub record CanvasClient : Type 0 where
  pub get_response : ℕ → Endpoint → Result Response
  pub paginate : ℕ → Endpoint → Params → Stream

pub record Env : Type 0 where
  pub pydantic : Pydantic
  pub client : CanvasClient
  pub server : Server
  -- Python's `str.lower`, and `str` of an integer
  pub lower : String → String
  pub decimal : ℤ → String

pub record Counts : Type 0 where
  pub users : ℕ
  pub courses : ℕ
  pub enrollments : ℕ
  pub assignments : ℕ
  pub submissions : ℕ
  pub soft_deleted : ℕ
  pub dropped_peer : ℕ

-- `_new_counts`
abbrev pub new_counts : Counts
new_counts = record {
  users = 0;
  courses = 0;
  enrollments = 0;
  assignments = 0;
  submissions = 0;
  soft_deleted = 0;
  dropped_peer = 0;
}

-- The session, and the local variables of `sync_tenant` that outlive an exception.
pub record Run : Type 0 where
  pub session : Session
  pub counts : Counts
  pub calls : ℕ
  pub previous_watermark : Option ℕ
  pub previous_successful_at : Option ℕ
  pub acquired_here : Bool

pub data Status : Type 0 where
  ok locked failed : Status

pub data ErrorClass : Type 0 where
  canvas_unavailable schema_drift auth_rejected unexpected : ErrorClass

pub record SyncResult : Type 0 where
  pub tenant_id : ℕ
  pub status : Status
  pub last_error_class : Option ErrorClass
  pub last_successful_at : Option ℕ
  pub last_run_at : ℕ
  pub counts : Counts
  pub lock_acquired : Bool

abbrev pub put_session : Session → Run → Run
put_session s r = record r { session = s }

unfoldable pub on_session : {A : Type 0} → Exec Session A → Exec Run A
unfolding zoom
on_session = zoom (λ r. r.session) put_session

unfoldable pub count : (Counts → Counts) → Exec Run (Unit {0})
unfolding modify
count f = modify (λ r. record r { counts = f r.counts })

abbrev pub count_user : Counts → Counts
count_user c = record c { users = suc c.users }

abbrev pub count_course : Counts → Counts
count_course c = record c { courses = suc c.courses }

abbrev pub count_enrollment : Counts → Counts
count_enrollment c = record c { enrollments = suc c.enrollments }

abbrev pub count_assignment : Counts → Counts
count_assignment c = record c { assignments = suc c.assignments }

abbrev pub count_submission : Counts → Counts
count_submission c = record c { submissions = suc c.submissions }

abbrev pub count_dropped : Counts → Counts
count_dropped c = record c { dropped_peer = suc c.dropped_peer }

-- `if soft_delete_if_inactive(…): counts["soft_deleted"] += 1`
abbrev pub count_soft_deleted : Bool → Counts → Counts
count_soft_deleted deleted c = if deleted then record c { soft_deleted = suc c.soft_deleted } else c

-- The next answer of Canvas.
unfoldable pub ask : {A : Type 0} → (ℕ → A) → Exec Run A
ask answer r = (Result.ok (answer r.calls), record r { calls = suc r.calls })

decode_body : Body → Result Value
decode_body (json v) = Result.ok v
decode_body not_json = Result.err Exn.schema_drift
decode_body no_json = Result.err Exn.schema_drift

-- `isinstance(response, (dict, list))`
decode_payload : Value → Result Value
decode_payload (dict f) = Result.ok (dict f)
decode_payload (list items) = Result.ok (list items)
decode_payload _ = Result.err Exn.schema_drift

decode : Response → Result Value
unfolding decode_body decode_payload
decode (payload v) = decode_payload v
decode (response status body) =
    if leb 400 status then Result.err (Exn.request_error (some status)) else decode_body body

-- `_get_json`
unfoldable pub get_json : CanvasClient → Endpoint → Exec Run Value
unfolding decode
get_json client endpoint = do
  answer ← ask (λ n. client.get_response n endpoint)
  received ← lift answer
  lift (decode received)

abbrev pub raise_ending : {B : Type 0} → Option Exn → B → Exec Run B
raise_ending none acc = pure acc
raise_ending (some e) acc = raise e

-- `async for item in _paginate_items(client, path, params=…)`: what was yielded before the
-- generator raises has been handled.
unfoldable pub for_items :
    {B : Type 0} → CanvasClient → Endpoint → Params → B → (Value → B → Exec Run B) → Exec Run B
for_items client endpoint params acc body = do
  stream ← ask (λ n. client.paginate n endpoint params)
  acc' ← fold_each stream.items acc body
  raise_ending stream.ending acc'
