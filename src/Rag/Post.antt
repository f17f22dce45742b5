-- ===== src/Rag/Post.antt =====
-- app/controllers/query.py, and `provider_health` of app/services/rag_service.py. The state is that
-- of the vector store, the flag that the service's router keeps, and the counters.
pub mod Probe
pub mod Reply
pub mod Wired
pub mod Examples
use paquitobot_rag.Prelude.{
  ℕ, zero, suc, String, Bool, true, false, Option, none, some, List, ◌&&◌, leb, not, str_eq,
  if◌then◌else◌,
}
use paquitobot_rag.Exec.{
  Exn, Result, ok, err, validation_error, http_exception, Exec, pure, raise, lift, modify, zoom,
  ◌>>=◌, ◌>>◌,
}
use paquitobot_rag.Text.{text_length, is_between}
use paquitobot_rag.Metrics.{Sample, Prometheus, record_rag_request}
use paquitobot_rag.Rag.{VectorStore, Backend, provider_health}
use paquitobot_rag.Rag.Answer.{
  Route, relational, semantic, hybrid, unsupported, Patterns, Router, Evidence, Assistant, Answer,
  answer, language_or,
}

pub record QueryRequest : Type 0 where
  pub question : String
  pub language : Option String

pub record QueryResponse : Type 0 where
  pub answer : String
  pub lang : String
  pub route : Route
  pub correlation_id : String

-- What the request is handled in: the flag of the settings, the bound id, and the id that
-- `new_correlation_id` gives.
pub record Context : Type 0 where
  pub disable_rag_routes : Bool
  pub bound_id : Option String
  pub fresh_id : String

-- `get_correlation_id() or new_correlation_id()`
abbrev pub id_or_fresh : Option String → String → String
id_or_fresh none fresh = fresh
id_or_fresh (some bound) fresh = if str_eq bound "" then fresh else bound

abbrev pub is_language : Option String → Bool
is_language none = true
is_language (some language) = leb (text_length language) 8

-- The bounds of `QueryRequest` and of `QueryResponse`; a route's name is never empty.
unfoldable pub is_request : QueryRequest → Bool
is_request request = is_between 1 2000 request.question && is_language request.language

unfoldable pub is_response : QueryResponse → Bool
unfolding text_length
is_response response =
    not (str_eq response.answer "")
    && is_between 2 8 response.lang
    && is_between 1 64 response.correlation_id

-- The name of a route, the value of the label.
abbrev pub name_of : Route → String
name_of relational = "relational"
name_of semantic = "semantic"
name_of hybrid = "hybrid"
name_of unsupported = "unsupported"

pub record Desk : Type 0 where
  pub store : VectorStore
  pub embedding_available : Bool
  pub samples : List Sample

abbrev pub set_samples : List Sample → Desk → Desk
set_samples samples s = record s { samples = samples }

abbrev pub response_of : Answer → String → QueryResponse
response_of found correlation_id = record {
  answer = found.answer;
  lang = found.lang;
  route = found.route;
  correlation_id = correlation_id;
}

-- `QueryResponse(…)`
unfoldable pub query_response : Answer → String → Result QueryResponse
unfolding is_response
query_response found correlation_id =
    let response = response_of found correlation_id in
    if is_response response then ok response else err validation_error

module _ {R : Type 0} (assistant : Assistant R) (router : Router) (prometheus : Prometheus) where
  abbrev pub available_after : Result Bool → Desk → Result Bool × Desk
  available_after (ok health) s = (ok health, record s { embedding_available = health })
  available_after (err e) s = (err e, s)

  -- `RAGService.provider_health`: an exception leaves the router's flag.
  unfoldable pub probe_store : Option Backend → Exec Desk Bool
  probe_store none s = (ok false, record s { embedding_available = false })
  probe_store (some backend) s =
      let (health, store) = provider_health backend s.store in
      available_after health (record s { store = store })

  unfoldable pub count_request : String → String → String → Exec Desk (Unit {0})
  count_request route lang outcome =
      zoom (λ s. s.samples) set_samples (record_rag_request prometheus route lang outcome)

  -- What follows the answer, and the `except Exception`.
  unfoldable pub reply : String → String → Result Answer → Exec Desk QueryResponse
  reply correlation_id language (ok found) =
      count_request (name_of found.route) found.lang "ok"
      >> lift (query_response found correlation_id)
  reply correlation_id language (err e) =
      count_request "unknown" language "error" >> raise (http_exception 500)

  -- `rag_service.answer` with the flag that the router keeps
  unfoldable pub ask_service : String → String → String → Desk → Result Answer × VectorStore
  ask_service question tenant_id language s =
      let keeping : Router = record router { embedding_available = s.embedding_available } in
      answer assistant keeping question tenant_id none (some language) s.store

  unfoldable pub answer_and_reply : String → String → String → String → Exec Desk QueryResponse
  answer_and_reply correlation_id question tenant_id language s =
      let (found, store) = ask_service question tenant_id language s in
      reply correlation_id language found (record s { store = store })

  -- `post_query`
  unfoldable pub post_query : Context → String → QueryRequest → Exec Desk QueryResponse
  post_query context tenant_id payload =
      let language = language_or router.patterns payload.question payload.language in
      if context.disable_rag_routes
      then raise (http_exception 503)
      else probe_store assistant.vector_store
        >> answer_and_reply (id_or_fresh context.bound_id context.fresh_id) payload.question
            tenant_id language

-- `get_rag_service`, which gives the service no store, no executor and no model
unfoldable pub get_rag_service : {R : Type 0} → R → (Evidence R → String) → Assistant R
get_rag_service no_rows str_of = record {
  sql_executor = none;
  no_rows = no_rows;
  llm = none;
  str_of = str_of;
  vector_store = none;
}

-- `RAGRouter(embedding_available=…)` of a service without a store
unfoldable pub default_router : Patterns → Router
default_router patterns = record {
  patterns = patterns;
  classifier = none;
  embedding_available = false;
}
