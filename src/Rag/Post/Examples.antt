-- ===== src/Rag/Post/Examples.antt =====
-- Questions to the query route.
use paquitobot_rag.Prelude.{ℕ, ◌≡◌, refl, true, false, none, some, []}
use paquitobot_rag.Exec.{ok}
use paquitobot_rag.Metrics.{Prometheus}
use paquitobot_rag.Metrics.Counted.{IsMild}
use paquitobot_rag.Rag.{Backend}
use paquitobot_rag.Rag.Answer.{Router, Assistant, Answer}
use paquitobot_rag.Rag.Answer.Bare.{IsFixed}
use paquitobot_rag.Rag.Answer.Own.{IsOwn}
use paquitobot_rag.Rag.Post.{
  QueryRequest, Context, Desk, query_response, post_query, get_rag_service, default_router,
}
use paquitobot_rag.Rag.Post.Wired.{post_query-get_rag_service}

abbrev counting : Prometheus
counting = λ _. none

counting-IsMild : IsMild counting
counting-IsMild = λ sample e refused. cc

abbrev searching : Backend
searching = record {
  has_store = true;
  has_embedder = true;
  probe = ok true;
  sha256 = λ s. s;
  found = λ _. ok [];
  adds = λ _. true;
}

abbrev assistant : Assistant ℕ
assistant = record {
  sql_executor = none;
  no_rows = 0;
  llm = none;
  str_of = λ _. "evidence";
  vector_store = some searching;
}

abbrev router : Router
router = record {
  patterns = record {
    asks_value = λ _. false;
    asks_both = λ _. false;
    asks_meaning = λ _. true;
    names_row = λ _. false;
    is_spanish = λ _. false;
  };
  classifier = none;
  embedding_available = false;
}

abbrev context : Context
context = record { disable_rag_routes = false; bound_id = some "id-1"; fresh_id = "id-2" }

abbrev question : QueryRequest
question = record { question = "Explain the essay."; language = none }

abbrev desk : Desk
desk = record {
  store = record { last_health = false; hashes = []; searched = []; executed = []; added = [] };
  embedding_available = false;
  samples = [];
}

abbrev nothing_asked : IsOwn "t" desk.store
nothing_asked = record { searched = tt; executed = tt }

post_query-get_rag_service_example :
    (a : Answer) × IsFixed {R = ℕ} 0 (λ _. "[]") router.patterns "en" a
    × (let (r, s') =
          post_query {R = ℕ}
            (get_rag_service 0 (λ _. "[]"))
            (default_router router.patterns)
            counting
            context
            "t"
            question
            desk in
        (r ≡ query_response a "id-1") × (s'.store ≡ desk.store))
post_query-get_rag_service_example =
    post_query-get_rag_service counting counting-IsMild 0 (λ _. "[]") router.patterns context "t"
      question desk refl
