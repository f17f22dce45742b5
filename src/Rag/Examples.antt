-- ===== src/Rag/Examples.antt =====
-- An upsert that the store refuses, and an answer from a search.
use paquitobot_rag.Prelude.{ℕ, ◌≡◌, refl, true, false, none, some, [], ◌∷◌}
use paquitobot_rag.Exec.{ok, err, runtime_error, ◌>>=◌}
use paquitobot_rag.Rag.{Document, VectorStore, Backend, knows, changes, add_documents, upsert}
use paquitobot_rag.Rag.Answer.{Router, Assistant, answer}
use paquitobot_rag.Rag.Answer.Own.{IsOwn, answer-IsOwn}
use paquitobot_rag.Rag.Upserts.{upsert_lost}

abbrev refusing : Backend
refusing = record {
  has_store = true;
  has_embedder = true;
  probe = ok true;
  sha256 = λ s. s;
  found = λ _. ok [];
  adds = λ _. false;
}

abbrev document : Document
document = record { page_content = "An essay."; metadata = [] }

abbrev nothing_yet : VectorStore
nothing_yet = record { last_health = false; hashes = []; searched = []; executed = []; added = [] }

refused : (upsert refusing (document ∷ []) "t" nothing_yet).0 ≡ err runtime_error
unfolding upsert changes add_documents knows ◌>>=◌
refused = refl

upsert_lost_example :
    let s = (upsert refusing (document ∷ []) "t" nothing_yet).1 in
    (s.added ≡ []) × (upsert refusing (document ∷ []) "t" s ≡ (ok [], s))
upsert_lost_example = upsert_lost refusing "t" (document ∷ []) nothing_yet refl refused

abbrev router : Router
router = record {
  patterns = record {
    asks_value = λ _. false;
    asks_both = λ _. false;
    asks_meaning = λ _. true;
    names_row = λ _. false;
    is_spanish = λ _. false;
  };
  classifier = none;
  embedding_available = true;
}

abbrev assistant : Assistant ℕ
assistant = record {
  sql_executor = some (λ tenant sql. ok 1);
  no_rows = 0;
  llm = none;
  str_of = λ _. "evidence";
  vector_store = some refusing;
}

answer-IsOwn_example :
    IsOwn "t" (answer assistant router "Explain the essay." "t" none none nothing_yet).1
answer-IsOwn_example =
    answer-IsOwn "t" assistant router "Explain the essay." none none nothing_yet
      (record { searched = tt; executed = tt })
