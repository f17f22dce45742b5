-- ===== src/Rag/Answer.antt =====
-- The router of app/rag/router.py, the languages of app/rag/prompts.py, and `answer` of
-- app/services/rag_service.py. The searches of regular expressions are parameters.
pub mod Own
pub mod Language
pub mod Bare
use paquitobot_rag.Prelude.{
  ℕ, String, Bool, true, false, Option, none, some, List, [], ◌∷◌, not, str_eq, if◌then◌else◌,
}
use paquitobot_rag.Exec.{
  Exn, Result, ok, err, runtime_error, value_error, type_error, Exec, pure, lift, ◌>>=◌,
}
use paquitobot_rag.Rag.{Document, VectorStore, Backend, similarity_search}

pub data Route : Type 0 where
  relational semantic hybrid unsupported : Route

-- What the patterns find in a question, in the order of the code.
pub record Patterns : Type 0 where
  pub asks_value : String → Bool
  pub asks_both : String → Bool
  pub asks_meaning : String → Bool
  pub names_row : String → Bool
  pub is_spanish : String → Bool

-- `classifier`, if there is one; a name that is no route is `none`.
pub record Router : Type 0 where
  pub patterns : Patterns
  pub classifier : Option (String → Result (Option Route))
  pub embedding_available : Bool

-- `deterministic_rule`
unfoldable pub deterministic_rule : Patterns → String → Option Route
deterministic_rule p question =
    if p.asks_value question
    then (if p.asks_both question then some hybrid else some relational)
    else if p.asks_meaning question
    then some semantic
    else if p.names_row question
    then some relational
    else none

-- `except (RuntimeError, ValueError, TypeError)`, and `if route not in ROUTES`
abbrev pub classified : Result (Option Route) → Result Route
classified (ok (some route)) = ok route
classified (ok none) = ok relational
classified (err runtime_error) = ok relational
classified (err value_error) = ok relational
classified (err type_error) = ok relational
classified (err e) = err e

abbrev classify_with : String → Option (String → Result (Option Route)) → Result Route
classify_with question none = ok relational
classify_with question (some classifier) = classified (classifier question)

abbrev pub chosen : Router → String → Option Route → Result Route
chosen router question (some route) = ok route
chosen router question none = classify_with question router.classifier

-- Without embeddings, what needs them is routed elsewhere.
unfoldable pub available : Bool → Route → Route
available true route = route
available false semantic = unsupported
available false hybrid = relational
available false relational = relational
available false unsupported = unsupported

abbrev pub routed : Bool → Result Route → Result Route
routed embedding (ok route) = ok (available embedding route)
routed embedding (err e) = err e

-- `route`, but the language, which is passed through
unfoldable pub route : Router → String → Result Route
unfolding deterministic_rule available
route router question =
    routed router.embedding_available
      (chosen router question (deterministic_rule router.patterns question))

-- `detect_language`
abbrev pub detect_language : Patterns → String → String
detect_language p question = if p.is_spanish question then "es" else "en"

-- `language or detect_language(question)`
abbrev pub language_or : Patterns → String → Option String → String
language_or p question none = detect_language p question
language_or p question (some language) =
    if str_eq language "" then detect_language p question else language

-- `bounded_refusal`
abbrev pub bounded_refusal : String → String
bounded_refusal lang =
    if str_eq lang "es"
    then "No puedo responder con evidencia disponible."
    else "I cannot answer that from the available evidence."

pub data Evidence (R : Type 0) : Type 0 where
  rows : R → Evidence R
  documents : List Document → Evidence R

pub record Assistant (R : Type 0) : Type 0 where
  pub sql_executor : Option (String → String → Result R)
  pub no_rows : R
  pub llm : Option (Evidence R → String → Result String)
  -- `str`
  pub str_of : Evidence R → String
  pub vector_store : Option Backend

pub record Answer : Type 0 where
  pub answer : String
  pub lang : String
  pub route : Route

module _ {R : Type 0} (assistant : Assistant R) (router : Router) where
  execute : String → String → (String → String → Result R) → Exec VectorStore R
  execute tenant_id sql executor s =
      (executor tenant_id sql, record s { executed = (tenant_id, sql) ∷ s.executed })

  pub execute_if : String → Option String → Option (String → String → Result R) → Exec VectorStore R
  unfolding execute
  execute_if tenant_id none executor = pure assistant.no_rows
  execute_if tenant_id (some sql) none = pure assistant.no_rows
  execute_if tenant_id (some sql) (some executor) =
      if str_eq sql "" then pure assistant.no_rows else execute tenant_id sql executor

  say : Evidence R → String → Option (Evidence R → String → Result String) → Result String
  say evidence lang none = ok (assistant.str_of evidence)
  say evidence lang (some llm) = llm evidence lang

  pub respond : String → Route → Evidence R → Exec VectorStore Answer
  unfolding say
  respond lang route evidence = do
    text ← lift (say evidence lang assistant.llm)
    pure (record { answer = text; lang = lang; route = route })

  pub refuse : String → Exec VectorStore Answer
  refuse lang = pure (record { answer = bounded_refusal lang; lang = lang; route = unsupported })

  pub search_and_respond :
      String → String → String → Route → ℕ → Option Backend → Exec VectorStore Answer
  unfolding respond refuse
  search_and_respond question tenant_id lang route k none = refuse lang
  search_and_respond question tenant_id lang route k (some backend) = do
    docs ← similarity_search backend question tenant_id k []
    respond lang route (documents docs)

  pub answer_by : String → String → Option String → String → Route → Exec VectorStore Answer
  unfolding search_and_respond execute_if
  answer_by question tenant_id sql lang unsupported = refuse lang
  answer_by question tenant_id sql lang relational = do
    found ← execute_if tenant_id sql assistant.sql_executor
    respond lang relational (rows found)
  answer_by question tenant_id sql lang semantic =
      search_and_respond question tenant_id lang semantic 8 assistant.vector_store
  answer_by question tenant_id sql lang hybrid =
      search_and_respond question tenant_id lang hybrid 20 assistant.vector_store

  -- `answer`
  unfoldable pub answer : String → String → Option String → Option String → Exec VectorStore Answer
  unfolding answer_by route
  answer question tenant_id sql language = do
    decision ← lift (route router question)
    answer_by question tenant_id sql (language_or router.patterns question language) decision
