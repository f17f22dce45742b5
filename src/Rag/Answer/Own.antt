-- ===== src/Rag/Answer/Own.antt =====
-- What an answer asks of the vector store and of the database is asked for its own tenant.
use paquitobot_rag.Prelude.{
  ℕ, String, ◌≡◌, refl, true, Option, none, some, List, [], ◌∷◌, All, ◌&&◌, not, str_eq, str_eq_iff,
  inl, inr, Bool-cases, Bool,
}
use paquitobot_rag.Exec.{Result, ok, err, pure, lift}
use paquitobot_rag.Exec.Keeps.{Keeps, keeps_rules, Keeps-bind, Keeps-lift, Keeps-pure, Keeps-if}
use paquitobot_rag.Rag.{
  put, lookup, Search, VectorStore, Backend, search_store, is_probe_error, probed, probe_again,
  provider_health, similarity_search,
}
use paquitobot_rag.Rag.Answer.{
  Route, relational, semantic, hybrid, unsupported, Router, Assistant, Evidence, execute_if,
  respond, refuse, search_and_respond, answer_by, answer, route, language_or,
}

pub lookup-put :
    (key value : String) (fields : List (String × String))
    → lookup key (put key value fields) ≡ some value
unfolding lookup put
lookup-put key value [] =
    let same : str_eq key key ≡ true = (str_eq_iff key key).1 refl in rw (same) refl
lookup-put key value ((k, v) ∷ rest) = elim (Bool-cases (str_eq k key)) [
  | inl same ↦
      let self : str_eq key key ≡ true = (str_eq_iff key key).1 refl in rw (same, self) refl
  | inr other ↦ rw (other, other) (lookup-put key value rest)
]

-- Every search is filtered by the tenant, and every statement is executed for it.
pub record IsOwn (tenant_id : String) (s : VectorStore) : Type 0 where
  pub searched : All (λ q. lookup "tenant_id" q.filter ≡ some tenant_id) s.searched
  pub executed : All (λ e. e.0 ≡ tenant_id) s.executed

module _ (tenant_id : String) where
  -- A probe asks the store and the executor nothing.
  probed-IsOwn :
      (backend : Backend) (outcome : Result Bool) (s : VectorStore)
      → IsOwn tenant_id s
      → IsOwn tenant_id (probed backend outcome s).1
  probed-IsOwn backend (ok health) s h = record { searched = h.searched; executed = h.executed }
  probed-IsOwn backend (err e) s h = elim (Bool-cases (is_probe_error e)) [
    | inl caught ↦ rw (caught) (record { searched = h.searched; executed = h.executed })
    | inr other ↦ rw (other) h
  ]

  pub provider_health-Keeps :
      (backend : Backend) → Keeps (IsOwn tenant_id) (provider_health backend)
  unfolding provider_health
  provider_health-Keeps backend = record {
    run = λ s h. elim (Bool-cases backend.has_embedder) [
      | inl has ↦ rw (has) (probed-IsOwn backend backend.probe s h)
      | inr lacks ↦ rw (lacks) (record { searched = h.searched; executed = h.executed })
    ];
  }

  probe_again-Keeps : (backend : Backend) → Keeps (IsOwn tenant_id) (probe_again backend)
  unfolding probe_again
  probe_again-Keeps backend = record {
    run = λ s h. elim (Bool-cases (not s.last_health && backend.has_embedder)) [
      | inl asks ↦ rw (asks) (
          (Keeps-bind (provider_health backend) (λ _. pure tt) (provider_health-Keeps backend)
              (λ _. Keeps-pure tt)).run
            s h)
      | inr keeps ↦ rw (keeps) h
    ];
  }

  search_store-Keeps :
      (backend : Backend) (q : Search)
      → lookup "tenant_id" q.filter ≡ some tenant_id
      → Keeps (IsOwn tenant_id) (search_store backend q)
  unfolding search_store
  search_store-Keeps backend q own = record {
    run = λ s h. elim (Bool-cases (not s.last_health)) [
      | inl ill ↦ rw (ill) h
      | inr well ↦ elim (Bool-cases (not backend.has_store)) [
        | inl without ↦ rw (well, without) h
        | inr has ↦ rw (well, has) (record { searched = (own, h.searched); executed = h.executed })
      ]
    ];
  }

  pub similarity_search-Keeps :
      (backend : Backend) (query : String) (k : ℕ) (filter : List (String × String))
      → Keeps (IsOwn tenant_id) (similarity_search backend query tenant_id k filter)
  unfolding similarity_search
  similarity_search-Keeps backend query k filter =
      let q : Search = record { query = query; k = k; filter = put "tenant_id" tenant_id filter } in
      Keeps-bind (probe_again backend) (λ _. search_store backend q) (probe_again-Keeps backend)
        (λ _. search_store-Keeps backend q (lookup-put "tenant_id" tenant_id filter))

  module _ {R : Type 0} (assistant : Assistant R) (router : Router) where
    execute_if-Keeps :
        (sql : Option String) (executor : Option (String → String → Result R))
        → Keeps (IsOwn tenant_id) (execute_if assistant router tenant_id sql executor)
    unfolding execute_if
    execute_if-Keeps none executor = Keeps-pure assistant.no_rows
    execute_if-Keeps (some sql) none = Keeps-pure assistant.no_rows
    execute_if-Keeps (some sql) (some executor) =
        Keeps-if (str_eq sql "") _ _ (λ _. Keeps-pure assistant.no_rows)
          (λ _. record {
            run = λ s h. record { searched = h.searched; executed = (refl, h.executed) };
          })

    respond-Keeps :
        (lang : String) (decision : Route) (evidence : Evidence R)
        → Keeps (IsOwn tenant_id) (respond assistant router lang decision evidence)
    unfolding respond
    respond-Keeps lang decision evidence = search keeps_rules

    search_and_respond-Keeps :
        (question lang : String) (decision : Route) (k : ℕ) (store : Option Backend)
        → Keeps
            (IsOwn tenant_id)
            (search_and_respond assistant router question tenant_id lang decision k store)
    unfolding search_and_respond refuse
    search_and_respond-Keeps question lang decision k none = search keeps_rules
    search_and_respond-Keeps question lang decision k (some backend) =
        search (keeps_rules, similarity_search-Keeps, respond-Keeps)

    answer_by-Keeps :
        (question : String) (sql : Option String) (lang : String) (decision : Route)
        → Keeps (IsOwn tenant_id) (answer_by assistant router question tenant_id sql lang decision)
    unfolding answer_by refuse
    answer_by-Keeps question sql lang unsupported = search keeps_rules
    answer_by-Keeps question sql lang relational =
        search (keeps_rules, execute_if-Keeps, respond-Keeps)
    answer_by-Keeps question sql lang semantic =
        search_and_respond-Keeps question lang semantic 8 assistant.vector_store
    answer_by-Keeps question sql lang hybrid =
        search_and_respond-Keeps question lang hybrid 20 assistant.vector_store

    -- Whatever the question, the classifier, the model and the statement are: where every search was
    -- filtered by the tenant and every statement executed for it, so it is after an answer, also one
    -- that raises.
    pub answer-IsOwn :
        (question : String) (sql language : Option String) (s : VectorStore)
        → IsOwn tenant_id s
        → IsOwn tenant_id (answer assistant router question tenant_id sql language s).1
    unfolding answer
    answer-IsOwn question sql language s own =
        (Keeps-bind (lift (route router question)) _ (Keeps-lift (route router question))
            (λ decision.
              answer_by-Keeps question sql (language_or router.patterns question language)
                decision)).run
          s own
