-- ===== src/Rag/Post/Wired.antt =====
-- `post_query` with the service that `get_rag_service` gives, and with a language of one letter.
use paquitobot_rag.Prelude.{
  arith, ℕ, ◌≡◌, ◌≢◌, refl, sym, ap, ◌∙◌, inl, inr, String, Bool, true, false, false≢true, some,
  str_eq, str_eq_iff, Bool-cases,
}
use paquitobot_rag.Exec.{Result, ok, err, lift, ◌>>=◌}
use paquitobot_rag.Text.{text_length}
use paquitobot_rag.Metrics.{Prometheus}
use paquitobot_rag.Metrics.Counted.{IsMild}
use paquitobot_rag.Rag.Answer.{Patterns, Router, Evidence, Assistant, Answer, language_or}
use paquitobot_rag.Rag.Answer.Bare.{IsFixed, answer-IsFixed}
use paquitobot_rag.Rag.Answer.Own.{IsOwn}
use paquitobot_rag.Rag.Post.{
  QueryRequest, QueryResponse, Context, Desk, id_or_fresh, is_response, name_of, query_response,
  probe_store, reply, ask_service, answer_and_reply, post_query, get_rag_service, default_router,
}
use paquitobot_rag.Rag.Post.Reply.{count_cases, PostedIn, language_or_idem, post_query-PostedIn}

module _ (prometheus : Prometheus) (mild : IsMild prometheus) where
  module _ {R : Type 0} (no_rows : R) (str_of : Evidence R → String) (patterns : Patterns)
      (context : Context) (tenant_id : String) (payload : QueryRequest) (s : Desk) where
    abbrev asked_in : String
    asked_in = language_or patterns payload.question payload.language

    -- With the service that the route is given, where prometheus_client refuses a sample only with
    -- exceptions that are passed over, and the routes are enabled: whatever the question is, the reply
    -- is made of the text of no rows or of the refusal, and no store and no database is asked.
    pub post_query-get_rag_service :
        context.disable_rag_routes ≡ false
        → (a : Answer) × IsFixed no_rows str_of patterns asked_in a
          × (let (r, s') =
                post_query
                  (get_rag_service no_rows str_of)
                  (default_router patterns)
                  prometheus
                  context
                  tenant_id
                  payload
                  s in
              (r ≡ query_response a (id_or_fresh context.bound_id context.fresh_id))
              × (s'.store ≡ s.store))
    unfolding post_query get_rag_service default_router probe_store answer_and_reply ask_service
        ◌>>=◌ reply lift
    post_query-get_rag_service enabled =
        let (a, fixed, e) =
          answer-IsFixed no_rows str_of patterns payload.question tenant_id asked_in s.store
            (language_or_idem patterns payload.question payload.language) in
        let (samples, counted, c) =
          count_cases prometheus mild (get_rag_service no_rows str_of) (default_router patterns)
            (name_of a.route) a.lang "ok" (record s { embedding_available = false }) in
        (a, fixed, rw (enabled, e, c) (refl, refl))

  short_unfit :
      (response : QueryResponse) → text_length response.lang ≡ 1 → is_response response ≡ false
  unfolding is_response
  short_unfit response short = elim (Bool-cases (str_eq response.answer "")) [
    | inl empty ↦ rw (empty) refl
    | inr given ↦ rw (given, short) refl
  ]

  module _ {R : Type 0} (assistant : Assistant R) (router : Router) (context : Context)
      (tenant_id letter question : String) (s : Desk) where
    abbrev payload : QueryRequest
    payload = record { question = question; language = some letter }

    spoken :
        text_length letter ≡ 1
        → text_length (language_or router.patterns question (some letter)) ≡ 1
    unfolding text_length
    spoken short = elim (Bool-cases (str_eq letter "")) [
      | inl empty ↦
          let none_left : ◌≡◌ {A = ℕ} 0 1 =
            sym (ap text_length ((str_eq_iff letter "").0 empty)) ∙ short in
          omega arith
      | inr given ↦ rw (given) short
    ]

    -- A request in a language of one letter, which `QueryRequest` takes, never gets a response,
    -- where what was asked before was asked for the tenant, and prometheus_client refuses a sample only
    -- with exceptions that are passed over.
    pub post_query_letter :
        text_length letter ≡ 1
        → IsOwn tenant_id s.store
        → (response : QueryResponse)
        → (post_query assistant router prometheus context tenant_id payload s).0 ≢ ok response
    post_query_letter short own response returned =
        let posted =
          post_query-PostedIn prometheus mild assistant router context tenant_id payload s own in
        no_response context.disable_rag_routes _ posted returned
      where
        no_response :
            (disabled : Bool) (p : Result QueryResponse × Desk)
            → PostedIn prometheus mild assistant router context tenant_id payload s disabled p
            → p.0 ≢ ok response
        no_response true (r, s') (refused, _) e = cc
        no_response false (r, s') (inl (x, _, raised, _, _), _) e = cc
        no_response false (ok given, s') (inr (_, (fits, speaks, _, _)), _) e =
            false≢true (sym (short_unfit given (ap text_length speaks ∙ spoken short)) ∙ fits)
        no_response false (err x, s') (inr posted, _) e = cc
