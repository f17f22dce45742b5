-- ===== src/Rag/Post/Reply.antt =====
-- What a client of `post_query` is told, and what is counted and asked meanwhile.
use paquitobot_rag.Prelude.{
  ◌≡◌, ◌≢◌, refl, sym, ◌∙◌, ◌⊎◌, inl, inr, String, Bool, true, false, Option, none, some, List, ◌∷◌,
  str_eq, Bool-cases,
}
use mathlib.Core.Path.{subst}
use paquitobot_rag.Exec.{
  Exn, Result, ok, err, runtime_error, value_error, os_error, validation_error, http_exception,
  raise, lift, zoom, ◌>>=◌, and_then,
}
use paquitobot_rag.Metrics.{Sample, Prometheus, rag_sample, record_rag_request}
use paquitobot_rag.Metrics.Counted.{IsMild, safe_sample_cases}
use paquitobot_rag.Rag.Answer.{
  Route, Patterns, Router, Assistant, Answer, language_or, detect_language,
}
use paquitobot_rag.Rag.Answer.Language.{answer-Speaks}
use paquitobot_rag.Rag.Answer.Own.{IsOwn, answer-IsOwn}
use paquitobot_rag.Rag.Post.Probe.{escaped_kinds, probe_store-err, probe_store_keeps}
use paquitobot_rag.Rag.Post.{
  QueryRequest, QueryResponse, Context, Desk, id_or_fresh, is_response, name_of, query_response,
  response_of, probe_store, count_request, reply, ask_service, answer_and_reply, post_query,
}

detected_idem :
    (p : Patterns) (question : String)
    → language_or p question (some (detect_language p question)) ≡ detect_language p question
detected_idem p question = elim (Bool-cases (p.is_spanish question)) [
  | inl spanish ↦ rw (spanish) refl
  | inr english ↦ rw (english) refl
]

pub language_or_idem :
    (p : Patterns) (question : String) (language : Option String)
    → language_or p question (some (language_or p question language))
      ≡ language_or p question language
language_or_idem p question none = detected_idem p question
language_or_idem p question (some language) = elim (Bool-cases (str_eq language "")) [
  | inl empty ↦ rw (empty) (detected_idem p question)
  | inr given ↦ rw (given, given) refl
]

-- A sample was counted, or nothing where prometheus_client refused it.
abbrev pub IsCounted : Sample → List Sample → List Sample → Type 0
IsCounted sample before after = (after ≡ sample ∷ before) ⊎ (after ≡ before)

-- What the outcome says, for a language and a correlation id.
abbrev pub Told : String → String → List Sample → Result QueryResponse → List Sample → Type 0
Told language id before (ok response) after =
    (is_response response ≡ true)
    × (response.lang ≡ language)
    × (response.correlation_id ≡ id)
    × IsCounted (rag_sample (name_of response.route) language "ok") before after
Told language id before (err e) after =
    ((e ≡ http_exception 500) × IsCounted (rag_sample "unknown" language "error") before after)
    ⊎ ((e ≡ validation_error)
        × ((decision : Route) × IsCounted (rag_sample (name_of decision) language "ok") before
              after))

module _ (prometheus : Prometheus) (mild : IsMild prometheus) where
  pub count_cases :
      {R : Type 0} (assistant : Assistant R) (router : Router) (decision lang outcome : String)
      (s : Desk)
      → (samples : List Sample) × IsCounted (rag_sample decision lang outcome) s.samples samples
        × (count_request assistant router prometheus decision lang outcome s
            ≡ (ok tt, record s { samples = samples }))
  unfolding count_request zoom record_rag_request
  count_cases assistant router decision lang outcome s =
      elim (safe_sample_cases prometheus (rag_sample decision lang outcome) s.samples mild) [
        | inl counted ↦ (_, inl refl, rw (counted) refl)
        | inr refused ↦ (_, inr refl, rw (refused) refl)
      ]

  module _ {R : Type 0} (assistant : Assistant R) (router : Router) (language id : String) where
    response-Told :
        (a : Answer) (before after : List Sample)
        → a.lang ≡ language
        → IsCounted (rag_sample (name_of a.route) language "ok") before after
        → Told language id before (query_response a id) after
    unfolding query_response
    response-Told a before after speaks counted =
        elim (Bool-cases (is_response (response_of a id))) [
          | inl fits ↦ rw (fits) (fits, speaks, refl, counted)
          | inr unfit ↦ rw (unfit) (inr (refl, (a.route, counted)))
        ]

    -- The reply, after the service was asked.
    reply-Told :
        (found : Result Answer) (s : Desk)
        → ((a : Answer) → found ≡ ok a → a.lang ≡ language)
        → let (r, s') = reply assistant router prometheus id language found s in
          Told language id s.samples r s'.samples × (s'.store ≡ s.store)
    unfolding reply ◌>>=◌ raise lift
    reply-Told (ok a) s speaks =
        let (samples, counted, e) = count_cases assistant router (name_of a.route) a.lang "ok" s in
        subst
          (λ p.
            let (r, s') = and_then (λ _. lift (query_response a id)) p.0 p.1 in
            Told language id s.samples r s'.samples × (s'.store ≡ s.store))
          (sym e)
          (
            response-Told a s.samples samples (speaks a refl) (
                subst (λ l. IsCounted (rag_sample (name_of a.route) l "ok") s.samples samples)
                  (speaks a refl) counted),
            refl,
          )
    reply-Told (err x) s speaks =
        let (samples, counted, e) = count_cases assistant router "unknown" language "error" s in
        subst
          (λ p.
            let (r, s') = and_then (λ _. raise (http_exception 500)) p.0 p.1 in
            Told language id s.samples r s'.samples × (s'.store ≡ s.store))
          (sym e) (inl (refl, counted), refl)

    module _ (tenant_id question : String) where
      asked-Told :
          (s : Desk)
          → language_or router.patterns question (some language) ≡ language
          → IsOwn tenant_id s.store
          → let (r, s') =
              answer_and_reply assistant router prometheus id question tenant_id language s in
            Told language id s.samples r s'.samples × IsOwn tenant_id s'.store
      unfolding answer_and_reply ask_service
      asked-Told s idem own =
          let keeping : Router = record router { embedding_available = s.embedding_available } in
          let (r, store) = ask_service assistant router prometheus question tenant_id language s in
          let (told, kept) =
            reply-Told r (record s { store = store })
              (λ a e.
                (answer-Speaks assistant keeping question tenant_id none (some language)).in_lang
                  s.store a e
                ∙ idem) in
          (
            told,
            subst (IsOwn tenant_id) (sym kept) (
                answer-IsOwn tenant_id assistant keeping question none (some language) s.store own),
          )

  module _ {R : Type 0} (assistant : Assistant R) (router : Router) (context : Context)
      (tenant_id : String) (payload : QueryRequest) (s : Desk) where
    abbrev pub language : String
    language = language_or router.patterns payload.question payload.language

    abbrev pub id : String
    id = id_or_fresh context.bound_id context.fresh_id

    abbrev probed_store : Result Bool × Desk
    probed_store = probe_store assistant router prometheus assistant.vector_store s

    -- An exception of the health probe goes on as it is, and nothing was counted.
    abbrev pub IsEscaped : Result QueryResponse → Desk → Type 0
    IsEscaped r s' =
        (e : Exn) × (probed_store.0 ≡ err e)
        × (r ≡ err e)
        × ((e ≢ runtime_error) × (e ≢ value_error) × (e ≢ os_error))
        × (s'.samples ≡ s.samples)

    -- The client of disabled routes is refused; and any other is told of the language and of the id,
    -- unless the probe raised.
    abbrev pub PostedIn : Bool → Result QueryResponse × Desk → Type 0
    PostedIn true (r, s') = (r ≡ err (http_exception 503)) × (s' ≡ s)
    PostedIn false (r, s') =
        (IsEscaped r s'
          ⊎ (((health : Bool) × (probed_store.0 ≡ ok health))
              × Told language id s.samples r s'.samples))
        × IsOwn tenant_id s'.store

    post_query_enabled :
        context.disable_rag_routes ≡ false
        → post_query assistant router prometheus context tenant_id payload s ≡ (
            let (health, s') = probed_store in
            and_then
              (λ _.
                answer_and_reply assistant router prometheus id payload.question tenant_id language)
              health
              s')
    unfolding post_query ◌>>=◌
    post_query_enabled enabled = rw (enabled) refl

    after_probe-PostedIn :
        (health : Result Bool) (s' : Desk)
        → probed_store.0 ≡ health
        → s'.samples ≡ s.samples
        → IsOwn tenant_id s'.store
        → PostedIn false (
            and_then
              (λ _.
                answer_and_reply assistant router prometheus id payload.question tenant_id language)
              health
              s')
    after_probe-PostedIn (err e) s' raised same own = (
      inl (
        e,
        raised,
        refl,
        escaped_kinds e
            (probe_store-err prometheus assistant router assistant.vector_store s e raised),
        same,
      ),
      own,
    )
    after_probe-PostedIn (ok health) s' returned same own =
        let (told, owned) =
          asked-Told assistant router language id tenant_id payload.question s'
            (language_or_idem router.patterns payload.question payload.language) own in
        (
          inr (
            (health, returned),
            subst
                (λ samples.
                  let (r, s'') =
                    answer_and_reply assistant router prometheus id payload.question tenant_id
                      language s' in
                  Told language id samples r s''.samples)
                same told,
          ),
          owned,
        )

    enabled-PostedIn :
        context.disable_rag_routes ≡ false
        → IsOwn tenant_id s.store
        → PostedIn false (post_query assistant router prometheus context tenant_id payload s)
    enabled-PostedIn enabled own =
        let (same, kept) =
          probe_store_keeps prometheus assistant router assistant.vector_store tenant_id s own in
        subst (PostedIn false) (sym (post_query_enabled enabled))
          (after_probe-PostedIn probed_store.0 probed_store.1 refl same kept)

    pub post_query-PostedIn :
        IsOwn tenant_id s.store
        → PostedIn context.disable_rag_routes
            (post_query assistant router prometheus context tenant_id payload s)
    unfolding post_query raise
    post_query-PostedIn own = elim (Bool-cases context.disable_rag_routes) [
      | inl disabled ↦ rw (disabled) (refl, refl)
      | inr enabled ↦
          subst
            (λ b. PostedIn b (post_query assistant router prometheus context tenant_id payload s))
            (sym enabled) (enabled-PostedIn enabled own)
    ]
