-- ===== src/Http/Answered.antt =====
-- Which id the answer to an exception carries, and what of the exception is told.
use paquitobot_rag.Prelude.{ℕ, ◌≡◌, refl, ap, ◌∙◌, String, true, Option, none, some, ◌∷◌, []}
use paquitobot_rag.Exec.{Exn, Result, ok, err, Exec, pure, raise, modify, ◌>>=◌}
use paquitobot_rag.Rag.{put, lookup}
use paquitobot_rag.Rag.Answer.Own.{lookup-put}
use paquitobot_rag.Redaction.{Patterns, safe_message}
use paquitobot_rag.Http.{
  Scope, Response, Uuids, Detail, error, ErrorBody, correlation_id_header, bind_id, leave, dispatch,
  code_of, message_of, is_error_body, error_body, answer_of, http_exception_handler,
}
use paquitobot_rag.Http.Handled.{unhandled_body, http_handled, any_handled}
use paquitobot_rag.Http.Served.{request_id, dispatch_runs}
use paquitobot_rag.Http.App.{
  recover, Starlette, IsCatching, Exceptions, handle_inner, handle_any, serve,
}

lookup_single :
    (id : String) → lookup correlation_id_header ((correlation_id_header, id) ∷ []) ≡ some id
unfolding lookup
lookup_single id = refl

module _ (starlette : Starlette) (inner : IsCatching starlette.inner)
    (outer : IsCatching starlette.outer) (uuids : Uuids) (p : Patterns) (exceptions : Exceptions)
    (incoming : Option String) where
  -- The bodies of errors that were handled with an id.
  abbrev pub IsErrorOf : String → Response → Type 0
  IsErrorOf id response =
      (lookup correlation_id_header response.headers ≡ some id)
      × ((body : ErrorBody) × (response.body ≡ error body)
          × (body.correlation_id ≡ id)
          × ((message : String) × (body.message ≡ safe_message p message)))

  -- What the application does, layer by layer.
  serve_runs :
      (endpoint : Exec Scope Response) (s : Scope)
      → (s₁ : Scope) × (s₁.bound ≡ some (request_id uuids incoming s))
        × (let (r, s₂) =
              recover (handle_inner uuids p exceptions) (endpoint s₁).0 (endpoint s₁).1 in
            let (r', s₃) = leave uuids (request_id uuids incoming s) r s₂ in
            serve uuids p exceptions starlette incoming endpoint s
            ≡ recover (handle_any uuids p exceptions) r' s₃)
  unfolding serve
  serve_runs endpoint s =
      let call = starlette.inner (handle_inner uuids p exceptions) endpoint in
      let (s₁, bound, e) = dispatch_runs uuids incoming call s in
      (
        s₁,
        bound,
        outer (handle_any uuids p exceptions) (dispatch uuids incoming call) s
            ∙ ap (λ q. recover (handle_any uuids p exceptions) q.0 q.1)
                (e
                  ∙ ap (λ q. leave uuids (request_id uuids incoming s) q.0 q.1)
                      (inner (handle_inner uuids p exceptions) endpoint s₁)),
      )

  abbrev with_header : String → Response → Response
  with_header id response = record response {
    headers = put correlation_id_header id response.headers;
  }

  -- What becomes of what the inner layer gives.
  abbrev finished : String → Result Response × Scope → Result Response × Scope
  finished id q = let (r, s) = leave uuids id q.0 q.1 in recover (handle_any uuids p exceptions) r s

  finished-ok :
      (id : String) (response : Response) (q : Result Response × Scope)
      → q.0 ≡ ok response
      → (finished id q).0 ≡ ok (with_header id response)
  unfolding leave ◌>>=◌ modify pure
  finished-ok id response q e = rw (e) refl

  finished-err :
      (id : String) (e : Exn) (s : Scope)
      → finished id (err e, s) ≡ handle_any uuids p exceptions e (bind_id none s)
  unfolding leave ◌>>=◌ modify raise
  finished-err id e s = refl

  module _ (e : Exn) (endpoint : Exec Scope Response) (left : Scope → Scope) where
    handle_http :
        (status : ℕ) (detail : Detail)
        → exceptions.as_http e ≡ some (status, detail)
        → handle_inner uuids p exceptions e
          ≡ http_exception_handler uuids p exceptions.http_code status detail
    unfolding handle_inner
    handle_http status detail is_http = rw (is_http) refl

    handle_other :
        exceptions.as_http e ≡ none
        → exceptions.as_validation e ≡ none
        → handle_inner uuids p exceptions e ≡ raise e
    unfolding handle_inner
    handle_other other_http other_validation = rw (other_http, other_validation) refl

    -- Where Starlette's layers catch as documented: an HTTP exception of an endpoint that leaves the
    -- bound id, whose code, message and id fit an error's body, is answered with its status and with
    -- the id of the request in the header and in the body, and its message has been through the
    -- patterns.
    pub serve_http :
        (status : ℕ) (detail : Detail) (s : Scope)
        → ((s₁ : Scope) → endpoint s₁ ≡ (err e, left s₁))
        → ((s₁ : Scope) → (left s₁).bound ≡ s₁.bound)
        → exceptions.as_http e ≡ some (status, detail)
        → is_error_body (
            error_body p
              (code_of (exceptions.http_code status) detail)
              (message_of (exceptions.http_code status) detail)
              (request_id uuids incoming s)
              none)
          ≡ true
        → (response : Response) × ((serve uuids p exceptions starlette incoming endpoint s).0
            ≡ ok response)
          × (response.status ≡ status)
          × IsErrorOf (request_id uuids incoming s) response
    serve_http status detail s raises keeps is_http fits =
        let (s₁, bound, run) = serve_runs endpoint s in
        let id = request_id uuids incoming s in
        let body =
          error_body p (code_of (exceptions.http_code status) detail)
            (message_of (exceptions.http_code status) detail) id none in
        (
          with_header id (answer_of status body),
          ap (λ q. q.0) run
              ∙ ap (λ q. (finished id (recover (handle_inner uuids p exceptions) q.0 q.1)).0)
                  (raises s₁)
              ∙ finished-ok id (answer_of status body) (handle_inner uuids p exceptions e (left s₁))
                  (ap (λ m. (m (left s₁)).0) (handle_http status detail is_http)
                    ∙ http_handled uuids p exceptions.http_code status detail id (left s₁)
                        (keeps s₁ ∙ bound) fits),
          refl,
          (lookup-put correlation_id_header id _, (body, refl, refl, (_, refl))),
        )

    -- An exception that is no HTTP and no validation error is answered with an id that is drawn after
    -- the endpoint ran, whatever the id of the request was.
    pub serve_unhandled :
        (s : Scope)
        → ((s₁ : Scope) → endpoint s₁ ≡ (err e, left s₁))
        → exceptions.as_http e ≡ none
        → exceptions.as_validation e ≡ none
        → ((n : ℕ) → is_error_body (unhandled_body uuids p exceptions e n) ≡ true)
        → (s₁ : Scope) × (s₁.bound ≡ some (request_id uuids incoming s))
          × ((response : Response) × ((serve uuids p exceptions starlette incoming endpoint s).0
                ≡ ok response)
              × (response.status ≡ 500)
              × IsErrorOf (uuids.uuid4 (left s₁).drawn) response)
    unfolding raise
    serve_unhandled s raises other_http other_validation fits =
        let (s₁, bound, run) = serve_runs endpoint s in
        let id = request_id uuids incoming s in
        (
          s₁,
          bound,
          (
            answer_of 500 (unhandled_body uuids p exceptions e (left s₁).drawn),
            ap (λ q. q.0) run
                ∙ ap (λ q. (finished id (recover (handle_inner uuids p exceptions) q.0 q.1)).0)
                    (raises s₁)
                ∙ ap (λ m. (finished id (m (left s₁))).0) (handle_other other_http other_validation)
                ∙ ap (λ q. q.0) (finished-err id e (left s₁))
                ∙ any_handled uuids p exceptions e (bind_id none (left s₁)) refl
                    (fits (left s₁).drawn),
            refl,
            (
              lookup_single (uuids.uuid4 (left s₁).drawn),
              (unhandled_body uuids p exceptions e (left s₁).drawn, refl, refl, (_, refl)),
            ),
          ),
        )
