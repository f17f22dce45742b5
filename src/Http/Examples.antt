-- ===== src/Http/Examples.antt =====
-- Requests with an id of their own: one that is refused, and one that fails.
use paquitobot_rag.Prelude.{ℕ, ◌≡◌, refl, true, none, some, []}
use paquitobot_rag.Text.{text_length}
use paquitobot_rag.Exec.{ok, err, Exec, runtime_error, http_exception}
use paquitobot_rag.Redaction.{Patterns, safe_message}
use paquitobot_rag.Http.{
  Scope, Response, page, Uuids, Detail, mapping, dispatch, bind_id, is_valid_uuid4, error_body,
  is_error_body, code_of, message_of,
}
use paquitobot_rag.Http.App.{Starlette, IsCatching, Exceptions, recover, serve}
use paquitobot_rag.Http.Served.{IsTagged, request_id, dispatch-IsTagged}
use paquitobot_rag.Http.Handled.{unhandled_body}
use paquitobot_rag.Http.Answered.{IsErrorOf, serve_http, serve_unhandled}

abbrev uuids : Uuids
uuids = record { version = λ _. some 4; uuid4 = λ _. "drawn" }

abbrev fresh : Scope
fresh = record { bound = none; drawn = 0; logged = [] }

abbrev front_page : Exec Scope Response
front_page s = (ok (record { status = 200; headers = []; body = page "hello" }), s)

dispatch-IsTagged_example :
    (s₁ : Scope) × (s₁.bound ≡ some (request_id uuids (some "mine") fresh))
    × (let (r, s₂) = front_page s₁ in
        let (r', s₃) = dispatch uuids (some "mine") front_page fresh in
        IsTagged uuids (request_id uuids (some "mine") fresh) r r' × (s₃ ≡ bind_id none s₂))
dispatch-IsTagged_example = dispatch-IsTagged uuids (some "mine") front_page fresh

abbrev layers : Starlette
layers = record {
  inner = λ handler call s. recover handler (call s).0 (call s).1;
  outer = λ handler call s. recover handler (call s).0 (call s).1;
}

abbrev catches : IsCatching layers.inner
catches = λ handler call s. refl

abbrev patterns : Patterns
patterns = record {
  sub_fernet = λ s. s;
  sub_bearer = λ s. s;
  sub_pg_url = λ s. s;
  sub_long_blob = λ s. s;
  lower = λ s. s;
}

abbrev disabled : Detail
disabled = mapping (some "rag_routes_disabled") (some "RAG routes are disabled by configuration")

abbrev refusals : Exceptions
refusals = record {
  as_http = λ _. some (503, disabled);
  as_validation = λ _. none;
  class_of = λ _. "HTTPException";
  message_text = λ _. "503";
  http_code = λ _. "http_503";
}

abbrev refuses : Exec Scope Response
refuses s = (err (http_exception 503), s)

abbrev body_fits :
    is_error_body (
      error_body patterns
        (code_of "http_503" disabled)
        (message_of "http_503" disabled)
        (request_id uuids (some "mine") fresh)
        none)
    ≡ true
unfolding is_error_body text_length safe_message is_valid_uuid4
body_fits = refl

serve_http_example :
    (response : Response) × ((serve uuids patterns refusals layers (some "mine") refuses fresh).0
      ≡ ok response)
    × (response.status ≡ 503)
    × IsErrorOf layers catches catches uuids patterns refusals
        (some "mine")
        (request_id uuids (some "mine") fresh)
        response
serve_http_example =
    serve_http layers catches catches uuids patterns refusals (some "mine") (http_exception 503)
      refuses (λ s. s) 503 disabled fresh (λ _. refl) (λ _. refl) refl body_fits

abbrev failures : Exceptions
failures = record {
  as_http = λ _. none;
  as_validation = λ _. none;
  class_of = λ _. "RuntimeError";
  message_text = λ _. "no";
  http_code = λ _. "http";
}

abbrev fails : Exec Scope Response
fails s = (err runtime_error, s)

unhandled_fits :
    (n : ℕ) → is_error_body (unhandled_body uuids patterns failures runtime_error n) ≡ true
unfolding is_error_body text_length safe_message
unhandled_fits n = refl

serve_unhandled_example :
    (s₁ : Scope) × (s₁.bound ≡ some (request_id uuids (some "mine") fresh))
    × ((response : Response) × ((serve uuids patterns failures layers (some "mine") fails fresh).0
          ≡ ok response)
        × (response.status ≡ 500)
        × IsErrorOf layers catches catches uuids patterns failures (some "mine") "drawn" response)
serve_unhandled_example =
    serve_unhandled layers catches catches uuids patterns failures (some "mine") runtime_error fails
      (λ s. s) fresh (λ _. refl) refl refl unhandled_fits
