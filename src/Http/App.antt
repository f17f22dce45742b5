-- ===== src/Http/App.antt =====
-- `register_exception_handlers` of app/core/errors.py and `create_app` of app/main.py: which handler
-- sees which exception, around the middleware of app/middleware/correlation_id.py. The two layers of
-- Starlette that call the handlers are parameters.
use paquitobot_rag.Prelude.{ℕ, ◌≡◌, String, Option, none, some}
use paquitobot_rag.Value.{Items}
use paquitobot_rag.Exec.{Exn, Result, ok, err, Exec, raise}
use paquitobot_rag.Redaction.{Patterns}
use paquitobot_rag.Http.{
  Scope, Response, Uuids, Detail, dispatch, http_exception_handler, validation_exception_handler,
  unhandled_exception_handler,
}

-- A layer with its handlers: around what it calls.
abbrev pub Layer : Type 0
Layer = (Exn → Exec Scope Response) → Exec Scope Response → Exec Scope Response

abbrev pub recover : (Exn → Exec Scope Response) → Result Response → Exec Scope Response
recover handler (ok response) s = (ok response, s)
recover handler (err e) s = handler e s

-- `ExceptionMiddleware`, innermost, and `ServerErrorMiddleware`, outermost
pub record Starlette : Type 0 where
  pub inner : Layer
  pub outer : Layer

-- As Starlette documents them, a layer passes a response on, and answers an exception by its handler.
abbrev pub IsCatching : Layer → Type 0
IsCatching layer =
    (handler : Exn → Exec Scope Response) (call : Exec Scope Response) (s : Scope)
    → layer handler call s ≡ recover handler (call s).0 (call s).1

-- What an exception is to the handlers: an `HTTPException` with its status and detail, a
-- `RequestValidationError` with its errors, or another one; its class and its text.
pub record Exceptions : Type 0 where
  pub as_http : Exn → Option (ℕ × Detail)
  pub as_validation : Exn → Option Items
  pub class_of : Exn → String
  pub message_text : Exn → String
  -- `f"http_{status}"`
  pub http_code : ℕ → String

module _ (uuids : Uuids) (p : Patterns) (exceptions : Exceptions) where
  abbrev handle_validation : Exn → Option Items → Exec Scope Response
  handle_validation e none = raise e
  handle_validation e (some errors) = validation_exception_handler uuids p errors

  abbrev handle_as : Exn → Option (ℕ × Detail) → Exec Scope Response
  handle_as e (some (status, detail)) =
      http_exception_handler uuids p exceptions.http_code status detail
  handle_as e none = handle_validation e (exceptions.as_validation e)

  -- The handlers of the inner layer, and the one of the outer layer, for `Exception`.
  unfoldable pub handle_inner : Exn → Exec Scope Response
  handle_inner e = handle_as e (exceptions.as_http e)

  unfoldable pub handle_any : Exn → Exec Scope Response
  handle_any e =
      unhandled_exception_handler uuids p (exceptions.class_of e) (exceptions.message_text e)

  -- A request to the application of `create_app`, with the id that it came with.
  unfoldable pub serve : Starlette → Option String → Exec Scope Response → Exec Scope Response
  serve starlette incoming endpoint =
      starlette.outer handle_any (dispatch uuids incoming (starlette.inner handle_inner endpoint))
