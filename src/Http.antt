-- ===== src/Http.antt =====
-- app/middleware/correlation_id.py and the exception handlers of app/core/errors.py. Starlette,
-- `uuid` and the substitutions of regular expressions are parameters. The state is the id that is
-- bound, how many ids were drawn, and the errors that were logged, last first.
pub mod App
pub mod Served
pub mod Handled
pub mod Answered
pub mod Examples
use paquitobot_rag.Prelude.{
  ℕ, suc, ◌+◌, String, Bool, true, false, Option, none, some, List, [], ◌∷◌, ◌&&◌, not, ◌==◌,
  str_eq, if◌then◌else◌,
}
use paquitobot_rag.Text.{is_between}
use paquitobot_rag.Value.{Value, Fields, Items, str, list, end, field}
use paquitobot_rag.Exec.{
  Exn, Result, ok, err, validation_error, Exec, pure, raise, lift, modify, ◌>>=◌, ◌>>◌,
}
use paquitobot_rag.Rag.{put}
use paquitobot_rag.Redaction.{Patterns, safe_message, safe_dict}

-- A line of `_log_error` and of the handler of what is unhandled, with its class of exceptions.
pub record Logged : Type 0 where
  pub correlation_id : String
  pub code : String
  pub message : String
  pub status : ℕ

pub record Scope : Type 0 where
  pub bound : Option String
  pub drawn : ℕ
  pub logged : List Logged

-- `ErrorBody` of app/schemas/errors.py
pub record ErrorBody : Type 0 where
  pub code : String
  pub message : String
  pub correlation_id : String
  pub details : Option Fields

pub data Body : Type 0 where
  page : String → Body
  error : ErrorBody → Body

pub record Response : Type 0 where
  pub status : ℕ
  pub headers : List (String × String)
  pub body : Body

-- `uuid.UUID(value).version`, or none where the constructor raises; the ids of `uuid.uuid4`
pub record Uuids : Type 0 where
  pub version : String → Option ℕ
  pub uuid4 : ℕ → String

abbrev pub correlation_id_header : String
correlation_id_header = "X-Correlation-ID"

abbrev pub bind_id : Option String → Scope → Scope
bind_id id s = record s { bound = id }

module _ (uuids : Uuids) where
  abbrev is_version_4 : Option ℕ → Bool
  is_version_4 none = false
  is_version_4 (some v) = v == 4

  -- `_is_valid_uuid4`
  unfoldable pub is_valid_uuid4 : Option String → Bool
  is_valid_uuid4 none = false
  is_valid_uuid4 (some value) = not (str_eq value "") && is_version_4 (uuids.version value)

  -- `new_correlation_id`
  unfoldable pub new_correlation_id : Exec Scope String
  new_correlation_id s = (ok (uuids.uuid4 s.drawn), record s { drawn = suc s.drawn })

  abbrev pub accept_id : Option String → Bool → Exec Scope String
  accept_id (some incoming) true = pure incoming
  accept_id (some incoming) false = new_correlation_id
  accept_id none valid = new_correlation_id

  -- What follows `call_next`, and its `except Exception`.
  unfoldable pub leave : String → Result Response → Exec Scope Response
  leave id (ok response) =
      modify (bind_id none)
      >> pure (record response { headers = put correlation_id_header id response.headers })
  leave id (err e) = modify (bind_id none) >> raise e

  unfoldable pub call_and_leave : String → Exec Scope Response → Exec Scope Response
  call_and_leave id call_next s = let (r, s') = call_next (bind_id (some id) s) in leave id r s'

  -- `CorrelationIdMiddleware.dispatch`
  unfoldable pub dispatch : Option String → Exec Scope Response → Exec Scope Response
  dispatch incoming call_next =
      accept_id incoming (is_valid_uuid4 incoming) >>= λ id. call_and_leave id call_next

  abbrev id_or_new : Option String → Exec Scope String
  id_or_new none = new_correlation_id
  id_or_new (some id) = if str_eq id "" then new_correlation_id else pure id

  -- `_bound_correlation_id`
  unfoldable pub bound_correlation_id : Exec Scope String
  bound_correlation_id s = id_or_new s.bound s

-- `exc.detail`: a dict, of which two keys are read, or what `str` makes of it
pub data Detail : Type 0 where
  mapping : Option String → Option String → Detail
  text : String → Detail

abbrev or_text : Option String → String → String
or_text none other = other
or_text (some s) other = if str_eq s "" then other else s

abbrev or_given : Option String → String → String
or_given none other = other
or_given (some s) other = s

-- The code and the message, with the default code of the status.
abbrev pub code_of : String → Detail → String
code_of default (mapping code message) = or_text code default
code_of default (text detail) = default

abbrev pub message_of : String → Detail → String
message_of default (mapping code message) = or_given message (or_text code default)
message_of default (text detail) = or_text (some detail) "Request failed"

abbrev pub safe_details : Patterns → Option Fields → Option Fields
safe_details p none = none
safe_details p (some details) = some (safe_dict p details)

-- The bounds of `ErrorBody`
unfoldable pub is_error_body : ErrorBody → Bool
is_error_body body =
    is_between 1 64 body.code
    && is_between 1 512 body.message
    && is_between 1 64 body.correlation_id

abbrev pub error_body : Patterns → String → String → String → Option Fields → ErrorBody
error_body p code message id details = record {
  code = code;
  message = safe_message p message;
  correlation_id = id;
  details = safe_details p details;
}

abbrev pub answer_of : ℕ → ErrorBody → Response
answer_of status body = record {
  status = status;
  headers = (correlation_id_header, body.correlation_id) ∷ [];
  body = error body;
}

-- `_error_response`
unfoldable pub error_response :
    Patterns → ℕ → String → String → String → Option Fields → Result Response
error_response p status code message id details =
    let body = error_body p code message id details in
    if is_error_body body then ok (answer_of status body) else err validation_error

unfoldable pub log_error : String → String → String → ℕ → Exec Scope (Unit {0})
log_error id code message status = modify (λ s. record s {
  logged =
      (record { correlation_id = id; code = code; message = message; status = status }) ∷ s.logged;
})

module _ (uuids : Uuids) (p : Patterns) where
  pub log_and_respond : ℕ → String → String → Option Fields → String → Exec Scope Response
  unfolding log_error
  log_and_respond status code message details id =
      log_error id code message status >> lift (error_response p status code message id details)

  -- `http_exception_handler`, with `f"http_{exc.status_code}"` as a parameter
  unfoldable pub http_exception_handler : (ℕ → String) → ℕ → Detail → Exec Scope Response
  unfolding log_and_respond
  http_exception_handler http_code status detail =
      bound_correlation_id uuids
      >>= log_and_respond status (code_of (http_code status) detail)
          (message_of (http_code status) detail) none

  -- `validation_exception_handler`
  unfoldable pub validation_exception_handler : Items → Exec Scope Response
  unfolding log_and_respond
  validation_exception_handler errors =
      bound_correlation_id uuids
      >>= log_and_respond 422 "validation_error" "Request validation failed"
          (some (safe_dict p (field "errors" (list errors) end)))

  -- `unhandled_exception_handler`, of the class of the exception and its text
  unfoldable pub unhandled_exception_handler : String → String → Exec Scope Response
  unfolding log_error
  unhandled_exception_handler error_class message = bound_correlation_id uuids >>= λ id.
      log_error id error_class (or_text (some (safe_message p message)) error_class) 500
      >> lift (
          error_response p 500 "internal_error" "An unexpected error occurred" id
            (some (field "error_class" (str error_class) end)))
