-- ===== src/Canvas/Client.antt =====
-- app/canvas/client.py: the GET-only client. The state is what has gone out: how often the token
-- provider was asked, and the requests that were sent, last first. What the provider and the
-- transport answer is a parameter, each asked with its number, and so is tenacity's `AsyncRetrying`.
pub mod Attempts
pub mod Examples
use Prim.Native.Char.{code}
use Prim.Native.String
use Prim.Native.String.{begins, ◌++◌ as append}
use paquitobot_rag.Prelude.{
  ℕ, zero, suc, String, Bool, true, false, Option, none, some, List, [], ◌∷◌, leb, max, ◌==◌, ◌&&◌,
  ◌||◌, not, str_eq, if◌then◌else◌,
}
use paquitobot_rag.Exec.{
  Exn, Result, ok, err, request_error, http_error, method_rejected, value_error, Exec, pure, raise,
  lift, ◌>>=◌, ◌>>◌,
}
use paquitobot_rag.Value.{member}
use paquitobot_rag.Canvas.Pagination.{Page}

pub record Request : Type 0 where
  pub method : String
  pub url : String
  pub params : List (String × String)
  pub token : String

pub record Net : Type 0 where
  pub tokens : ℕ
  pub sent : List Request

-- What `client.request` does: it returns a response, or raises an `httpx.HTTPError`.
pub data Answer : Type 0 where
  transport_error : Answer
  responded : Page → Answer

pub record Transport : Type 0 where
  -- `str.upper`
  pub upper : String → String
  -- `token_provider()`, by the number of the call; it may raise
  pub token_provider : ℕ → Result String
  -- the answer to a request, after those that were sent before
  pub answer : List Request → Request → Answer
  -- `AsyncRetrying` with `stop_after_attempt`, `retry_if_exception_type` and `reraise`
  pub retrying : ℕ → (Exn → Bool) → Exec Net Page → Exec Net Page

-- `ALLOWED_METHODS`
abbrev pub allowed_methods : List String
allowed_methods = "GET" ∷ []

-- `base_url.rstrip("/")`
rstrip_slash : String → String
rstrip_slash String.[] = String.[]
rstrip_slash (String.◌∷◌ c s) =
    let rest = rstrip_slash s in if str_eq rest "" && code c == b'/' then "" else String.◌∷◌ c rest

-- `path.startswith(prefix)`
abbrev starts_with : String → String → Bool
starts_with prefix path = begins path prefix 1 0 == 1

-- `_resolve_url`
unfoldable pub resolve_url : String → String → Result String
unfolding rstrip_slash
resolve_url base_url path =
    if str_eq path ""
    then err value_error
    else if starts_with "http://" path || starts_with "https://" path
    then ok path
    else ok
        (append (rstrip_slash base_url) (if starts_with "/" path then path else append "/" path))

-- `retry_if_exception_type((httpx.HTTPError, CanvasRequestError))`
unfoldable pub is_retryable : Exn → Bool
is_retryable (request_error status) = true
is_retryable (http_error mentions) = true
is_retryable _ = false

-- The two translations of a failure; a 4xx is returned.
unfoldable pub translate : Answer → Result Page
translate transport_error = err (request_error none)
translate (responded page) =
    if leb 500 page.status_code then err (request_error (some page.status_code)) else ok page

module _ (transport : Transport) where
  -- `_get_token`
  unfoldable pub get_token : Exec Net String
  get_token s = (transport.token_provider s.tokens, record s { tokens = suc s.tokens })

  -- `await client.request(…)`
  unfoldable pub send : Request → Exec Net Page
  unfolding translate
  send request s =
      (translate (transport.answer s.sent request), record s { sent = request ∷ s.sent })

  -- `_do_request`
  unfoldable pub do_request : String → String → List (String × String) → Exec Net Page
  unfolding get_token send
  do_request method url params = do
    token ← get_token
    send (record { method = method; url = url; params = params; token = token })

  -- `_request`; the constructor sees to one attempt at least.
  unfoldable pub request : String → ℕ → String → String → List (String × String) → Exec Net Page
  unfolding do_request is_retryable
  request base_url max_attempts method path params =
      let normalized = transport.upper method in
      if member normalized allowed_methods
      then (do
        url ← lift (resolve_url base_url path)
        transport.retrying (max 1 max_attempts) is_retryable (do_request normalized url params))
      else raise method_rejected

  -- `get`
  unfoldable pub get : String → ℕ → String → List (String × String) → Exec Net Page
  unfolding request
  get base_url max_attempts path params = request base_url max_attempts "GET" path params
