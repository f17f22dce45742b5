-- ===== src/Exec.antt =====
-- Python methods that change an object and may raise. What was written before a raise stays
-- written, so the state comes back beside an exception too. The exceptions are those that the code
-- tells apart, and the ones that a last `except` takes.
pub mod Inversion
pub mod Keeps
use paquitobot_rag.Prelude.{ℕ, Bool, Option, List, [], ◌∷◌}

pub data Exn : Type 0 where
  -- app/canvas/client.py; a request error has its status code, or none after a transport error
  method_rejected : Exn
  request_error : Option ℕ → Exn
  -- app/sync/pipeline.py, app/canvas/pagination.py
  schema_drift : Exn
  pagination_error : Exn
  -- `httpx.HTTPError`, and whether its text mentions "json" or "payload"
  http_error : Bool → Exn
  -- pydantic
  validation_error : Exn
  -- SQLAlchemy and Python
  multiple_results integrity_error invalid_request type_error value_error runtime_error os_error
        assertion_error :
      Exn
  -- `CrossTenantFKError` of app/repositories/upsert.py
  cross_tenant : Exn
  -- app/services/tenant_service.py, app/security/token_crypto.py and backend_auth.py
  tenant_not_found token_invalid jwt_invalid : Exn
  -- app/services/canvas_service.py
  credentials_missing : Exn
  sync_throttled : ℕ → Exn
  -- app/text_to_sql, and sqlglot
  template_not_allowed sql_not_allowed sql_parse_error sql_execution_error : Exn
  -- FastAPI's `HTTPException`, with its status code
  http_exception : ℕ → Exn

pub data Result (A : Type 0) : Type 0 where
  ok : A → Result A
  err : Exn → Result A

abbrev pub Exec : Type 0 → Type 0 → Type 0
Exec S A = S → Result A × S

module _ {S A : Type 0} where
  unfoldable pub pure : A → Exec S A
  pure a s = (ok a, s)

  unfoldable pub raise : Exn → Exec S A
  raise e s = (err e, s)

  -- The outcome of a function that may raise and changes nothing.
  unfoldable pub lift : Result A → Exec S A
  lift r s = (r, s)

  unfoldable pub gets : (S → A) → Exec S A
  gets f s = (ok (f s), s)

unfoldable pub modify : {S : Type 0} → (S → S) → Exec S (Unit {0})
modify f s = (ok tt, f s)

module _ {S A B : Type 0} where
  abbrev pub and_then : (A → Exec S B) → Result A → S → Result B × S
  and_then f (ok a) s = f a s
  and_then f (err e) s = (err e, s)

  infixl 10 ◌>>=◌ ◌>>◌
  unfoldable pub ◌>>=◌ : Exec S A → (A → Exec S B) → Exec S B
  unfolding pure raise lift gets modify
  ◌>>=◌ m f s = let (r, s') = m s in and_then f r s'

  abbrev pub ◌>>◌ : Exec S A → Exec S B → Exec S B
  m >> k = m >>= λ _. k

-- A call on one part of the state.
unfoldable pub zoom : {S T A : Type 0} → (S → T) → (T → S → S) → Exec T A → Exec S A
zoom get set m s = let (r, t) = m (get s) in (r, set t s)

-- A `for` loop that updates an accumulator and whose body may raise.
unfoldable pub fold_each : {S A B : Type 0} → List A → B → (A → B → Exec S B) → Exec S B
fold_each [] acc body = pure acc
fold_each (x ∷ xs) acc body = body x acc >>= λ acc'. fold_each xs acc' body
