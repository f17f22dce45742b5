-- ===== src/Tenancy/Access.antt =====
-- Who a request comes from: `verify_backend_jwt` of app/security/backend_auth.py, and the chain of
-- dependencies of app/core/deps.py. PyJWT, and Python's classes of characters, are parameters.
pub mod Granted
use Prim.Native.String
use Prim.Native.Char.{Char}
use paquitobot_rag.Prelude.{
  ℕ, String, Bool, true, false, not, ◌&&◌, ◌||◌, Option, none, some, str_eq, if◌then◌else◌,
}
use paquitobot_rag.Text.{lstrip_of, rstrip_of}
use paquitobot_rag.Exec.{
  Exn, Result, ok, err, jwt_invalid, tenant_not_found, token_invalid, http_exception, Exec, pure,
  raise, lift, ◌>>=◌,
}
use paquitobot_rag.Tenancy.{Fernet, TenantRecord}
use paquitobot_rag.Tenancy.Contract.{TenantStore}

-- PyJWT: `none` is an exception of it. A claim or a header that is absent, or is no string, is
-- `none` in turn.
pub record Jwt : Type 0 where
  pub header_alg : String → Option (Option String)
  pub decode_sub : String → String → Option (Option String)

-- `str.isspace` of a character, `str.lower`
pub record Python : Type 0 where
  pub is_space : Char → Bool
  pub lower : String → String

module _ (python : Python) where
  -- `s.lstrip()`, `s.rstrip()`, and the word before the first space and what follows it
  lstrip : String → String
  lstrip s = lstrip_of python.is_space s

  rstrip : String → String
  rstrip s = rstrip_of python.is_space s

  word : String → String
  word String.[] = String.[]
  word (String.◌∷◌ c s) = let rest = word s in if python.is_space c then "" else String.◌∷◌ c rest

  after_word : String → String
  after_word String.[] = String.[]
  after_word (String.◌∷◌ c s) =
      let rest = after_word s in if python.is_space c then String.◌∷◌ c s else rest

  -- `parts = authorization.split(None, 1)`, and what is made of two parts
  bearer_of : String → String → Result String
  unfolding rstrip
  bearer_of scheme rest =
      if str_eq rest "" || not (str_eq (python.lower scheme) "bearer")
      then err (http_exception 401)
      else ok (rstrip rest)

  -- `_bearer_authorization`
  unfoldable pub bearer_authorization : Option String → Result String
  unfolding bearer_of lstrip word after_word
  bearer_authorization none = err (http_exception 401)
  bearer_authorization (some authorization) =
      if str_eq authorization ""
      then err (http_exception 401)
      else bearer_of (word (lstrip authorization)) (lstrip (after_word (lstrip authorization)))

module _ (jwt : Jwt) (secret : String) where
  abbrev pub sub_claim : Option (Option String) → Result String
  sub_claim none = err jwt_invalid
  sub_claim (some none) = err jwt_invalid
  sub_claim (some (some sub)) = if str_eq sub "" then err jwt_invalid else ok sub

  abbrev pub decoded : String → Option (Option String) → Result String
  decoded token none = err jwt_invalid
  decoded token (some none) = err jwt_invalid
  decoded token (some (some alg)) =
      if not (str_eq alg "HS256") then err jwt_invalid else sub_claim (jwt.decode_sub token secret)

  -- `verify_backend_jwt`
  unfoldable pub verify_backend_jwt : String → Result String
  verify_backend_jwt token =
      if str_eq token "" then err jwt_invalid else decoded token (jwt.header_alg token)

-- `except InvalidToken`
abbrev pub unauthorized : Exn → Exn
unauthorized jwt_invalid = http_exception 401
unauthorized e = e

-- `except (TenantNotFound, CanvasTokenInvalid, UnicodeError)`
abbrev pub forbidden : Exn → Exn
forbidden tenant_not_found = http_exception 403
forbidden token_invalid = http_exception 403
forbidden e = e

-- `except TenantNotFound`
abbrev pub unresolved : Exn → Exn
unresolved tenant_not_found = http_exception 403
unresolved e = e

abbrev pub excepting : {A : Type 0} → (Exn → Exn) → Result A → Result A
excepting f (err e) = err (f e)
excepting f (ok a) = ok a

abbrev pub bind : {A B : Type 0} → Result A → (A → Result B) → Result B
bind (err e) f = err e
bind (ok a) f = f a

module _ {S : Type 0} {fernet : Fernet} (store : TenantStore fernet S) (python : Python) (jwt : Jwt)
    (secret : String) where
  -- `verify_backend_jwt_dependency`, after the dependency it names
  unfoldable pub verify_backend_jwt_dependency : Option String → Result String
  unfolding bearer_authorization verify_backend_jwt
  verify_backend_jwt_dependency header =
      bind (bearer_authorization python header)
        λ token. excepting unauthorized (verify_backend_jwt jwt secret token)

  -- `require_tenant`
  unfoldable pub require_tenant : Option String → Exec S ℕ
  unfolding verify_backend_jwt_dependency
  require_tenant header = do
    user_id ← lift (verify_backend_jwt_dependency header)
    tenant ←
        λ s. let (found, s') = store.get_or_create user_id s in (excepting unresolved found, s')
    pure tenant.id

  -- `require_tenant_token`
  unfoldable pub require_tenant_token : Option String → Exec S (ℕ × String)
  unfolding require_tenant
  require_tenant_token header = do
    tenant_id ← require_tenant header
    plaintext ← λ s. (excepting forbidden (store.read tenant_id s), s)
    pure (tenant_id, plaintext)
