-- ===== src/Tenancy/Connect.antt =====
-- `connect_canvas` of app/controllers/auth.py, over either mode of the tenant service. Canvas' answer
-- to the probe `GET /users/self` is an argument; the key in the settings is one that a cipher takes.
use paquitobot_rag.Prelude.{
  ℕ, String, ◌≡◌, ◌≢◌, ◌≤◌, ◌<◌, refl, sym, ap, ◌∙◌, true, false, Option, str_eq, str_eq_iff, leb,
  ◌==◌, arith, inl, inr, Bool-cases, if◌then◌else◌,
}
use paquitobot_rag.Exec.{ok, http_exception, Exec, pure, raise, ◌>>=◌}
use paquitobot_rag.Tenancy.{Fernet, encrypt, TokenCipher, TenantRecord}
use paquitobot_rag.Tenancy.Directory.{
  Directory, resolved, resolve, keep_token, IsInverse, token_of-keep_token,
}
use paquitobot_rag.Tenancy.Contract.{TenantStore}
use paquitobot_rag.Tenancy.Access.{Jwt, Python, verify_backend_jwt_dependency, require_tenant_token}
use paquitobot_rag.Tenancy.Access.Granted.{require_tenant_token_lem}

-- The probe raises an `httpx.HTTPError`, or has a status code.
pub data Probe : Type 0 where
  failed : Probe
  status : ℕ → Probe

-- The responses that are returned: 204, and the 401 of `_canvas_invalid_response`.
pub data Response : Type 0 where
  no_content canvas_token_invalid : Response

module _ {S : Type 0} {fernet : Fernet} (store : TenantStore fernet S) (cipher : TokenCipher) where
  after_status : ℕ → TenantRecord → String → Exec S Response
  after_status code tenant canvas_token =
      if code == 401
      then pure canvas_token_invalid
      else if leb 500 code
      then raise (http_exception 502)
      else if leb 400 code
      then pure canvas_token_invalid
      else (store.store tenant.id canvas_token cipher >>= λ _. pure no_content)

  after_probe : Probe → TenantRecord → String → Exec S Response
  unfolding after_status
  after_probe failed tenant canvas_token = pure canvas_token_invalid
  after_probe (status code) tenant canvas_token = after_status code tenant canvas_token

  -- `connect_canvas`
  unfoldable pub connect_canvas : Probe → String → String → Exec S Response
  unfolding after_probe
  connect_canvas probe canvas_token user_id =
      if str_eq canvas_token ""
      then raise (http_exception 400)
      else (store.get_or_create user_id >>= λ tenant. after_probe probe tenant canvas_token)

  module _ (user token : String) (d : Directory) (s : S) (code : ℕ) where
    abbrev own : TenantRecord
    own = resolved user (store.new_id s) (d.tenant_of user)

    abbrev connected : Directory
    connected =
        keep_token own.id (encrypt fernet cipher (store.nonce (store.get_or_create user s).1) token)
          cipher (resolve user (store.new_id s) d)

    -- The token that Canvas takes is stored for the user's tenant.
    pub connect_canvas-IsView :
        str_eq token "" ≡ false
        → str_eq user "" ≡ false
        → code < 400
        → store.CanAdd user s
        → store.CanKeep own.id token cipher (store.get_or_create user s).1
        → store.IsView d s
        → ((connect_canvas (status code) token user s).0 ≡ ok no_content)
          × store.IsView connected (connect_canvas (status code) token user s).1
    unfolding connect_canvas ◌>>=◌ pure
    connect_canvas-IsView given named low can keep view =
        let (made, view') = store.resolves user d s named can view in
        let ((stored, kept), view'') =
          store.keeps own.id token cipher (resolve user (store.new_id s) d)
            (store.get_or_create user s).1 keep view' in
        let not_401 : code == 401 ≡ false = ground arith in
        let not_500 : leb 500 code ≡ false = ground arith in
        let not_400 : leb 400 code ≡ false = ground arith in
        rw (given, made, not_401, not_500, not_400, kept) (refl, view'')

    -- After a token was connected, a request of the same user is granted it, with the user's tenant.
    pub require_tenant_token-connect_canvas :
        (python : Python) (jwt : Jwt) (secret : String) (header : Option String)
        → IsInverse fernet
        → verify_backend_jwt_dependency store python jwt secret header ≡ ok user
        → str_eq token "" ≡ false
        → str_eq user "" ≡ false
        → code < 400
        → store.CanAdd user s
        → store.CanKeep own.id token cipher (store.get_or_create user s).1
        → store.CanAdd user (connect_canvas (status code) token user s).1
        → store.IsView d s
        → (require_tenant_token store python jwt secret header
            (connect_canvas (status code) token user s).1).0
          ≡ ok (own.id, token)
    require_tenant_token-connect_canvas python jwt secret header inverse verified given named low
          can keep again view =
        let (_, view') = connect_canvas-IsView given named low can keep view in
        let s' = (connect_canvas (status code) token user s).1 in
        let (granted, _) =
          require_tenant_token_lem store python jwt secret header user connected s' verified named
            again view' in
        let kept =
          token_of-keep_token fernet own.id (store.nonce (store.get_or_create user s).1) token
            cipher (resolve user (store.new_id s) d) inverse in
        let same : str_eq user user ≡ true = (str_eq_iff user user).1 refl in
        granted ∙ rw (same, kept) refl

  abbrev IsRefused : Probe → Type 0
  IsRefused failed = Unit {0}
  IsRefused (status code) = 400 ≤ code

  after_probe_refused :
      (probe : Probe) (tenant : TenantRecord) (token : String) (s : S)
      → IsRefused probe
      → ((after_probe probe tenant token s).0 ≢ ok no_content)
        × ((after_probe probe tenant token s).1 ≡ s)
  unfolding after_probe pure raise
  after_probe_refused failed tenant token s refused = (λ h. cc, refl)
  after_probe_refused (status code) tenant token s refused = elim (Bool-cases (code == 401)) [
    | inl unauthorized ↦ rw (unauthorized) (λ h. cc, refl)
    | inr other ↦ elim (Bool-cases (leb 500 code)) [
      | inl unavailable ↦ rw (other, unavailable) (λ h. cc, refl)
      | inr client_error ↦
          let low : leb 400 code ≡ true = ground arith in
          rw (other, client_error, low) (λ h. cc, refl)
    ]
  ]

  -- A probe that Canvas does not answer, or answers with an error, stores no token.
  pub connect_canvas_refused :
      (probe : Probe) (user token : String) (d : Directory) (s : S)
      → IsRefused probe
      → str_eq user "" ≡ false
      → store.CanAdd user s
      → store.IsView d s
      → ((connect_canvas probe token user s).0 ≢ ok no_content)
        × ((tenant : ℕ)
            → store.read tenant (connect_canvas probe token user s).1 ≡ store.read tenant s)
  unfolding connect_canvas ◌>>=◌ raise
  connect_canvas_refused probe user token d s refused named can view =
      let (made, view') = store.resolves user d s named can view in
      let tenant = resolved user (store.new_id s) (d.tenant_of user) in
      let s' = (store.get_or_create user s).1 in
      let (nothing, unchanged) = after_probe_refused probe tenant token s' refused in
      elim (Bool-cases (str_eq token "")) [
        | inl empty ↦ rw (empty) (λ h. cc, λ t. refl)
        | inr given ↦
            rw (given, made)
              (
                nothing,
                λ t.
                    ap (store.read t) unchanged
                    ∙ store.reads t (resolve user (store.new_id s) d) s' view'
                    ∙ sym (store.reads t d s view),
              )
      ]
