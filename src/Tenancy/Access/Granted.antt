-- ===== src/Tenancy/Access/Granted.antt =====
-- What the dependencies of app/core/deps.py grant, over either mode of the tenant service.
use paquitobot_rag.Prelude.{
  ℕ, String, ◌≡◌, refl, sym, ap, ◌∙◌, false, Option, none, some, str_eq, str_eq_iff, arith, not,
}
use paquitobot_rag.Exec.{Exn, Result, ok, err, and_then, pure, lift, ◌>>=◌, jwt_invalid}
use paquitobot_rag.Exec.Inversion.{guard-ok}
use paquitobot_rag.Tenancy.{Fernet, TenantRecord}
use paquitobot_rag.Tenancy.Directory.{Directory, resolved, resolve, token_of}
use paquitobot_rag.Tenancy.Contract.{TenantStore}
use paquitobot_rag.Tenancy.Access.{
  Jwt, Python, bearer_authorization, verify_backend_jwt, verify_backend_jwt_dependency,
  require_tenant, require_tenant_token, unauthorized, forbidden, excepting, bind, decoded,
  sub_claim,
}

-- What the token proves.
abbrev pub Proves : Jwt → String → String → String → Type 0
Proves jwt secret token sub =
    (jwt.header_alg token ≡ some (some "HS256"))
    × (jwt.decode_sub token secret ≡ some (some sub))
    × (str_eq sub "" ≡ false)

sub_claim_sound :
    (jwt : Jwt) (secret sub : String) (c : Option (Option String))
    → sub_claim jwt secret c ≡ ok sub
    → (c ≡ some (some sub)) × (str_eq sub "" ≡ false)
sub_claim_sound jwt secret sub none h = cc
sub_claim_sound jwt secret sub (some none) h = cc
sub_claim_sound jwt secret sub (some (some x)) h = ground (arith, h)

decoded_sound :
    (jwt : Jwt) (secret token sub : String) (alg : Option (Option String))
    → jwt.header_alg token ≡ alg
    → decoded jwt secret token alg ≡ ok sub
    → Proves jwt secret token sub
decoded_sound jwt secret token sub none e h = cc
decoded_sound jwt secret token sub (some none) e h = cc
decoded_sound jwt secret token sub (some (some x)) e h =
    let (algorithm, claimed) =
      guard-ok (not (str_eq x "HS256")) jwt_invalid
        (sub_claim jwt secret (jwt.decode_sub token secret)) sub h in
    let (found, named) = sub_claim_sound jwt secret sub (jwt.decode_sub token secret) claimed in
    (
      e ∙ ap (λ y. some (some y)) ((str_eq_iff x "HS256").0 (ground (arith, algorithm))),
      found,
      named,
    )

-- A token that verifies is signed by HS256, and decodes to the claim that is returned.
pub verify_backend_jwt_sound :
    (jwt : Jwt) (secret token sub : String)
    → verify_backend_jwt jwt secret token ≡ ok sub
    → Proves jwt secret token sub
unfolding verify_backend_jwt
verify_backend_jwt_sound jwt secret token sub h =
    decoded_sound jwt secret token sub (jwt.header_alg token) refl
      (guard-ok (str_eq token "") jwt_invalid (decoded jwt secret token (jwt.header_alg token)) sub
        h).1

bind-ok :
    {A B : Type 0} (r : Result A) (f : A → Result B) (b : B)
    → bind r f ≡ ok b
    → (a : A) × (r ≡ ok a) × (f a ≡ ok b)
bind-ok (err e) f b h = cc
bind-ok (ok a) f b h = (a, refl, h)

excepting-ok : {A : Type 0} (f : Exn → Exn) (r : Result A) (a : A) → excepting f r ≡ ok a → r ≡ ok a
excepting-ok f (ok x) a h = h
excepting-ok f (err e) a h = cc

>>=-pure :
    {S A B : Type 0} (r : Result A) (f : A → B) (s : S) (P : S → Type 0)
    → P s
    → ((and_then (λ a. pure (f a)) r s).0 ≡ bind r (λ a. ok (f a)))
      × P (and_then (λ a. pure (f a)) r s).1
unfolding pure
>>=-pure (ok a) f s P h = (refl, h)
>>=-pure (err e) f s P h = (refl, h)

module _ {S : Type 0} {fernet : Fernet} (store : TenantStore fernet S) (python : Python) (jwt : Jwt)
    (secret : String) (header : Option String) where
  -- The header names a user by a token that PyJWT takes.
  abbrev pub IsFrom : String → Type 0
  IsFrom sub =
      (token : String) × (bearer_authorization python header ≡ ok token)
      × Proves jwt secret token sub

  verify_backend_jwt_dependency_sound :
      (sub : String)
      → verify_backend_jwt_dependency store python jwt secret header ≡ ok sub
      → IsFrom sub
  unfolding verify_backend_jwt_dependency
  verify_backend_jwt_dependency_sound sub h =
      let (token, given, checked) =
        bind-ok (bearer_authorization python header)
          (λ t. excepting unauthorized (verify_backend_jwt jwt secret t)) sub h in
      (
        token,
        given,
        verify_backend_jwt_sound jwt secret token sub
            (excepting-ok unauthorized (verify_backend_jwt jwt secret token) sub checked),
      )

  module _ (sub : String) (d : Directory) (s : S) where
    abbrev pub own_tenant : TenantRecord
    own_tenant = resolved sub (store.new_id s) (d.tenant_of sub)

    pub require_tenant_token_lem :
        verify_backend_jwt_dependency store python jwt secret header ≡ ok sub
        → str_eq sub "" ≡ false
        → store.CanAdd sub s
        → store.IsView d s
        → ((require_tenant_token store python jwt secret header s).0
            ≡ bind
                (excepting forbidden (token_of fernet own_tenant.id d))
                (λ token. ok (own_tenant.id, token)))
          × store.IsView
              (resolve sub (store.new_id s) d)
              (require_tenant_token store python jwt secret header s).1
    unfolding require_tenant_token require_tenant ◌>>=◌ lift pure
    require_tenant_token_lem verified named can view =
        let (given, view') = store.resolves sub d s named can view in
        let shown =
          store.reads own_tenant.id (resolve sub (store.new_id s) d) (store.get_or_create sub s).1
            view' in
        rw (verified, given, shown)
          (>>=-pure (excepting forbidden (token_of fernet own_tenant.id d))
            (λ token. (own_tenant.id, token)) (store.get_or_create sub s).1
            (store.IsView (resolve sub (store.new_id s) d)) view')

  -- Whoever is granted a tenant and a token is named by a token that PyJWT takes, and is granted
  -- the tenant and the token of that name.
  pub require_tenant_token_sound :
      (d : Directory) (s : S) (tenant : ℕ) (token : String)
      → ((user : String) → store.CanAdd user s)
      → store.IsView d s
      → (require_tenant_token store python jwt secret header s).0 ≡ ok (tenant, token)
      → (sub : String) × IsFrom sub
        × (tenant ≡ (own_tenant sub d s).id)
        × (token_of fernet tenant d ≡ ok token)
  unfolding require_tenant_token require_tenant ◌>>=◌ lift pure
  require_tenant_token_sound d s tenant token can view h =
      go (verify_backend_jwt_dependency store python jwt secret header) refl
    where
      go :
          (r : Result String)
          → verify_backend_jwt_dependency store python jwt secret header ≡ r
          → (sub : String) × IsFrom sub
            × (tenant ≡ (own_tenant sub d s).id)
            × (token_of fernet tenant d ≡ ok token)
      go (err e) v = absurd (ground (arith, v, h))
      go (ok sub) v =
          let from = verify_backend_jwt_dependency_sound sub v in
          let (granted, _) = require_tenant_token_lem sub d s v from.2.2 (can sub) view in
          let (plain, read, pair) =
            bind-ok (excepting forbidden (token_of fernet (own_tenant sub d s).id d))
              (λ t. ok ((own_tenant sub d s).id, t)) (tenant, token) (sym granted ∙ h) in
          let held =
            excepting-ok forbidden (token_of fernet (own_tenant sub d s).id d) plain read in
          (sub, from, ground (arith, pair), ground (arith, pair, held))
