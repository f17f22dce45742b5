-- ===== src/Tenancy/Examples.antt =====
-- The theorems on tenants and their tokens at concrete requests.
use Prim.Native.Char.{code}
use paquitobot_rag.Prelude.{
  ℕ, String, ◌∷◌, str_eq, inl, inr, Bool-cases, if◌then◌else◌, ◌≡◌, refl, ◌+◌, true, Option, none,
  some, [], ◌==◌, arith,
}
use paquitobot_rag.Text.{lstrip_of, rstrip_of}
use paquitobot_rag.Exec.{ok, Exec, ◌>>=◌, lift, pure}
use paquitobot_rag.Tenancy.{
  Fernet, encrypt, TokenCipher, StoredCredential, Service, new_service, get_or_create_tenant,
  store_canvas_token, get_decrypted_canvas_token,
}
use paquitobot_rag.Tenancy.Access.{Jwt, Python, verify_backend_jwt_dependency, require_tenant_token}
use paquitobot_rag.Tenancy.Access.Granted.{IsFrom, own_tenant, require_tenant_token_sound}
use paquitobot_rag.Tenancy.Connect.{
  status, Response, connect_canvas, require_tenant_token-connect_canvas,
}
use paquitobot_rag.Tenancy.Directory.{Directory, resolve, keep_token, token_of, IsInverse}
use paquitobot_rag.Tenancy.Memory.{
  IsShownBy, memory, get_or_create_tenant-IsShownBy, store_canvas_token-IsShownBy, resolved-IsKnown,
}
use paquitobot_rag.Tenancy.Stored
use paquitobot_rag.Tenancy.Stored.{
  CanvasCredential, Store, Database, find_tenant, get_canvas_credential,
}
use paquitobot_rag.Query.{select, scalar_one_or_none}
use paquitobot_rag.Tenancy.Stored.Refinement.{
  IsFoundIn, get_or_create_tenant-IsFoundIn, store_canvas_token-IsFoundIn,
}

-- An encryption that forgets to encrypt, but is undone.
abbrev toy : Fernet
toy = record {
  encrypt = λ key nonce plaintext. plaintext;
  decrypt = λ key ciphertext. some ciphertext;
}

toy-IsInverse : IsInverse toy
toy-IsInverse key nonce plaintext = refl

abbrev cipher : TokenCipher
cipher = record { key = "k"; key_version = 1 }

abbrev ids : ℕ → ℕ
ids n = n + 100

abbrev nobody : Directory
nobody = record { tenant_of = λ _. none; credential_of = λ _. none; cipher_of = λ _. none }

new_service-IsShownBy : IsShownBy nobody new_service
new_service-IsShownBy = record {
  tenants = λ _. refl;
  credentials = λ _. refl;
  ciphers = λ _. refl;
  known = λ user r h. cc;
}

joined_shown :
    ((get_or_create_tenant ids "ana" new_service).0
      ≡ ok (record { id = 100; backend_user_id = "ana" }))
    × IsShownBy (resolve "ana" 100 nobody) (get_or_create_tenant ids "ana" new_service).1
joined_shown =
    get_or_create_tenant-IsShownBy ids "ana" nobody new_service refl new_service-IsShownBy

abbrev joined : Service
joined = (get_or_create_tenant ids "ana" new_service).1

joined-IsShownBy : IsShownBy (resolve "ana" 100 nobody) joined
joined-IsShownBy = joined_shown.1

abbrev database : Database
database = record { uuid4 = ids; now = λ n. n; accepts = λ _. true }

abbrev no_rows : Store
no_rows = record { tenants = []; canvas_credentials = []; ciphers = λ _. none; tick = 0 }

no_rows-IsFoundIn : IsFoundIn nobody no_rows
unfolding select scalar_one_or_none find_tenant get_canvas_credential
no_rows-IsFoundIn = record {
  tenants = λ user. refl;
  credentials = λ tenant. (none, refl, refl);
  ciphers = λ _. refl;
}

get_or_create_tenant-IsFoundIn_example :
    ((Stored.get_or_create_tenant database "ana" no_rows).0
      ≡ ok (record { id = 100; backend_user_id = "ana" }))
    × IsFoundIn (resolve "ana" 100 nobody) (Stored.get_or_create_tenant database "ana" no_rows).1
get_or_create_tenant-IsFoundIn_example =
    get_or_create_tenant-IsFoundIn database "ana" nobody no_rows refl (λ _. refl) no_rows-IsFoundIn

abbrev one_row : Store
one_row = record no_rows {
  canvas_credentials =
      record { tenant_id = 100; ciphertext = "old"; key_version = 1; rotated_at = none } ∷ [];
}

abbrev someone : Directory
someone = record nobody {
  credential_of = λ tenant.
      if 100 == tenant then some (record { ciphertext = "old"; key_version = 1 }) else none;
}

one_row-IsFoundIn : IsFoundIn someone one_row
unfolding select scalar_one_or_none find_tenant get_canvas_credential
one_row-IsFoundIn = record {
  tenants = λ user. refl;
  credentials = λ tenant. elim (Bool-cases (100 == tenant)) [
    | inl same ↦ rw (same) (
      some (record { tenant_id = 100; ciphertext = "old"; key_version = 1; rotated_at = none }),
      refl,
      refl,
    )
    | inr other ↦ rw (other) (none, refl, refl)
  ];
  ciphers = λ _. refl;
}

-- The second token of a tenant, which rotates the first.
store_canvas_token-IsFoundIn_example :
    ((kept : StoredCredential) × ((Stored.store_canvas_token database toy 100 "canvas" cipher
          one_row).0
        ≡ ok kept))
    × IsFoundIn
        (keep_token 100 (encrypt toy cipher 0 "canvas") cipher someone)
        (Stored.store_canvas_token database toy 100 "canvas" cipher one_row).1
store_canvas_token-IsFoundIn_example =
    store_canvas_token-IsFoundIn database toy 100 "canvas" cipher someone one_row (λ _. refl)
      one_row-IsFoundIn

-- A token says its user; a space is the only white space.
abbrev jwt : Jwt
jwt = record {
  header_alg = λ token. some (some "HS256");
  decode_sub = λ token secret. some (some token);
}

abbrev python : Python
python = record {
  is_space = λ c. code c == 32;
  lower = λ s. if str_eq s "Bearer" then "bearer" else s;
}

abbrev header : Option String
header = some "Bearer  ana "

header-ana :
    (token : String)
    → verify_backend_jwt_dependency (memory toy ids) python jwt token header ≡ ok "ana"
unfolding verify_backend_jwt_dependency lstrip_of rstrip_of
header-ana token = refl

abbrev probed : Exec Service Response
probed = connect_canvas (memory toy ids) cipher (status 200) "canvas" "ana"

require_tenant_token-connect_canvas_example :
    (require_tenant_token (memory toy ids) python jwt "secret" header (probed new_service).1).0
    ≡ ok (100, "canvas")
require_tenant_token-connect_canvas_example =
    require_tenant_token-connect_canvas (memory toy ids) cipher "ana" "canvas" nobody new_service
      200 python jwt "secret" header toy-IsInverse (header-ana "secret") refl refl (omega arith) tt
      (resolved-IsKnown "ana" 100 nobody joined joined-IsShownBy) tt new_service-IsShownBy

abbrev with_token : Directory
with_token =
    keep_token 100 (encrypt toy cipher joined.tick "canvas") cipher (resolve "ana" 100 nobody)

abbrev tenant_id : ℕ
tenant_id = 100

abbrev with_token_service : Service
with_token_service = (store_canvas_token toy 100 "canvas" cipher joined).1

granted :
    (require_tenant_token (memory toy ids) python jwt "secret" header with_token_service).0
    ≡ ok (tenant_id, "canvas")
unfolding require_tenant_token ◌>>=◌ lift pure store_canvas_token get_or_create_tenant
    verify_backend_jwt_dependency get_decrypted_canvas_token encrypt lstrip_of rstrip_of
granted = refl

require_tenant_token_sound_example :
    (sub : String) × IsFrom (memory toy ids) python jwt "secret" header sub
    × (tenant_id
        ≡ (own_tenant
            (memory toy ids)
            python
            jwt
            "secret"
            header
            sub
            with_token
            with_token_service).id)
    × (token_of toy 100 with_token ≡ ok "canvas")
require_tenant_token_sound_example =
    require_tenant_token_sound (memory toy ids) python jwt "secret" header with_token
      with_token_service tenant_id "canvas" (λ _. tt)
      (store_canvas_token-IsShownBy toy 100 "canvas" cipher (resolve "ana" 100 nobody) joined
        (resolved-IsKnown "ana" 100 nobody joined joined-IsShownBy) joined-IsShownBy).1
      granted
