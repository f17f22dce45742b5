-- ===== src/Tenancy.antt =====
-- Tenants and their Canvas tokens: app/security/token_crypto.py, and the in-memory mode of
-- app/services/tenant_service.py. A tenant's id is the number of its UUID, a token and a ciphertext
-- are texts; Fernet, `uuid4` and the clock are parameters.
pub mod Access
pub mod Contract
pub mod Directory
pub mod Memory
pub mod Stored
pub mod Connect
pub mod Examples
use Prim.Native.String.{begins}
use paquitobot_rag.Prelude.{
  ℕ, suc, String, Bool, true, false, Option, none, some, ◌==◌, str_eq, if◌then◌else◌,
}
use paquitobot_rag.Exec.{
  Exn, Result, ok, err, value_error, tenant_not_found, token_invalid, Exec, pure, raise, lift, gets,
  modify, ◌>>=◌, ◌>>◌,
}

-- `cryptography.fernet.Fernet`: encryption draws a nonce and reads the clock.
pub record Fernet : Type 0 where
  pub encrypt : String → ℕ → String → String
  pub decrypt : String → String → Option String

-- `EncryptedToken`
pub record EncryptedToken : Type 0 where
  pub ciphertext : String
  pub key_version : ℕ

-- `TokenCipher`, with a key that its constructor has accepted
pub record TokenCipher : Type 0 where
  pub key : String
  pub key_version : ℕ

-- `encrypt`
unfoldable pub encrypt : Fernet → TokenCipher → ℕ → String → EncryptedToken
encrypt fernet cipher nonce plaintext = record {
  ciphertext = fernet.encrypt cipher.key nonce plaintext;
  key_version = cipher.key_version;
}

abbrev decrypted : Option String → Result String
decrypted none = err token_invalid
decrypted (some plaintext) = ok plaintext

-- `decrypt`
unfoldable pub decrypt : Fernet → TokenCipher → EncryptedToken → Result String
decrypt fernet cipher envelope =
    if envelope.key_version == cipher.key_version
    then decrypted (fernet.decrypt cipher.key envelope.ciphertext)
    else err token_invalid

-- `TenantRecord`
pub record TenantRecord : Type 0 where
  pub id : ℕ
  pub backend_user_id : String

-- `_StoredCredential`, but the times
pub record StoredCredential : Type 0 where
  pub envelope : EncryptedToken
  pub cipher : TokenCipher

-- A dict is the function that `get` reads; `tick` numbers the calls of `uuid4` and of Fernet.
pub record Service : Type 0 where
  pub tenants_by_backend_user : String → Option TenantRecord
  pub tenants_by_id : ℕ → Option TenantRecord
  pub credentials : ℕ → Option StoredCredential
  pub ciphers : ℕ → Option TokenCipher
  pub tick : ℕ

-- `TenantService()`
abbrev pub new_service : Service
new_service = record {
  tenants_by_backend_user = λ _. none;
  tenants_by_id = λ _. none;
  credentials = λ _. none;
  ciphers = λ _. none;
  tick = 0;
}

-- `d[k] = v`
module _ {V : Type 0} where
  abbrev pub assign : ℕ → V → (ℕ → Option V) → ℕ → Option V
  assign k v f j = if k == j then some v else f j

  abbrev pub assign_text : String → V → (String → Option V) → String → Option V
  assign_text k v f j = if str_eq k j then some v else f j

-- `bind_cipher`
unfoldable pub bind_cipher : ℕ → TokenCipher → Service → Service
bind_cipher version cipher s = record s { ciphers = assign version cipher s.ciphers }

module _ (uuid4 : ℕ → ℕ) where
  add_tenant : String → Exec Service TenantRecord
  add_tenant user s =
      let made : TenantRecord = record { id = uuid4 s.tick; backend_user_id = user } in
      (
        ok made,
        record s {
          tenants_by_backend_user = assign_text user made s.tenants_by_backend_user;
          tenants_by_id = assign (uuid4 s.tick) made s.tenants_by_id;
          tick = suc s.tick;
        },
      )

  pub found_or_added : String → Option TenantRecord → Exec Service TenantRecord
  unfolding add_tenant
  found_or_added user (some existing) = pure existing
  found_or_added user none = add_tenant user

  -- `get_or_create_tenant`
  unfoldable pub get_or_create_tenant : String → Exec Service TenantRecord
  unfolding found_or_added
  get_or_create_tenant user =
      if str_eq user ""
      then raise value_error
      else (λ s. found_or_added user (s.tenants_by_backend_user user) s)

module _ (fernet : Fernet) where
  store_known :
      ℕ → EncryptedToken → TokenCipher → Option TenantRecord → Exec Service StoredCredential
  store_known tenant envelope cipher none s = (err tenant_not_found, s)
  store_known tenant envelope cipher (some _) s =
      let stored : StoredCredential = record { envelope = envelope; cipher = cipher } in
      (
        ok stored,
        record s {
          credentials = assign tenant stored s.credentials;
          ciphers = assign cipher.key_version cipher s.ciphers;
        },
      )

  -- `store_canvas_token`
  unfoldable pub store_canvas_token : ℕ → String → TokenCipher → Exec Service StoredCredential
  unfolding encrypt store_known
  store_canvas_token tenant canvas_token cipher s =
      store_known tenant (encrypt fernet cipher s.tick canvas_token) cipher (s.tenants_by_id tenant)
        (record s { tick = suc s.tick })

  -- `cipher.decrypt(envelope)`, with the cipher that is bound to the envelope's version
  unfoldable pub decrypt_with : EncryptedToken → Option TokenCipher → Result String
  unfolding decrypt
  decrypt_with envelope none = err tenant_not_found
  decrypt_with envelope (some cipher) = decrypt fernet cipher envelope

  decrypt_stored : (ℕ → Option TokenCipher) → Option StoredCredential → Result String
  unfolding decrypt_with
  decrypt_stored ciphers none = err tenant_not_found
  decrypt_stored ciphers (some stored) =
      decrypt_with stored.envelope (ciphers stored.envelope.key_version)

  -- `get_decrypted_canvas_token`
  unfoldable pub get_decrypted_canvas_token : ℕ → Service → Result String
  unfolding decrypt_stored
  get_decrypted_canvas_token tenant s = decrypt_stored s.ciphers (s.credentials tenant)

abbrev is_some : {A : Type 0} → Option A → Bool
is_some none = false
is_some (some _) = true

-- `has_credentials`
unfoldable pub has_credentials : ℕ → Service → Bool
has_credentials tenant s = is_some (s.credentials tenant)
