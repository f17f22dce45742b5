-- ===== src/Tenancy/Stored.antt =====
-- The session-backed mode of app/services/tenant_service.py: `TenantRepository`, on the tables
-- `tenants` and `canvas_credentials` of app/models/__init__.py.
pub mod Refinement
pub mod Rows
use paquitobot_rag.Prelude.{
  ℕ, suc, String, Bool, true, false, Option, none, some, List, [], ◌∷◌, ◌++◌, ◌==◌, str_eq,
  if◌then◌else◌,
}
use paquitobot_rag.Exec.{
  Exn, Result, ok, err, value_error, tenant_not_found, integrity_error, Exec, pure, raise, lift,
  ◌>>=◌, ◌>>◌,
}
use paquitobot_rag.Query.{select, scalar_one_or_none, update_where}
use paquitobot_rag.Tenancy.{
  Fernet, EncryptedToken, TokenCipher, encrypt, decrypt_with, TenantRecord, StoredCredential,
  assign,
}

-- A row of `canvas_credentials`
pub record CanvasCredential : Type 0 where
  pub tenant_id : ℕ
  pub ciphertext : String
  pub key_version : ℕ
  pub rotated_at : Option ℕ

-- The session's tables, a row of `tenants` as its record, and the ciphers of the service.
pub record Store : Type 0 where
  pub tenants : List TenantRecord
  pub canvas_credentials : List CanvasCredential
  pub ciphers : ℕ → Option TokenCipher
  pub tick : ℕ

pub record Database : Type 0 where
  pub uuid4 : ℕ → ℕ
  pub now : ℕ → ℕ
  -- whether a flush meets the constraints
  pub accepts : Store → Bool

abbrev pub of_user : String → TenantRecord → Bool
of_user user row = str_eq row.backend_user_id user

abbrev pub of_tenant : ℕ → CanvasCredential → Bool
of_tenant tenant row = row.tenant_id == tenant

unfoldable pub find_tenant : String → Store → Result (Option TenantRecord)
find_tenant user s = scalar_one_or_none (select (of_user user) s.tenants)

-- `get_canvas_credential`
unfoldable pub get_canvas_credential : ℕ → Store → Result (Option CanvasCredential)
get_canvas_credential tenant s = scalar_one_or_none (select (of_tenant tenant) s.canvas_credentials)

abbrev pub envelope_of : CanvasCredential → EncryptedToken
envelope_of row = record { ciphertext = row.ciphertext; key_version = row.key_version }

abbrev pub new_credential : ℕ → EncryptedToken → CanvasCredential
new_credential tenant envelope = record {
  tenant_id = tenant;
  ciphertext = envelope.ciphertext;
  key_version = envelope.key_version;
  rotated_at = none;
}

abbrev pub rotate : EncryptedToken → ℕ → CanvasCredential → CanvasCredential
rotate envelope now row = record row {
  ciphertext = envelope.ciphertext;
  key_version = envelope.key_version;
  rotated_at = some now;
}

module _ (database : Database) where
  flush : Exec Store (Unit {0})
  flush s = (if database.accepts s then ok tt else err integrity_error, s)

  insert_tenant : String → Exec Store TenantRecord
  unfolding flush
  insert_tenant user s =
      let row : TenantRecord = record { id = database.uuid4 s.tick; backend_user_id = user } in
      (flush >> pure row) (record s { tenants = s.tenants ++ row ∷ []; tick = suc s.tick })

  pub tenant_or_insert : String → Option TenantRecord → Exec Store TenantRecord
  unfolding insert_tenant
  tenant_or_insert user (some existing) = pure existing
  tenant_or_insert user none = insert_tenant user

  -- `TenantRepository.get_or_create_tenant`
  unfoldable pub get_or_create_tenant : String → Exec Store TenantRecord
  unfolding tenant_or_insert find_tenant
  get_or_create_tenant user =
      if str_eq user ""
      then raise value_error
      else (λ s. (lift (find_tenant user s) >>= tenant_or_insert user) s)

  pub insert_or_rotate : ℕ → EncryptedToken → Option CanvasCredential → Exec Store (Unit {0})
  unfolding flush
  insert_or_rotate tenant envelope none s = flush (record s {
    canvas_credentials = s.canvas_credentials ++ new_credential tenant envelope ∷ [];
  })
  insert_or_rotate tenant envelope (some row) s = (
    ok tt,
    record s {
      canvas_credentials =
          update_where (of_tenant tenant) (rotate envelope (database.now s.tick))
            s.canvas_credentials;
      tick = suc s.tick;
    },
  )

  -- `upsert_canvas_credential`
  unfoldable pub upsert_canvas_credential : ℕ → EncryptedToken → Exec Store (Unit {0})
  unfolding get_canvas_credential insert_or_rotate
  upsert_canvas_credential tenant envelope s =
      (lift (get_canvas_credential tenant s) >>= insert_or_rotate tenant envelope) s

  module _ (fernet : Fernet) where
    bind_stored : EncryptedToken → TokenCipher → Exec Store StoredCredential
    bind_stored envelope cipher s = (
      ok (record { envelope = envelope; cipher = cipher }),
      record s { ciphers = assign cipher.key_version cipher s.ciphers },
    )

    -- `TenantService.store_canvas_token` with a session
    unfoldable pub store_canvas_token : ℕ → String → TokenCipher → Exec Store StoredCredential
    unfolding upsert_canvas_credential bind_stored
    store_canvas_token tenant canvas_token cipher s =
        let envelope = encrypt fernet cipher s.tick canvas_token in
        (upsert_canvas_credential tenant envelope >> bind_stored envelope cipher)
          (record s { tick = suc s.tick })

abbrev decrypt_row : Fernet → (ℕ → Option TokenCipher) → Option CanvasCredential → Result String
decrypt_row fernet ciphers none = err tenant_not_found
decrypt_row fernet ciphers (some row) =
    decrypt_with fernet (envelope_of row) (ciphers row.key_version)

abbrev read_row :
    Fernet → (ℕ → Option TokenCipher) → Result (Option CanvasCredential) → Result String
read_row fernet ciphers (err e) = err e
read_row fernet ciphers (ok row) = decrypt_row fernet ciphers row

-- `TenantService.get_decrypted_canvas_token` with a session
unfoldable pub get_decrypted_canvas_token : Fernet → ℕ → Store → Result String
unfolding get_canvas_credential
get_decrypted_canvas_token fernet tenant s =
    read_row fernet s.ciphers (get_canvas_credential tenant s)
