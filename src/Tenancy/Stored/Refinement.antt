-- ===== src/Tenancy/Stored/Refinement.antt =====
-- The session-backed mode of app/services/tenant_service.py meets the contract: the rows that its
-- queries find show a directory.
use paquitobot_rag.Prelude.{
  ℕ, suc, String, ◌≡◌, refl, sym, ap, ◌∙◌, true, false, Option, none, [], ◌∷◌, ◌++◌, str_eq,
  str_eq_iff, inl, inr, Option-cases,
}
use paquitobot_rag.Exec.{ok, pure, lift, ◌>>=◌}
use paquitobot_rag.Tenancy.{Fernet, encrypt, TokenCipher, TenantRecord, StoredCredential}
use paquitobot_rag.Tenancy.Directory.{
  Directory, resolved, resolve, keep_token, token_of, assign_text_known, assign-pointwise,
}
use paquitobot_rag.Tenancy.Contract.{TenantStore}
use paquitobot_rag.Tenancy.Stored.{
  CanvasCredential, Store, Database, find_tenant, get_canvas_credential, new_credential,
  tenant_or_insert, get_or_create_tenant, insert_or_rotate, upsert_canvas_credential,
  store_canvas_token, get_decrypted_canvas_token,
}
use paquitobot_rag.Tenancy.Stored.Rows.{
  envelope_in, find-insert, HasEnvelope-insert, HasEnvelope-rotate,
}

pub record IsFoundIn (d : Directory) (s : Store) : Type 0 where
  pub tenants : (user : String) → find_tenant user s ≡ ok (d.tenant_of user)
  pub credentials :
      (tenant : ℕ)
      → (row : Option CanvasCredential) × (get_canvas_credential tenant s ≡ ok row)
        × (envelope_in row ≡ d.credential_of tenant)
  pub ciphers : (version : ℕ) → s.ciphers version ≡ d.cipher_of version

module _ (database : Database) where
  -- The database takes the row that is new.
  abbrev pub CanAdd : String → Store → Type 0
  CanAdd user s =
      find_tenant user s ≡ ok none
      → database.accepts (record s {
        tenants = s.tenants ++ record { id = database.uuid4 s.tick; backend_user_id = user } ∷ [];
        tick = suc s.tick;
      })
        ≡ true

  pub get_or_create_tenant-IsFoundIn :
      (user : String) (d : Directory) (s : Store)
      → str_eq user "" ≡ false
      → CanAdd user s
      → IsFoundIn d s
      → ((get_or_create_tenant database user s).0
          ≡ ok (resolved user (database.uuid4 s.tick) (d.tenant_of user)))
        × IsFoundIn
            (resolve user (database.uuid4 s.tick) d)
            (get_or_create_tenant database user s).1
  unfolding get_or_create_tenant find_tenant ◌>>=◌ tenant_or_insert lift pure get_canvas_credential
  get_or_create_tenant-IsFoundIn user d s named can found = elim (Option-cases (d.tenant_of user)) [
    | inl new ↦
        let made : TenantRecord = record { id = database.uuid4 s.tick; backend_user_id = user } in
        rw (named, found.tenants user, new, can (found.tenants user ∙ ap ok new))
          (
            refl,
            record {
              tenants = λ u.
                  find-insert s.tenants user made d.tenant_of u ((str_eq_iff user user).1 refl)
                    found.tenants new;
              credentials = found.credentials;
              ciphers = found.ciphers;
            },
          )
    | inr (existing, there) ↦
        rw (named, found.tenants user, there)
          (
            refl,
            record {
              tenants = λ u.
                  found.tenants u ∙ ap ok (assign_text_known user existing d.tenant_of u there);
              credentials = found.credentials;
              ciphers = found.ciphers;
            },
          )
  ]

  module _ (fernet : Fernet) where
    abbrev pub CanKeep : ℕ → String → TokenCipher → Store → Type 0
    CanKeep tenant token cipher s =
        get_canvas_credential tenant s ≡ ok none
        → database.accepts (record s {
          canvas_credentials =
              s.canvas_credentials
              ++ new_credential tenant (encrypt fernet cipher s.tick token) ∷ [];
          tick = suc s.tick;
        })
          ≡ true

    pub store_canvas_token-IsFoundIn :
        (tenant : ℕ) (token : String) (cipher : TokenCipher) (d : Directory) (s : Store)
        → CanKeep tenant token cipher s
        → IsFoundIn d s
        → ((stored : StoredCredential) × ((store_canvas_token database fernet tenant token cipher
                s).0
              ≡ ok stored))
          × IsFoundIn
              (keep_token tenant (encrypt fernet cipher s.tick token) cipher d)
              (store_canvas_token database fernet tenant token cipher s).1
    unfolding store_canvas_token ◌>>=◌ get_canvas_credential insert_or_rotate lift
        upsert_canvas_credential find_tenant
    store_canvas_token-IsFoundIn tenant token cipher d s can found =
        let envelope = encrypt fernet cipher s.tick token in
        let (row, there, _) = found.credentials tenant in
        elim (Option-cases row) [
          | inl missing ↦
              rw (there, missing, can (there ∙ ap ok missing))
                (
                  (record { envelope = envelope; cipher = cipher }, refl),
                  record {
                    tenants = found.tenants;
                    credentials = λ j.
                        HasEnvelope-insert s.canvas_credentials tenant envelope d.credential_of j
                          (found.credentials j) (there ∙ ap ok missing);
                    ciphers = λ j.
                        assign-pointwise cipher.key_version cipher s.ciphers d.cipher_of j
                          (found.ciphers j);
                  },
                )
          | inr (r, e) ↦
              rw (there, e)
                (
                  (record { envelope = envelope; cipher = cipher }, refl),
                  record {
                    tenants = found.tenants;
                    credentials = λ j.
                        HasEnvelope-rotate s.canvas_credentials tenant envelope d.credential_of j
                          (found.credentials j) (database.now (suc s.tick)) r (there ∙ ap ok e);
                    ciphers = λ j.
                        assign-pointwise cipher.key_version cipher s.ciphers d.cipher_of j
                          (found.ciphers j);
                  },
                )
        ]

pub get_decrypted_canvas_token-IsFoundIn :
    (fernet : Fernet) (tenant : ℕ) (d : Directory) (s : Store)
    → IsFoundIn d s
    → get_decrypted_canvas_token fernet tenant s ≡ token_of fernet tenant d
unfolding get_decrypted_canvas_token
get_decrypted_canvas_token-IsFoundIn fernet tenant d s found =
    let (row, there, shown) = found.credentials tenant in
    elim (Option-cases row) [
      | inl missing ↦ rw (there, sym shown, missing) refl
      | inr (r, e) ↦ rw (there, sym shown, e, found.ciphers r.key_version) refl
    ]

abbrev pub stored : (fernet : Fernet) → Database → TenantStore fernet Store
stored fernet database = record {
  get_or_create = get_or_create_tenant database;
  store = store_canvas_token database fernet;
  read = get_decrypted_canvas_token fernet;
  new_id = λ s. database.uuid4 s.tick;
  nonce = λ s. s.tick;
  IsView = IsFoundIn;
  CanAdd = CanAdd database;
  CanKeep = CanKeep database fernet;
  resolves = get_or_create_tenant-IsFoundIn database;
  keeps = store_canvas_token-IsFoundIn database fernet;
  reads = get_decrypted_canvas_token-IsFoundIn fernet;
}
