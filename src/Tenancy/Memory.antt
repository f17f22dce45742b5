-- ===== src/Tenancy/Memory.antt =====
-- The in-memory mode of app/services/tenant_service.py meets the contract: its dicts show a
-- directory, and every tenant that a user has is known by its id.
use paquitobot_rag.Prelude.{
  ℕ, String, ◌≡◌, refl, sym, ap, ◌∙◌, false, Option, none, some, str_eq, str_eq_iff, arith, inl,
  inr, Option-cases,
}
use paquitobot_rag.Exec.{ok, pure}
use paquitobot_rag.Tenancy.{
  Fernet, EncryptedToken, encrypt, TokenCipher, TenantRecord, StoredCredential, Service, assign,
  found_or_added, get_or_create_tenant, store_canvas_token, get_decrypted_canvas_token,
}
use paquitobot_rag.Tenancy.Directory.{
  Directory, resolved, resolve, keep_token, token_of, assign_text_known, assign_known,
  assign_text_other, assign_text-pointwise, assign-pointwise,
}
use paquitobot_rag.Tenancy.Contract.{TenantStore}

-- What the service shows of its dicts.
abbrev pub envelope_in : Option StoredCredential → Option EncryptedToken
envelope_in none = none
envelope_in (some stored) = some stored.envelope

pub record IsShownBy (d : Directory) (s : Service) : Type 0 where
  pub tenants : (user : String) → s.tenants_by_backend_user user ≡ d.tenant_of user
  pub credentials : (tenant : ℕ) → envelope_in (s.credentials tenant) ≡ d.credential_of tenant
  pub ciphers : (version : ℕ) → s.ciphers version ≡ d.cipher_of version
  pub known :
      (user : String) (r : TenantRecord)
      → s.tenants_by_backend_user user ≡ some r
      → (found : TenantRecord) × (s.tenants_by_id r.id ≡ some found)

abbrev pub IsKnown : ℕ → Service → Type 0
IsKnown tenant s = (found : TenantRecord) × (s.tenants_by_id tenant ≡ some found)

envelope_in-assign :
    (k : ℕ) (v : StoredCredential) (f : ℕ → Option StoredCredential) (g : ℕ → Option EncryptedToken)
    (j : ℕ)
    → envelope_in (f j) ≡ g j
    → envelope_in (assign k v f j) ≡ assign k v.envelope g j
envelope_in-assign k v f g j h = ground (arith, h)

module _ (uuid4 : ℕ → ℕ) where
  IsKnown-found_or_added :
      (user u : String) (r : TenantRecord) (s : Service)
      → (found_or_added uuid4 user none s).1.tenants_by_backend_user u ≡ some r
      → ((w : String) (q : TenantRecord) → s.tenants_by_backend_user w ≡ some q → IsKnown q.id s)
      → IsKnown r.id (found_or_added uuid4 user none s).1
  unfolding found_or_added
  IsKnown-found_or_added user u r s h known =
      let made : TenantRecord = record { id = uuid4 s.tick; backend_user_id = user } in
      elim (assign_text_other user made s.tenants_by_backend_user u r h) [
        | inl new ↦ (made, ground (arith, ap TenantRecord.id new))
        | inr old ↦ assign_known (uuid4 s.tick) made s.tenants_by_id r.id (known u r old)
      ]

  pub get_or_create_tenant-IsShownBy :
      (user : String) (d : Directory) (s : Service)
      → str_eq user "" ≡ false
      → IsShownBy d s
      → ((get_or_create_tenant uuid4 user s).0
          ≡ ok (resolved user (uuid4 s.tick) (d.tenant_of user)))
        × IsShownBy (resolve user (uuid4 s.tick) d) (get_or_create_tenant uuid4 user s).1
  unfolding get_or_create_tenant pure
  get_or_create_tenant-IsShownBy user d s named shown =
      elim (Option-cases (s.tenants_by_backend_user user)) [
        | inl new ↦
            let fresh = sym (shown.tenants user) ∙ new in
            rw (named, new, fresh)
              (
                refl,
                record {
                  tenants = λ u.
                      assign_text-pointwise user
                        (record { id = uuid4 s.tick; backend_user_id = user })
                        s.tenants_by_backend_user d.tenant_of u (shown.tenants u);
                  credentials = shown.credentials;
                  ciphers = shown.ciphers;
                  known = λ u r h. IsKnown-found_or_added user u r s h shown.known;
                },
              )
        | inr (existing, found) ↦
            let there = sym (shown.tenants user) ∙ found in
            rw (named, found, there)
              (
                refl,
                record {
                  tenants =
                      λ u. shown.tenants u ∙ assign_text_known user existing d.tenant_of u there;
                  credentials = shown.credentials;
                  ciphers = shown.ciphers;
                  known = shown.known;
                },
              )
      ]

module _ (fernet : Fernet) where
  pub store_canvas_token-IsShownBy :
      (tenant : ℕ) (token : String) (cipher : TokenCipher) (d : Directory) (s : Service)
      → IsKnown tenant s
      → IsShownBy d s
      → ((stored : StoredCredential) × ((store_canvas_token fernet tenant token cipher s).0
            ≡ ok stored))
        × IsShownBy
            (keep_token tenant (encrypt fernet cipher s.tick token) cipher d)
            (store_canvas_token fernet tenant token cipher s).1
  unfolding store_canvas_token
  store_canvas_token-IsShownBy tenant token cipher d s (found, h) shown =
      let stored : StoredCredential = record {
        envelope = encrypt fernet cipher s.tick token;
        cipher = cipher;
      } in
      rw (h) (
        (stored, refl),
        record {
          tenants = shown.tenants;
          credentials = λ j.
              envelope_in-assign tenant stored s.credentials d.credential_of j
                (shown.credentials j);
          ciphers = λ j.
              assign-pointwise cipher.key_version cipher s.ciphers d.cipher_of j (shown.ciphers j);
          known = shown.known;
        },
      )

  pub get_decrypted_canvas_token-IsShownBy :
      (tenant : ℕ) (d : Directory) (s : Service)
      → IsShownBy d s
      → get_decrypted_canvas_token fernet tenant s ≡ token_of fernet tenant d
  unfolding get_decrypted_canvas_token
  get_decrypted_canvas_token-IsShownBy tenant d s shown =
      elim (Option-cases (s.credentials tenant)) [
        | inl missing ↦ rw (sym (shown.credentials tenant), missing) refl
        | inr (stored, h) ↦
            rw (sym (shown.credentials tenant), h)
              (rw (shown.ciphers stored.envelope.key_version) refl)
      ]

-- The tenant that a user is given can be given a token.
pub resolved-IsKnown :
    (user : String) (id : ℕ) (d : Directory) (s : Service)
    → IsShownBy (resolve user id d) s
    → IsKnown (resolved user id (d.tenant_of user)).id s
resolved-IsKnown user id d s shown =
    shown.known user (resolved user id (d.tenant_of user))
      (shown.tenants user ∙ rw ((str_eq_iff user user).1 refl) refl)

abbrev pub memory : (fernet : Fernet) → (ℕ → ℕ) → TenantStore fernet Service
memory fernet uuid4 = record {
  get_or_create = get_or_create_tenant uuid4;
  store = store_canvas_token fernet;
  read = get_decrypted_canvas_token fernet;
  new_id = λ s. uuid4 s.tick;
  nonce = λ s. s.tick;
  IsView = IsShownBy;
  CanAdd = λ _ _. Unit {0};
  CanKeep = λ tenant _ _ s. IsKnown tenant s;
  resolves = λ user d s named _. get_or_create_tenant-IsShownBy uuid4 user d s named;
  keeps = store_canvas_token-IsShownBy fernet;
  reads = get_decrypted_canvas_token-IsShownBy fernet;
}
