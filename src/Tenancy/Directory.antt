-- ===== src/Tenancy/Directory.antt =====
-- What the tenant service promises, in either mode: a directory of tenants by user, of encrypted
-- tokens by tenant, and of ciphers by key version.
use paquitobot_rag.Prelude.{
  ℕ, String, ◌≡◌, ◌⊎◌, inl, inr, Bool-cases, sym, ap, ◌∙◌, Option, none, some, ◌==◌, str_eq,
  str_eq_iff, arith,
}
use paquitobot_rag.Exec.{Result, ok, err, tenant_not_found}
use paquitobot_rag.Tenancy.{
  Fernet, EncryptedToken, TokenCipher, encrypt, decrypt, decrypt_with, TenantRecord, assign,
  assign_text,
}

pub record Directory : Type 0 where
  pub tenant_of : String → Option TenantRecord
  pub credential_of : ℕ → Option EncryptedToken
  pub cipher_of : ℕ → Option TokenCipher

-- A user's tenant, or a new one with the given id.
abbrev pub resolved : String → ℕ → Option TenantRecord → TenantRecord
resolved user id (some existing) = existing
resolved user id none = record { id = id; backend_user_id = user }

abbrev pub resolve : String → ℕ → Directory → Directory
resolve user id d = record d {
  tenant_of = assign_text user (resolved user id (d.tenant_of user)) d.tenant_of;
}

abbrev pub keep_token : ℕ → EncryptedToken → TokenCipher → Directory → Directory
keep_token tenant envelope cipher d = record d {
  credential_of = assign tenant envelope d.credential_of;
  cipher_of = assign cipher.key_version cipher d.cipher_of;
}

abbrev decrypt_envelope : Fernet → (ℕ → Option TokenCipher) → Option EncryptedToken → Result String
decrypt_envelope fernet cipher_of none = err tenant_not_found
decrypt_envelope fernet cipher_of (some envelope) =
    decrypt_with fernet envelope (cipher_of envelope.key_version)

abbrev pub token_of : Fernet → ℕ → Directory → Result String
token_of fernet tenant d = decrypt_envelope fernet d.cipher_of (d.credential_of tenant)

-- Fernet decrypts what it has encrypted under the same key.
abbrev pub IsInverse : Fernet → Type 0
IsInverse fernet =
    (key : String) (nonce : ℕ) (plaintext : String)
    → fernet.decrypt key (fernet.encrypt key nonce plaintext) ≡ some plaintext

decrypt-encrypt :
    (fernet : Fernet) (cipher : TokenCipher) (nonce : ℕ) (token : String)
    → IsInverse fernet
    → decrypt fernet cipher (encrypt fernet cipher nonce token) ≡ ok token
unfolding decrypt encrypt
decrypt-encrypt fernet cipher nonce token law = ground (arith, law cipher.key nonce token)

-- A token that was kept reads back.
pub token_of-keep_token :
    (fernet : Fernet) (tenant nonce : ℕ) (token : String) (cipher : TokenCipher) (d : Directory)
    → IsInverse fernet
    → token_of fernet tenant (keep_token tenant (encrypt fernet cipher nonce token) cipher d)
      ≡ ok token
unfolding decrypt_with encrypt
token_of-keep_token fernet tenant nonce token cipher d law =
    ground (arith, decrypt-encrypt fernet cipher nonce token law)

-- The dict after an assignment.
module _ {V : Type 0} where
  pub assign_text_known :
      (user : String) (v : V) (f : String → Option V) (u : String)
      → f user ≡ some v
      → f u ≡ assign_text user v f u
  assign_text_known user v f u h = elim (Bool-cases (str_eq user u)) [
    | inl same ↦ rw (same) (sym (ap f ((str_eq_iff user u).0 same)) ∙ h)
    | inr other ↦ ground arith
  ]

  pub assign_known :
      (k : ℕ) (v : V) (f : ℕ → Option V) (j : ℕ)
      → (w : V) × (f j ≡ some w)
      → (w : V) × (assign k v f j ≡ some w)
  assign_known k v f j (w, h) = elim (Bool-cases (k == j)) [
    | inl same ↦ (v, ground arith)
    | inr other ↦ (w, ground arith)
  ]

  pub assign_text_other :
      (user : String) (v : V) (f : String → Option V) (u : String) (w : V)
      → assign_text user v f u ≡ some w
      → (w ≡ v) ⊎ (f u ≡ some w)
  assign_text_other user v f u w h = elim (Bool-cases (str_eq user u)) [
    | inl same ↦ inl (ground arith)
    | inr other ↦ inr (ground arith)
  ]

  pub assign_text-pointwise :
      (user : String) (v : V) (f g : String → Option V) (u : String)
      → f u ≡ g u
      → assign_text user v f u ≡ assign_text user v g u
  assign_text-pointwise user v f g u h = ground (arith, h)

  pub assign-pointwise :
      (k : ℕ) (v : V) (f g : ℕ → Option V) (j : ℕ) → f j ≡ g j → assign k v f j ≡ assign k v g j
  assign-pointwise k v f g j h = ground (arith, h)
