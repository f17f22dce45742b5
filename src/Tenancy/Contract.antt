-- ===== src/Tenancy/Contract.antt =====
-- The interface of app/services/tenant_service.py that the controllers and the dependencies use:
-- its operations, and the directory that a state shows, which the operations change as stated.
use paquitobot_rag.Prelude.{ℕ, String, ◌≡◌, false, str_eq}
use paquitobot_rag.Exec.{Result, ok, Exec}
use paquitobot_rag.Tenancy.{Fernet, encrypt, TokenCipher, TenantRecord, StoredCredential}
use paquitobot_rag.Tenancy.Directory.{Directory, resolved, resolve, keep_token, token_of}

pub record TenantStore (fernet : Fernet) (S : Type 0) : Type 1 where
  pub get_or_create : String → Exec S TenantRecord
  pub store : ℕ → String → TokenCipher → Exec S StoredCredential
  pub read : ℕ → S → Result String
  -- the id that `uuid4` gives next, and the nonce that Fernet draws next
  pub new_id : S → ℕ
  pub nonce : S → ℕ
  pub IsView : Directory → S → Type 0
  -- the conditions under which a row can be written
  pub CanAdd : String → S → Type 0
  pub CanKeep : ℕ → String → TokenCipher → S → Type 0
  pub resolves :
      (user : String) (d : Directory) (s : S)
      → str_eq user "" ≡ false
      → CanAdd user s
      → IsView d s
      → ((get_or_create user s).0 ≡ ok (resolved user (new_id s) (d.tenant_of user)))
        × IsView (resolve user (new_id s) d) (get_or_create user s).1
  pub keeps :
      (tenant : ℕ) (token : String) (cipher : TokenCipher) (d : Directory) (s : S)
      → CanKeep tenant token cipher s
      → IsView d s
      → ((stored : StoredCredential) × ((store tenant token cipher s).0 ≡ ok stored))
        × IsView
            (keep_token tenant (encrypt fernet cipher (nonce s) token) cipher d)
            (store tenant token cipher s).1
  pub reads :
      (tenant : ℕ) (d : Directory) (s : S) → IsView d s → read tenant s ≡ token_of fernet tenant d
