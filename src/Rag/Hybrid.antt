-- ===== src/Rag/Hybrid.antt =====
-- `retrieve_hybrid` of app/rag/hybrid.py, and the prompts of app/rag/prompts.py.
use Prim.Native.String.{◌++◌ as append}
use paquitobot_rag.Prelude.{ℕ, String, Option, none, some, List, [], ◌∷◌, str_eq, if◌then◌else◌}
use paquitobot_rag.Exec.{Result, Exec, lift, ◌>>=◌}
use paquitobot_rag.Exec.Keeps.{Keeps, keeps_rules}
use paquitobot_rag.Rag.{Document, VectorStore, Backend, lookup, similarity_search}
use paquitobot_rag.Rag.Answer.Own.{IsOwn, similarity_search-Keeps}

abbrev with_id : Option String → List String → List String
with_id none ids = ids
with_id (some id) ids = id ∷ ids

-- The ids of the documents that have one
unfoldable pub ids_of : List Document → List String
unfolding lookup
ids_of [] = []
ids_of (document ∷ documents) = with_id (lookup "id" document.metadata) (ids_of documents)

-- `retrieve_hybrid`
unfoldable pub retrieve_hybrid :
    {R : Type 0}
    → Backend
    → (List String → String → Result R)
    → String
    → String
    → ℕ
    → Exec VectorStore R
unfolding ids_of
retrieve_hybrid backend sql_callback question tenant_id k =
    similarity_search backend question tenant_id k [] >>= λ documents.
    lift (sql_callback (ids_of documents) tenant_id)

-- What was asked was asked for the tenant, before and after.
pub retrieve_hybrid-Keeps :
    {R : Type 0} (backend : Backend) (sql_callback : List String → String → Result R)
    (question tenant_id : String) (k : ℕ)
    → Keeps (IsOwn tenant_id) (retrieve_hybrid backend sql_callback question tenant_id k)
unfolding retrieve_hybrid
retrieve_hybrid-Keeps backend sql_callback question tenant_id k =
    search (keeps_rules, similarity_search-Keeps)

-- `_prompt`
unfoldable pub prompt : String → String → String
prompt kind lang = append "Answer in " (
    append (if str_eq lang "es" then "Spanish" else "English")
      (append ". Use only supplied evidence. Do not fabricate. Task: " (append kind ".")))

unfoldable pub sql_prompt : String → String
unfolding prompt
sql_prompt lang = prompt "relational answer" lang

unfoldable pub vector_prompt : String → String
unfolding prompt
vector_prompt lang = prompt "semantic answer" lang

unfoldable pub hybrid_prompt : String → String
unfolding prompt
hybrid_prompt lang = prompt "hybrid answer" lang

unfoldable pub refusal_prompt : String → String
unfolding prompt
refusal_prompt lang = prompt "bounded refusal" lang
