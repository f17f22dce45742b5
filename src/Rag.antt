-- ===== src/Rag.antt =====
-- app/rag/vector_store.py, app/rag/router.py and app/services/rag_service.py. The store, the embedder,
-- the language model, the SQL executor and the regular expressions are parameters; the state is what
-- the vector store remembers, and what has been asked of the store and the executor, last first.
pub mod Answer
pub mod Hybrid
pub mod Post
pub mod Upserts
pub mod Examples
use paquitobot_rag.Prelude.{
  ℕ, String, Bool, true, false, Option, none, some, List, [], ◌∷◌, ◌++◌, ◌&&◌, ◌==◌, not, str_eq,
  if◌then◌else◌,
}
use paquitobot_rag.Exec.{
  Exn, Result, ok, err, runtime_error, value_error, os_error, Exec, pure, raise, lift, ◌>>=◌, ◌>>◌,
}

-- A dict of strings: a value is put at the place of its key, or at the end.
unfoldable pub put : String → String → List (String × String) → List (String × String)
put key value [] = (key, value) ∷ []
put key value ((k, v) ∷ rest) =
    let rest' = put key value rest in if str_eq k key then (key, value) ∷ rest else (k, v) ∷ rest'

unfoldable pub lookup : String → List (String × String) → Option String
lookup key [] = none
lookup key ((k, v) ∷ rest) = let found = lookup key rest in if str_eq k key then some v else found

-- LangChain's `Document`
pub record Document : Type 0 where
  pub page_content : String
  pub metadata : List (String × String)

-- A call of the store's `similarity_search`
pub record Search : Type 0 where
  pub query : String
  pub k : ℕ
  pub filter : List (String × String)

pub record VectorStore : Type 0 where
  pub last_health : Bool
  -- the keys of `_hashes`: a tenant and a digest
  pub hashes : List (String × String)
  -- what the store and the executor were asked, and what the store was given
  pub searched : List Search
  pub executed : List (String × String)
  pub added : List Document

pub record Backend : Type 0 where
  pub has_store : Bool
  pub has_embedder : Bool
  -- `bool(callable(probe) and probe("health probe"))`
  pub probe : Result Bool
  pub sha256 : String → String
  -- `similarity_search` of the store
  pub found : Search → Result (List Document)
  -- whether `add_documents` returns
  pub adds : List Document → Bool

abbrev same_key : String × String → String × String → Bool
same_key (a, b) (c, d) = str_eq a c && str_eq b d

unfoldable pub knows : String × String → List (String × String) → Bool
knows key [] = false
knows key (x ∷ xs) = let rest = knows key xs in if same_key x key then true else rest

-- `except (RuntimeError, ValueError, OSError)`
abbrev pub is_probe_error : Exn → Bool
is_probe_error runtime_error = true
is_probe_error value_error = true
is_probe_error os_error = true
is_probe_error e = false

module _ (backend : Backend) where
  abbrev set_health : Bool → VectorStore → Result Bool × VectorStore
  set_health health s = (ok health, record s { last_health = health })

  abbrev pub probed : Result Bool → VectorStore → Result Bool × VectorStore
  probed (ok health) s = set_health health s
  probed (err e) s = if is_probe_error e then set_health false s else (err e, s)

  -- `provider_health`: any other exception of the embedder goes on, and nothing is remembered.
  unfoldable pub provider_health : Exec VectorStore Bool
  provider_health s = if backend.has_embedder then probed backend.probe s else set_health false s

  -- `if not self._last_health and self._embedder is not None: self.provider_health()`
  pub probe_again : Exec VectorStore (Unit {0})
  unfolding provider_health
  probe_again s =
      if not s.last_health && backend.has_embedder
      then (provider_health >> pure tt) s
      else (ok tt, s)

  pub search_store : Search → Exec VectorStore (List Document)
  search_store search s =
      if not s.last_health
      then (ok [], s)
      else if not backend.has_store
      then (ok [], s)
      else (backend.found search, record s { searched = search ∷ s.searched })

  -- `similarity_search`, with the filter of the caller
  unfoldable pub similarity_search :
      String → String → ℕ → List (String × String) → Exec VectorStore (List Document)
  unfolding probe_again search_store
  similarity_search query tenant_id k filter =
      probe_again
      >> search_store (record { query = query; k = k; filter = put "tenant_id" tenant_id filter })

  abbrev pub key_of : String → Document → String × String
  key_of tenant_id document = (tenant_id, backend.sha256 document.page_content)

  abbrev pub tagged : String → Document → Document
  tagged tenant_id document = record document {
    metadata =
        put "content_hash" (backend.sha256 document.page_content)
          (put "tenant_id" tenant_id document.metadata);
  }

  -- The loop: what has changed, and the keys afterwards.
  unfoldable pub changes :
      String → List Document → List (String × String) → List Document × List (String × String)
  changes tenant_id [] hashes = ([], hashes)
  changes tenant_id (document ∷ documents) hashes =
      let key = key_of tenant_id document in
      let (changed, hashes') = changes tenant_id documents (key ∷ hashes) in
      let skipped = changes tenant_id documents hashes in
      if knows key hashes then skipped else (tagged tenant_id document ∷ changed, hashes')

  -- `if changed: self._store.add_documents(changed)`
  pub add_documents : List Document → Exec VectorStore (Unit {0})
  add_documents [] s = (ok tt, s)
  add_documents (x ∷ xs) s =
      if backend.adds (x ∷ xs)
      then (ok tt, record s { added = s.added ++ x ∷ xs })
      else (err runtime_error, s)

  -- `upsert`
  unfoldable pub upsert : List Document → String → Exec VectorStore (List Document)
  unfolding add_documents
  upsert documents tenant_id s =
      let (changed, hashes) = changes tenant_id documents s.hashes in
      if not backend.has_store
      then (ok [], s)
      else (add_documents changed >> pure changed) (record s { hashes = hashes })
