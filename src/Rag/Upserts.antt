-- ===== src/Rag/Upserts.antt =====
-- The documents that `upsert` of app/rag/vector_store.py passes on.
use paquitobot_rag.Prelude.{
  String, ◌≡◌, refl, sym, ap, ◌∙◌, true, false, List, [], ◌∷◌, str_eq, str_eq_iff, arith, inl, inr,
  Bool-cases, All,
}
use mathlib.Core.Path.{subst}
use paquitobot_rag.Exec.{Result, ok, err, runtime_error, pure, ◌>>=◌, ◌>>◌}
use paquitobot_rag.Rag.{
  Document, VectorStore, Backend, knows, key_of, tagged, changes, add_documents, upsert,
}

module _ (backend : Backend) (tenant_id : String) where
  -- Every key of the documents is known.
  abbrev pub AllKnown : List Document → List (String × String) → Type 0
  AllKnown documents hashes = All (λ d. knows (key_of backend tenant_id d) hashes ≡ true) documents

  knows_self :
      (key : String × String) (hashes : List (String × String)) → knows key (key ∷ hashes) ≡ true
  unfolding knows
  knows_self (a, b) hashes =
      let first : str_eq a a ≡ true = (str_eq_iff a a).1 refl in
      let second : str_eq b b ≡ true = (str_eq_iff b b).1 refl in rw (first, second) refl

  knows_later :
      (key other : String × String) (hashes : List (String × String))
      → knows key hashes ≡ true
      → knows key (other ∷ hashes) ≡ true
  unfolding knows
  knows_later key other hashes h = ground (arith, h)

  -- A key that is known stays so.
  knows-changes :
      (documents : List Document) (hashes : List (String × String)) (key : String × String)
      → knows key hashes ≡ true
      → knows key (changes backend tenant_id documents hashes).1 ≡ true
  unfolding changes knows
  knows-changes [] hashes key h = h
  knows-changes (d ∷ ds) hashes key h =
      elim (Bool-cases (knows (key_of backend tenant_id d) hashes)) [
        | inl seen ↦ rw (seen) (knows-changes ds hashes key h)
        | inr new ↦ rw (new) (
            knows-changes ds (key_of backend tenant_id d ∷ hashes) key
              (knows_later key (key_of backend tenant_id d) hashes h))
      ]

  changes_seen :
      (d : Document) (ds : List Document) (hashes : List (String × String))
      → knows (key_of backend tenant_id d) hashes ≡ true
      → changes backend tenant_id (d ∷ ds) hashes ≡ changes backend tenant_id ds hashes
  unfolding changes
  changes_seen d ds hashes seen = rw (seen) refl

  changes_new :
      (d : Document) (ds : List Document) (hashes : List (String × String))
      → knows (key_of backend tenant_id d) hashes ≡ false
      → changes backend tenant_id (d ∷ ds) hashes ≡ (
          let (changed, hashes') =
            changes backend tenant_id ds (key_of backend tenant_id d ∷ hashes) in
          (tagged backend tenant_id d ∷ changed, hashes'))
  unfolding changes
  changes_new d ds hashes new = rw (new) refl

  changes-AllKnown :
      (documents : List Document) (hashes : List (String × String))
      → AllKnown documents (changes backend tenant_id documents hashes).1
  changes-AllKnown [] hashes = tt
  changes-AllKnown (d ∷ ds) hashes =
      let key = key_of backend tenant_id d in
      elim (Bool-cases (knows key hashes)) [
        | inl seen ↦
            subst (λ p. AllKnown (d ∷ ds) p.1) (sym (changes_seen d ds hashes seen))
              (knows-changes ds hashes key seen, changes-AllKnown ds hashes)
        | inr new ↦
            subst (λ p. AllKnown (d ∷ ds) p.1) (sym (changes_new d ds hashes new))
              (
                knows-changes ds (key ∷ hashes) key (knows_self key hashes),
                changes-AllKnown ds (key ∷ hashes),
              )
      ]

  -- Where every key is known, nothing has changed.
  changes_known :
      (documents : List Document) (hashes : List (String × String))
      → AllKnown documents hashes
      → changes backend tenant_id documents hashes ≡ ([], hashes)
  unfolding changes
  changes_known [] hashes h = refl
  changes_known (d ∷ ds) hashes (known, rest) = rw (known) (changes_known ds hashes rest)

  -- The call that passes the changed documents on.
  abbrev passed : List Document → VectorStore → Result (List Document) × VectorStore
  passed changed s = (add_documents backend changed >> pure changed) s

  passed_raised :
      (changed : List Document) (s : VectorStore)
      → (passed changed s).0 ≡ err runtime_error
      → (passed changed s).1 ≡ s
  unfolding add_documents ◌>>=◌ pure
  passed_raised [] s raised = cc
  passed_raised (x ∷ xs) s raised = elim (Bool-cases (backend.adds (x ∷ xs))) [
    | inl taken ↦ absurd (ground (arith, taken, raised))
    | inr refused ↦ rw (refused) refl
  ]

  upsert_stored :
      (documents : List Document) (s : VectorStore)
      → backend.has_store ≡ true
      → upsert backend documents tenant_id s ≡ (
          let (changed, hashes) = changes backend tenant_id documents s.hashes in
          passed changed (record s { hashes = hashes }))
  unfolding upsert
  upsert_stored documents s stored = rw (stored) refl

  -- Where the store raised as the documents were added, a second call with them returns nothing and
  -- passes nothing on: their hashes were recorded before the store took them.
  pub upsert_lost :
      (documents : List Document) (s : VectorStore)
      → backend.has_store ≡ true
      → (upsert backend documents tenant_id s).0 ≡ err runtime_error
      → let s' = (upsert backend documents tenant_id s).1 in
        (s'.added ≡ s.added) × (upsert backend documents tenant_id s' ≡ (ok [], s'))
  unfolding add_documents ◌>>=◌ pure
  upsert_lost documents s stored raised =
      let (changed, hashes) = changes backend tenant_id documents s.hashes in
      let s1 : VectorStore = record s { hashes = hashes } in
      let run = upsert_stored documents s stored in
      let same = ap (λ p. p.1) run ∙ passed_raised changed s1 (ap (λ p. p.0) (sym run) ∙ raised) in
      let nothing = changes_known documents hashes (changes-AllKnown documents s.hashes) in
      (
        ap (λ q. q.added) same,
        ap (upsert backend documents tenant_id) same
            ∙ upsert_stored documents s1 stored
            ∙ ap (λ p. passed p.0 (record s1 { hashes = p.1 })) nothing
            ∙ ap (λ q. (ok [], q)) (sym same),
      )
