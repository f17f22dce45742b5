-- ===== src/Repository/Keys.antt =====
-- The unique constraint on `(tenant_id, canvas_id)`: an upsert never gives a key a second row, so
-- `scalar_one_or_none` never raises.
use paquitobot_rag.Prelude.{
  ℕ, ◌≤◌, ◌≡◌, refl, String, true, false, Option, none, some, List, [], ◌∷◌, ◌++◌, ◌||◌, length,
  arith, Bool-cases, inl, inr,
}
use paquitobot_rag.Exec.{Result, ok, err, and_then, ◌>>=◌}
use paquitobot_rag.Value.{Fields, has_key}
use paquitobot_rag.Value.Int.{ℤ, ==ℤ_iff}
use paquitobot_rag.Query.{select, scalar_one_or_none}
use paquitobot_rag.Query.Laws.{
  length-select-update_where, select-insert_ne, select-insert_eq, scalar_one_or_none_total,
  scalar_one_or_none-none,
}
use paquitobot_rag.Models.{Model, model_eq, model_eq-eq, Row}
use paquitobot_rag.Session.{Server, Session, set_table, draw}
use paquitobot_rag.Repository.{
  is_row, find_row, writable, assign_row, new_row, update_row, insert_row, write_row, mark_deleted,
  upsert_by_canvas_id, soft_delete_if_inactive,
}

abbrev pub HasUniqueKeys : (Model → List Row) → Type 0
HasUniqueKeys tables = (m : Model) (t : ℕ) (c : ℤ) → length (select (is_row t c) (tables m)) ≤ 1

same_key :
    (t t' : ℕ) (c c' : ℤ) (filtered : Fields) (row : Row)
    → is_row t c row ≡ true
    → is_row t' c' (assign_row t c filtered row) ≡ is_row t' c' row
same_key t t' c c' filtered row h =
    ground (arith, ==ℤ_iff row.canvas_id c, ==ℤ_iff row.canvas_id c', ==ℤ_iff c c')

module _ (server : Server) (m : Model) (t : ℕ) (c : ℤ) where
  update_row-HasUniqueKeys :
      (filtered : Fields) (row : Row) (s : Session)
      → HasUniqueKeys s.db.tables
      → HasUniqueKeys (update_row server m t c filtered row s).1.db.tables
  unfolding update_row set_table
  update_row-HasUniqueKeys filtered row s h m' t' c' = ground (
    arith,
    h m' t' c',
    length-select-update_where (is_row t c) (is_row t' c') (assign_row t c filtered)
        (s.db.tables m') (λ x k. same_key t t' c c' filtered x k),
  )

  insert-HasUniqueKeys :
      (row : Row) (rows : List Row) (t' : ℕ) (c' : ℤ)
      → row.tenant_id ≡ t
      → row.canvas_id ≡ c
      → scalar_one_or_none (select (is_row t c) rows) ≡ ok none
      → length (select (is_row t' c') rows) ≤ 1
      → length (select (is_row t' c') (rows ++ row ∷ [])) ≤ 1
  insert-HasUniqueKeys row rows t' c' et ec fresh h = elim (Bool-cases (is_row t' c' row)) [
    | inl hit ↦ rw (select-insert_eq (is_row t' c') row rows hit) (rw (empty_key hit) (omega arith))
    | inr miss ↦ rw (select-insert_ne (is_row t' c') row rows miss) h
  ]
    where
      empty_key : is_row t' c' row ≡ true → select (is_row t' c') rows ≡ []
      empty_key hit =
          let same_t : t' ≡ t = ground arith in
          let same_c : c' ≡ c = ground (arith, ==ℤ_iff row.canvas_id c') in
          rw (same_t, same_c) (scalar_one_or_none-none (select (is_row t c) rows) fresh)

  insert_row-HasUniqueKeys :
      (filtered : Fields) (s : Session)
      → (find_row m t c s).0 ≡ ok none
      → HasUniqueKeys s.db.tables
      → HasUniqueKeys (insert_row server m t c filtered s).1.db.tables
  unfolding insert_row find_row set_table draw ◌>>=◌
  insert_row-HasUniqueKeys filtered s fresh h m' t' c' =
      elim (Bool-cases (has_key "tenant_id" filtered || has_key "canvas_id" filtered)) [
        | inl twice ↦ rw (twice, insert_row) (h m' t' c')
        | inr once ↦
            rw (once, insert_row)
              (elim (Bool-cases (model_eq m m')) [
                | inl same ↦ rw same (
                    insert-HasUniqueKeys (new_row server m t c filtered (server.uuid4 s.tick))
                      (s.db.tables m') t' c' refl refl (rw (← model_eq-eq m m' same) fresh)
                      (h m' t' c'))
                | inr other ↦ rw other (h m' t' c')
              ])
      ]

  write_row-HasUniqueKeys :
      (filtered : Fields) (found : Result (Option Row)) (s : Session)
      → (find_row m t c s).0 ≡ found
      → HasUniqueKeys s.db.tables
      → HasUniqueKeys (and_then (write_row server m t c filtered) found s).1.db.tables
  unfolding write_row
  write_row-HasUniqueKeys filtered (err x) s e h = h
  write_row-HasUniqueKeys filtered (ok none) s e h = insert_row-HasUniqueKeys filtered s e h
  write_row-HasUniqueKeys filtered (ok (some row)) s e h = update_row-HasUniqueKeys filtered row s h

  -- On tables with unique natural keys an upsert keeps them unique, whatever it is given and
  -- whether or not it raises.
  pub upsert-HasUniqueKeys :
      (payload : Fields) (s : Session)
      → HasUniqueKeys s.db.tables
      → HasUniqueKeys (upsert_by_canvas_id server m t c payload s).1.db.tables
  unfolding upsert_by_canvas_id find_row ◌>>=◌
  upsert-HasUniqueKeys payload s h =
      write_row-HasUniqueKeys (writable m payload)
        (scalar_one_or_none (select (is_row t c) (s.db.tables m))) s refl h

  write_row_total :
      (filtered : Fields) (found : Option Row) (s : Session)
      → (has_key "tenant_id" filtered || has_key "canvas_id" filtered) ≡ false
      → (row : Row) × ((write_row server m t c filtered found s).0 ≡ ok row)
  unfolding write_row insert_row update_row draw ◌>>=◌
  write_row_total filtered none s once =
      (new_row server m t c filtered (server.uuid4 s.tick), rw (once, insert_row))
  write_row_total filtered (some old) s once = (assign_row t c filtered old, refl)

  -- Where the keys are unique, an upsert of a payload that does not name the key's own columns
  -- returns a row.
  pub upsert_total :
      (payload : Fields) (s : Session)
      → HasUniqueKeys s.db.tables
      → (has_key "tenant_id" (writable m payload) || has_key "canvas_id" (writable m payload))
        ≡ false
      → (row : Row) × ((upsert_by_canvas_id server m t c payload s).0 ≡ ok row)
  unfolding upsert_by_canvas_id find_row ◌>>=◌
  upsert_total payload s h once =
      let (found, e) = scalar_one_or_none_total (select (is_row t c) (s.db.tables m)) (h m t c) in
      let (row, made) = write_row_total (writable m payload) found s once in (row, rw e made)

-- A soft deletion keeps them too.
pub soft_delete-HasUniqueKeys :
    (lower : String → String) (server : Server) (m : Model) (t : ℕ) (c : ℤ) (state : Option String)
    (s : Session)
    → HasUniqueKeys s.db.tables
    → HasUniqueKeys (soft_delete_if_inactive lower server m t c state s).1.db.tables
unfolding soft_delete_if_inactive find_row ◌>>=◌ set_table draw
soft_delete-HasUniqueKeys lower server m t c state s h m' t' c' = ground (
  arith,
  h m' t' c',
  length-select-update_where (is_row t c) (is_row t' c') (mark_deleted (server.now s.tick))
      (s.db.tables m') (λ x k. refl),
)
