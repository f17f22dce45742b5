-- ===== src/Repository/Laws.antt =====
-- What `upsert_by_canvas_id` does to the row of its key.
use paquitobot_rag.Prelude.{
  ℕ, String, ◌≡◌, refl, Bool, true, Option, none, some, not, ◌&&◌, ◌||◌, arith, str_eq, str_eq_iff,
  ◌==◌, ◌∙◌, Bool-cases, inl, inr, if◌then◌else◌,
}
use paquitobot_rag.Exec.{Result, ok, err, type_error, and_then, ◌>>=◌}
use paquitobot_rag.Value.{Fields, end, field, get, has_key}
use paquitobot_rag.Value.Laws.{get-put}
use paquitobot_rag.Value.Int.{ℤ, ◌==ℤ◌, ==ℤ_iff}
use paquitobot_rag.Query.{select, scalar_one_or_none}
use paquitobot_rag.Query.Laws.{scalar-update_where, scalar-insert}
use paquitobot_rag.Models.{Model, model_eq_refl, Row}
use paquitobot_rag.Session.{Server, Session, set_table, draw}
use paquitobot_rag.Repository.{
  is_row, find_row, writable, set_attributes, assign_row, new_row, update_row, insert_row,
  write_row, upsert_by_canvas_id,
}

abbrev pub is_key : String → Bool
is_key k = str_eq k "tenant_id" || str_eq k "canvas_id"

-- Reading a column after the assignments.
pub get-set_attributes :
    (j : String) (d attrs : Fields)
    → get j (set_attributes d attrs)
      ≡ (if has_key j d && not (is_key j) then get j d else get j attrs)
unfolding get has_key set_attributes
get-set_attributes j end attrs = refl
get-set_attributes j (field k v rest) attrs = ground (
  arith,
  str_eq_iff k j,
  get-put k j v (set_attributes rest attrs),
  get-set_attributes j rest attrs,
)

is_row_refl : (t : ℕ) (c : ℤ) → (t == t && c ==ℤ c) ≡ true
is_row_refl t c = ground (arith, ==ℤ_iff c c)

module _ (server : Server) (m : Model) (t : ℕ) (c : ℤ) where
  find_row-update_row :
      (filtered : Fields) (row : Row) (s : Session)
      → (find_row m t c s).0 ≡ ok (some row)
      → (find_row m t c (update_row server m t c filtered row s).1).0
        ≡ ok (some (assign_row t c filtered row))
  unfolding find_row update_row set_table
  find_row-update_row filtered row s h = rw (model_eq_refl m) (
      scalar-update_where (is_row t c) (assign_row t c filtered) row (s.db.tables m)
        (λ y _. is_row_refl t c) h)

  find_row-insert_row :
      (filtered : Fields) (s : Session) {row : Row}
      → (find_row m t c s).0 ≡ ok none
      → (insert_row server m t c filtered s).0 ≡ ok row
      → (find_row m t c (insert_row server m t c filtered s).1).0 ≡ ok (some row)
  unfolding find_row insert_row set_table ◌>>=◌ draw
  find_row-insert_row filtered s {row} h e =
      elim (Bool-cases (has_key "tenant_id" filtered || has_key "canvas_id" filtered)) [
        | inl twice ↦ let e' : err type_error ≡ ok row = rw (twice, insert_row) at e in cc
        | inr once ↦
            let made : ok (new_row server m t c filtered (server.uuid4 s.tick)) ≡ ok row =
              rw (once, insert_row) at e in
            rw (once, insert_row, model_eq_refl m)
              (scalar-insert (is_row t c) (new_row server m t c filtered (server.uuid4 s.tick))
                  (s.db.tables m) (is_row_refl t c) h
                ∙ cc)
      ]

  find_row-write_row :
      (filtered : Fields) (found : Result (Option Row)) (s : Session) {row : Row}
      → (find_row m t c s).0 ≡ found
      → (and_then (write_row server m t c filtered) found s).0 ≡ ok row
      → (find_row m t c (and_then (write_row server m t c filtered) found s).1).0 ≡ ok (some row)
  unfolding write_row
  find_row-write_row filtered (err x) s h e = cc
  find_row-write_row filtered (ok none) s h e = find_row-insert_row filtered s h e
  find_row-write_row filtered (ok (some old)) s h e = find_row-update_row filtered old s h ∙ cc

  -- Once an upsert that returned is flushed, its key has exactly one row, the one that was returned.
  pub find_row-upsert :
      (payload : Fields) (s : Session) {row : Row}
      → (upsert_by_canvas_id server m t c payload s).0 ≡ ok row
      → (find_row m t c (upsert_by_canvas_id server m t c payload s).1).0 ≡ ok (some row)
  unfolding upsert_by_canvas_id find_row ◌>>=◌
  find_row-upsert payload s e =
      find_row-write_row (writable m payload)
        (scalar_one_or_none (select (is_row t c) (s.db.tables m))) s refl e

  -- What the key's row held before, column by column; a new row's columns are null.
  abbrev pub old_attrs : Option Row → Fields
  old_attrs none = end
  old_attrs (some row) = row.attrs

  pub written :
      (filtered : Fields) (found : Option Row) (s : Session) (row : Row)
      → (write_row server m t c filtered found s).0 ≡ ok row
      → (row.tenant_id ≡ t)
        × (row.canvas_id ≡ c)
        × (row.attrs ≡ set_attributes filtered (old_attrs found))
  unfolding write_row draw ◌>>=◌
  written filtered none s row e =
      elim (Bool-cases (has_key "tenant_id" filtered || has_key "canvas_id" filtered)) [
        | inl twice ↦ let e' : err type_error ≡ ok row = rw (twice, insert_row) at e in (cc, cc, cc)
        | inr once ↦
            let made : ok (new_row server m t c filtered (server.uuid4 s.tick)) ≡ ok row =
              rw (once, insert_row) at e in
            (cc, cc, cc)
      ]
  written filtered (some old) s row e = (cc, cc, cc)
