-- ===== src/Repository/Revival.antt =====
-- A row that was soft deleted, when Canvas sends its object again.
use paquitobot_rag.Prelude.{ℕ, String, ◌≡◌, false, Option, some, ◌&&◌, ◌∙◌, ap, refl, arith}
use paquitobot_rag.Exec.{ok}
use paquitobot_rag.Value.{Fields, get, is_null}
use paquitobot_rag.Value.Int.{ℤ}
use paquitobot_rag.Models.{Model, Row}
use paquitobot_rag.Session.{Server, Session}
use paquitobot_rag.Repository.{find_row, upsert_by_canvas_id, is_inactive, soft_delete_if_inactive}
use paquitobot_rag.Repository.Columns.{is_assigned, upsert_columns}
use paquitobot_rag.Repository.Deletion.{soft_delete_lem}
use paquitobot_rag.Repository.Laws.{find_row-upsert}

module _ (lower : String → String) (server : Server) (m : Model) (t : ℕ) (c : ℤ) where
  -- A row that is soft deleted stays so: an upsert of a payload that does not name `deleted_at`, and
  -- the soft deletion after it, whatever the new state of the object, leave the row with the
  -- `deleted_at` of old, and the soft deletion returns false.
  pub upsert-soft_delete_keeps_deleted :
      (payload : Fields) (state : Option String) (s : Session) (old row : Row)
      → (find_row m t c s).0 ≡ ok (some old)
      → is_null (get "deleted_at" old.attrs) ≡ false
      → is_assigned m payload "deleted_at" ≡ false
      → (upsert_by_canvas_id server m t c payload s).0 ≡ ok row
      → let s' = (upsert_by_canvas_id server m t c payload s).1 in
        let (result, s'') = soft_delete_if_inactive lower server m t c state s' in
        (result ≡ ok false)
        × ((find_row m t c s'').0 ≡ ok (some row))
        × (get "deleted_at" row.attrs ≡ get "deleted_at" old.attrs)
  upsert-soft_delete_keeps_deleted payload state s old row found deleted unnamed made =
      let (_, _, columns) = upsert_columns server m t c payload (some old) s row found made in
      let kept : get "deleted_at" row.attrs ≡ get "deleted_at" old.attrs =
        columns "deleted_at" ∙ rw unnamed refl in
      let s' = (upsert_by_canvas_id server m t c payload s).1 in
      let (result, after) =
        soft_delete_lem lower server m t c state s' row
          (find_row-upsert server m t c payload s made) in
      let idle : (is_inactive lower state && is_null (get "deleted_at" row.attrs)) ≡ false =
        rw (kept, deleted) (ground arith) in
      (result ∙ ap ok idle, after ∙ rw idle refl, kept)
