-- ===== src/Repository/Columns.antt =====
-- The columns of the row that `upsert_by_canvas_id` returns.
use paquitobot_rag.Prelude.{ℕ, String, ◌≡◌, ap, Bool, Option, not, ◌&&◌, ◌∙◌, if◌then◌else◌}
use paquitobot_rag.Exec.{ok, ◌>>=◌}
use paquitobot_rag.Value.{Fields, get, has_key}
use paquitobot_rag.Value.Int.{ℤ}
use paquitobot_rag.Models.{Model, Row}
use paquitobot_rag.Session.{Server, Session}
use paquitobot_rag.Repository.{find_row, writable, upsert_by_canvas_id}
use paquitobot_rag.Repository.Laws.{is_key, get-set_attributes, written, old_attrs}

-- The column `j` is assigned from the payload.
abbrev pub is_assigned : Model → Fields → String → Bool
is_assigned m payload j = has_key j (writable m payload) && not (is_key j)

module _ (server : Server) (m : Model) (t : ℕ) (c : ℤ) where
  -- The row that an upsert returns is the tenant's, under the Canvas id; a column that the payload
  -- names, and that the server does not stamp, has the payload's value, and any other column has
  -- what the key's row held before, or null where there was none.
  pub upsert_columns :
      (payload : Fields) (found : Option Row) (s : Session) (row : Row)
      → (find_row m t c s).0 ≡ ok found
      → (upsert_by_canvas_id server m t c payload s).0 ≡ ok row
      → (row.tenant_id ≡ t)
        × (row.canvas_id ≡ c)
        × ((j : String)
            → get j row.attrs ≡ (
                if is_assigned m payload j
                then get j (writable m payload)
                else get j (old_attrs server m t c found)))
  unfolding upsert_by_canvas_id find_row ◌>>=◌
  upsert_columns payload found s row e made =
      let (own, key, columns) =
        written server m t c (writable m payload) found s row (rw e at made) in
      (
        own,
        key,
        λ j.
            ap (get j) columns
            ∙ get-set_attributes j (writable m payload) (old_attrs server m t c found),
      )
