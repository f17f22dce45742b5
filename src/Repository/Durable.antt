-- ===== src/Repository/Durable.antt =====
-- The writes of a session go to its transaction: what is durable stays until a commit.
use paquitobot_rag.Prelude.{ℕ, ◌≡◌, String, Option, none, some, List}
use paquitobot_rag.Exec.{modify}
use paquitobot_rag.Exec.Keeps.{Keeps, keeps_rules}
use paquitobot_rag.Value.{Fields}
use paquitobot_rag.Value.Int.{ℤ}
use paquitobot_rag.Models.{Model, Row, Db}
use paquitobot_rag.Session.{Server, Session, set_table, draw, flush}
use paquitobot_rag.Repository.{
  find_row, update_row, insert_row, write_row, upsert_by_canvas_id, soft_delete_if_inactive,
  delete_row,
}

module _ (d : Db) where
  abbrev pub Durable : Session → Type 0
  Durable s = s.durable ≡ d

  find_row-Durable : (m : Model) (t : ℕ) (c : ℤ) → Keeps Durable (find_row m t c)
  unfolding find_row
  find_row-Durable m t c = record { run = λ s h. h }

  pub draw-Durable : {A : Type 0} (f : ℕ → A) → Keeps Durable (draw f)
  unfolding draw
  draw-Durable f = record { run = λ s h. h }

  pub flush-Durable : (server : Server) → Keeps Durable (flush server)
  unfolding flush
  flush-Durable server = record { run = λ s h. h }

  set_table-Durable : (m : Model) (f : List Row → List Row) → Keeps Durable (modify (set_table m f))
  unfolding modify set_table
  set_table-Durable m f = record { run = λ s h. h }

  module _ (server : Server) (m : Model) (t : ℕ) (c : ℤ) where
    write_row-Durable :
        (filtered : Fields) (found : Option Row)
        → Keeps Durable (write_row server m t c filtered found)
    unfolding write_row insert_row update_row set_table
    write_row-Durable filtered none = search (keeps_rules, draw-Durable, set_table-Durable)
    write_row-Durable filtered (some row) = record { run = λ s h. h }

    pub upsert-Durable :
        (payload : Fields) → Keeps Durable (upsert_by_canvas_id server m t c payload)
    unfolding upsert_by_canvas_id
    upsert-Durable payload = search (keeps_rules, find_row-Durable, write_row-Durable)

    delete_row-Durable :
        (lower : String → String) (found : Option Row)
        → Keeps Durable (delete_row lower server m t c found)
    unfolding delete_row
    delete_row-Durable lower none = search keeps_rules
    delete_row-Durable lower (some row) = search (keeps_rules, draw-Durable, set_table-Durable)

    pub soft_delete-Durable :
        (lower : String → String) (state : Option String)
        → Keeps Durable (soft_delete_if_inactive lower server m t c state)
    unfolding soft_delete_if_inactive
    soft_delete-Durable lower state = search (keeps_rules, find_row-Durable, delete_row-Durable)
