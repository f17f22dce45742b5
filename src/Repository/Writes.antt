-- ===== src/Repository/Writes.antt =====
-- What an upsert, a soft deletion, a flush and an advance of the watermark leave alone: they change
-- the session's database and its tick, and nothing else.
use paquitobot_rag.Prelude.{ℕ, suc, String, Option, none, some, List}
use paquitobot_rag.Exec.{modify, ◌>>=◌, ◌>>◌}
use paquitobot_rag.Exec.Keeps.{Keeps, keeps_rules}
use paquitobot_rag.Value.{Fields}
use paquitobot_rag.Value.Int.{ℤ}
use paquitobot_rag.Models.{Model, Row, SyncState, Db}
use paquitobot_rag.Session.{Server, Session, set_table, set_states, draw, flush}
use paquitobot_rag.Repository.{
  find_row, update_row, insert_row, write_row, upsert_by_canvas_id, soft_delete_if_inactive,
  delete_row,
}
use paquitobot_rag.Watermark.{find_state, run_at_or_now, write_state, advance_watermark}

module _ (P : Session → Type 0)
    (stable : (s : Session) (db : Db) (tick : ℕ)
      → P s
      → P (record s { db = db; tick = tick })) where
  find_row-Stable : (m : Model) (t : ℕ) (c : ℤ) → Keeps P (find_row m t c)
  unfolding find_row
  find_row-Stable m t c = record { run = λ s h. h }

  draw-Stable : {A : Type 0} (f : ℕ → A) → Keeps P (draw f)
  unfolding draw
  draw-Stable f = record { run = λ s h. stable s s.db (suc s.tick) h }

  pub flush-Stable : (server : Server) → Keeps P (flush server)
  unfolding flush
  flush-Stable server = record { run = λ s h. h }

  set_table-Stable : (m : Model) (f : List Row → List Row) → Keeps P (modify (set_table m f))
  unfolding modify set_table
  set_table-Stable m f = record { run = λ s h. stable s (set_table m f s).db s.tick h }

  module _ (server : Server) (m : Model) (t : ℕ) (c : ℤ) where
    write_row-Stable :
        (filtered : Fields) (found : Option Row) → Keeps P (write_row server m t c filtered found)
    unfolding write_row insert_row update_row set_table
    write_row-Stable filtered none = search (keeps_rules, draw-Stable, set_table-Stable)
    write_row-Stable filtered (some row) = record {
      run = λ s h. stable s (update_row server m t c filtered row s).1.db s.tick h;
    }

    pub upsert-Stable : (payload : Fields) → Keeps P (upsert_by_canvas_id server m t c payload)
    unfolding upsert_by_canvas_id
    upsert-Stable payload = search (keeps_rules, find_row-Stable, write_row-Stable)

    delete_row-Stable :
        (lower : String → String) (found : Option Row)
        → Keeps P (delete_row lower server m t c found)
    unfolding delete_row
    delete_row-Stable lower none = search keeps_rules
    delete_row-Stable lower (some row) = search (keeps_rules, draw-Stable, set_table-Stable)

    pub soft_delete-Stable :
        (lower : String → String) (state : Option String)
        → Keeps P (soft_delete_if_inactive lower server m t c state)
    unfolding soft_delete_if_inactive
    soft_delete-Stable lower state = search (keeps_rules, find_row-Stable, delete_row-Stable)

  module _ (t : ℕ) (table : String) where
    find_state-Stable : Keeps P (find_state t table)
    unfolding find_state
    find_state-Stable = record { run = λ s h. h }

    run_at-Stable : (server : Server) (run_at : Option ℕ) → Keeps P (run_at_or_now server run_at)
    unfolding run_at_or_now
    run_at-Stable server none = search (keeps_rules, draw-Stable)
    run_at-Stable server (some r) = search keeps_rules

    write_state-Stable :
        (f : SyncState → SyncState) (found : Option SyncState)
        → Keeps P (write_state t table f found)
    unfolding write_state modify set_states
    write_state-Stable f none = record {
      run = λ s h. stable s (write_state t table f none s).1.db s.tick h;
    }
    write_state-Stable f (some x) = record {
      run = λ s h. stable s (write_state t table f (some x) s).1.db s.tick h;
    }

    pub advance-Stable :
        (server : Server) (watermark : ℕ) (status : String) (error_class : Option String)
        (at : Option ℕ)
        → Keeps P (advance_watermark t table server watermark status error_class at)
    unfolding advance_watermark
    advance-Stable server watermark status error_class at =
        search (keeps_rules, find_state-Stable, run_at-Stable, write_state-Stable)

    pub fail-Stable :
        (server : Server) (f : Option SyncState → SyncState → SyncState)
        → Keeps P
            (find_state t table >>= λ found. write_state t table (f found) found >> flush server)
    fail-Stable server f = search (keeps_rules, find_state-Stable, write_state-Stable, flush-Stable)
