-- ===== src/Watermark/Tables.antt =====
-- Writing a state leaves every table of rows: what holds of the tables is kept.
use paquitobot_rag.Prelude.{ℕ, String, sym, Option, some, none, List}
use mathlib.Core.Path.{subst}
use paquitobot_rag.Exec.Keeps.{Keeps, keeps_rules}
use paquitobot_rag.Models.{Model, Row, SyncState}
use paquitobot_rag.Session.{Server, Session, draw}
use paquitobot_rag.Watermark.{find_state, write_state, run_at_or_now, advance_watermark}
use paquitobot_rag.Watermark.Laws.{write_state_keeps}

module _ (t : ℕ) (table : String) (Q : (Model → List Row) → Type 0) where
  abbrev pub OnTables : Session → Type 0
  OnTables s = Q s.db.tables

  pub find_state-OnTables : Keeps OnTables (find_state t table)
  unfolding find_state
  find_state-OnTables = record { run = λ s h. h }

  pub write_state-OnTables :
      (f : SyncState → SyncState) (found : Option SyncState)
      → Keeps OnTables (write_state t table f found)
  write_state-OnTables f found = record {
    run = λ s h. subst Q (sym (write_state_keeps t table f found s).1) h;
  }

  run_at-OnTables :
      (server : Server) (run_at : Option ℕ) → Keeps OnTables (run_at_or_now server run_at)
  unfolding run_at_or_now draw
  run_at-OnTables server none = record { run = λ s h. h }
  run_at-OnTables server (some r) = search keeps_rules

  pub advance-OnTables :
      (server : Server) (watermark : ℕ) (status : String) (error_class : Option String)
      (run_at : Option ℕ)
      → Keeps OnTables (advance_watermark t table server watermark status error_class run_at)
  unfolding advance_watermark
  advance-OnTables server watermark status error_class run_at =
      search (keeps_rules, find_state-OnTables, run_at-OnTables, write_state-OnTables)
