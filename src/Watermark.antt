-- ===== src/Watermark.antt =====
-- app/sync/watermark.py: the row of `sync_state` by tenant and table. Times are in UTC, so the
-- normalisation of naive values changes nothing.
pub mod Laws
pub mod Examples
pub mod Tables
pub mod Others
use paquitobot_rag.Prelude.{ℕ, String, Bool, Option, none, some, [], ◌∷◌, ◌++◌, ◌==◌, ◌&&◌, str_eq}
use paquitobot_rag.Exec.{Exec, pure, lift, gets, modify, ◌>>=◌, ◌>>◌}
use paquitobot_rag.Query.{select, scalar_one_or_none, update_where}
use paquitobot_rag.Models.{SyncState}
use paquitobot_rag.Session.{Server, Session, draw, set_states}

abbrev pub is_state : ℕ → String → SyncState → Bool
is_state tenant table state = state.tenant_id == tenant && str_eq state.table_name table

-- `_read_sync_state` of pipeline.py, and the query of both functions here
unfoldable pub find_state : ℕ → String → Exec Session (Option SyncState)
find_state tenant table s = (scalar_one_or_none (select (is_state tenant table) s.db.states), s)

abbrev pub watermark_of : Option SyncState → Option ℕ
watermark_of none = none
watermark_of (some state) = state.last_watermark

unfoldable pub read_watermark : ℕ → String → Exec Session (Option ℕ)
unfolding find_state
read_watermark tenant table = do row ← find_state tenant table; pure (watermark_of row)

abbrev pub stamp : ℕ → ℕ → String → Option String → SyncState → SyncState
stamp watermark run_at status error_class state = record state {
  last_watermark = some watermark;
  last_run_at = some run_at;
  last_status = status;
  last_error_class = error_class;
}

-- `run_at or datetime.now(UTC)`: a `datetime` is never falsy.
unfoldable pub run_at_or_now : Server → Option ℕ → Exec Session ℕ
run_at_or_now server (some run_at) = pure run_at
run_at_or_now server none = draw server.now

module _ (tenant : ℕ) (table : String) where
  abbrev pub first_state : SyncState
  first_state = record {
    tenant_id = tenant;
    table_name = table;
    last_watermark = none;
    last_run_at = none;
    last_status = "";
    last_error_class = none;
  }

  unfoldable pub write_state : (SyncState → SyncState) → Option SyncState → Exec Session (Unit {0})
  write_state f none = modify (set_states (λ states. states ++ f first_state ∷ []))
  write_state f (some _) = modify (set_states (update_where (is_state tenant table) f))

  unfoldable pub advance_watermark :
      Server → ℕ → String → Option String → Option ℕ → Exec Session (Unit {0})
  unfolding find_state run_at_or_now write_state
  advance_watermark server watermark status error_class run_at = do
    row ← find_state tenant table
    stamped_run_at ← run_at_or_now server run_at
    write_state (stamp watermark stamped_run_at status error_class) row
