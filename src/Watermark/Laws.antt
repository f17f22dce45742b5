-- ===== src/Watermark/Laws.antt =====
-- What reading the watermark gives after an advance, and what an advance leaves alone.
use paquitobot_rag.Prelude.{ℕ, String, ◌≡◌, refl, Option, none, some, ◌∙◌, arith, str_eq_iff}
use paquitobot_rag.Exec.{ok, modify, ◌>>=◌}
use paquitobot_rag.Exec.Keeps.{Keeps, Keeps-bind, keeps_rules}
use paquitobot_rag.Exec.Inversion.{>>=-ok}
use paquitobot_rag.Query.Laws.{
  scalar-update_where, scalar-insert, select-update_where_ne, select-insert_ne,
}
use paquitobot_rag.Models.{SyncState, Db}
use paquitobot_rag.Session.{Server, Session, set_states}
use paquitobot_rag.Repository.Durable.{Durable, draw-Durable}
use paquitobot_rag.Repository.Tenants.{Isolated, is_foreign_state, draw-Isolated}
use paquitobot_rag.Watermark.{
  is_state, find_state, read_watermark, stamp, run_at_or_now, first_state, write_state,
  advance_watermark,
}

abbrev pub KeepsKey : (SyncState → SyncState) → Type 0
KeepsKey f = (x : SyncState) → ((f x).tenant_id ≡ x.tenant_id) × ((f x).table_name ≡ x.table_name)

module _ (tenant : ℕ) (table : String) where
  -- What the key's state was before a write: a new one is empty.
  abbrev pub old_state : Option SyncState → SyncState
  old_state none = first_state tenant table
  old_state (some state) = state

  pub find_state-write_state :
      (f : SyncState → SyncState) (found : Option SyncState) (s : Session)
      → KeepsKey f
      → (find_state tenant table s).0 ≡ ok found
      → (find_state tenant table (write_state tenant table f found s).1).0
        ≡ ok (some (f (old_state found)))
  unfolding find_state write_state set_states modify
  find_state-write_state f none s k e =
      scalar-insert (is_state tenant table) (f (first_state tenant table)) s.db.states
        (ground (
          arith,
          k (first_state tenant table),
          str_eq_iff table table,
          str_eq_iff (f (first_state tenant table)).table_name table,
        ))
        e
  find_state-write_state f (some x) s k e =
      scalar-update_where (is_state tenant table) f x s.db.states (λ y h. ground (arith, k y)) e

  pub ok-write_state :
      (f : SyncState → SyncState) (found : Option SyncState) (s : Session)
      → (write_state tenant table f found s).0 ≡ ok tt
  unfolding write_state modify
  ok-write_state f none s = refl
  ok-write_state f (some x) s = refl

  -- A write of a state leaves the rows, and what is durable.
  pub write_state_keeps :
      (f : SyncState → SyncState) (found : Option SyncState) (s : Session)
      → let s' = (write_state tenant table f found s).1 in
        (s'.durable ≡ s.durable) × (s'.db.tables ≡ s.db.tables)
  unfolding write_state modify set_states
  write_state_keeps f none s = (refl, refl)
  write_state_keeps f (some x) s = (refl, refl)

  -- Where the tenant and table have at most one state, after an advance that stamps `run_at` that
  -- state has the watermark, the run, the status and the error class, and the watermark reads
  -- back.
  pub read-advance :
      (server : Server) (watermark run_at : ℕ) (status : String) (error_class : Option String)
      (s : Session) (found : Option SyncState)
      → (find_state tenant table s).0 ≡ ok found
      → let (result, s') =
          advance_watermark tenant table server watermark status error_class (some run_at) s in
        (result ≡ ok tt)
        × ((find_state tenant table s').0
            ≡ ok (some (stamp watermark run_at status error_class (old_state found))))
        × ((read_watermark tenant table s').0 ≡ ok (some watermark))
  unfolding advance_watermark read_watermark ◌>>=◌
  read-advance server watermark run_at status error_class s found e =
      let f = stamp watermark run_at status error_class in
      let written = find_state-write_state f found s (λ x. (refl, refl)) e in
      rw e (ok-write_state f found s, written, rw written)

  -- An advance that returned has found a state, or none.
  pub advance_found :
      (server : Server) (watermark : ℕ) (status : String) (error_class : Option String)
      (run_at : Option ℕ) (s : Session)
      → (advance_watermark tenant table server watermark status error_class run_at s).0 ≡ ok tt
      → (found : Option SyncState) × ((find_state tenant table s).0 ≡ ok found)
  unfolding advance_watermark
  advance_found server watermark status error_class run_at s e =
      let (found, query, _) = >>=-ok (find_state tenant table) _ s tt e in (found, query)

  pub write_state-Isolated :
      (base : Db) (f : SyncState → SyncState) (found : Option SyncState)
      → KeepsKey f
      → Keeps (Isolated tenant base) (write_state tenant table f found)
  unfolding write_state set_states modify
  write_state-Isolated base f none k = record {
    run = λ s h. record {
      rows = h.rows;
      states = ground (
        arith,
        h.states,
        select-insert_ne (is_foreign_state tenant) (f (first_state tenant table)) s.db.states
            (ground (arith, k (first_state tenant table))),
      );
    };
  }
  write_state-Isolated base f (some x) k = record {
    run = λ s h. record {
      rows = h.rows;
      states = ground (
        arith,
        h.states,
        select-update_where_ne (is_state tenant table) (is_foreign_state tenant) f s.db.states
            (λ y m. ground arith) (λ y m. ground (arith, k y)),
      );
    };
  }

  pub find_state-Isolated :
      (base : Db) (other : String) → Keeps (Isolated tenant base) (find_state tenant other)
  unfolding find_state
  find_state-Isolated base other = record { run = λ s h. h }

  run_at-Isolated :
      (base : Db) (server : Server) (run_at : Option ℕ)
      → Keeps (Isolated tenant base) (run_at_or_now server run_at)
  unfolding run_at_or_now
  run_at-Isolated base server none = search (keeps_rules, draw-Isolated)
  run_at-Isolated base server (some r) = search keeps_rules

  -- An advance touches no other tenant's rows or states.
  pub advance-Isolated :
      (base : Db) (server : Server) (watermark : ℕ) (status : String) (error_class : Option String)
      (run_at : Option ℕ)
      → Keeps
          (Isolated tenant base)
          (advance_watermark tenant table server watermark status error_class run_at)
  unfolding advance_watermark
  advance-Isolated base server watermark status error_class run_at =
      Keeps-bind _ _ (find_state-Isolated base table) (λ row.
        Keeps-bind _ _ (run_at-Isolated base server run_at) (λ at.
          write_state-Isolated base (stamp watermark at status error_class) row
            (λ x. (refl, refl))))

  run_at-Durable :
      (d : Db) (server : Server) (run_at : Option ℕ)
      → Keeps (Durable d) (run_at_or_now server run_at)
  unfolding run_at_or_now
  run_at-Durable d server none = search (keeps_rules, draw-Durable)
  run_at-Durable d server (some r) = search keeps_rules

  pub find_state-Durable : (d : Db) → Keeps (Durable d) (find_state tenant table)
  unfolding find_state
  find_state-Durable d = record { run = λ s h. h }

  pub write_state-Durable :
      (d : Db) (f : SyncState → SyncState) (found : Option SyncState)
      → Keeps (Durable d) (write_state tenant table f found)
  write_state-Durable d f found = record { run = λ s h. (write_state_keeps f found s).0 ∙ h }

  pub advance-Durable :
      (d : Db) (server : Server) (watermark : ℕ) (status : String) (error_class : Option String)
      (run_at : Option ℕ)
      → Keeps
          (Durable d)
          (advance_watermark tenant table server watermark status error_class run_at)
  unfolding advance_watermark
  advance-Durable d server watermark status error_class run_at =
      search (keeps_rules, find_state-Durable, run_at-Durable, write_state-Durable)
