-- ===== src/Repository/Tenants.antt =====
-- Tenant isolation: what is written for one tenant leaves every row of every other tenant as it
-- was, in its table's order.
use paquitobot_rag.Prelude.{
  ℕ, ◌≡◌, refl, String, Bool, Option, none, some, [], ◌∷◌, ◌++◌, not, arith, ◌==◌, ◌∙◌,
}
use paquitobot_rag.Exec.{modify}
use paquitobot_rag.Exec.Keeps.{Keeps, Keeps-modify, keeps_rules}
use paquitobot_rag.Value.{Fields}
use paquitobot_rag.Value.Int.{ℤ}
use paquitobot_rag.Query.{select, update_where}
use paquitobot_rag.Query.Laws.{select-update_where_ne, select-insert_ne}
use paquitobot_rag.Models.{Model, Row, SyncState, Db}
use paquitobot_rag.Session.{Server, Session, set_table, draw, flush}
use paquitobot_rag.Repository.{
  is_row, find_row, assign_row, new_row, update_row, insert_row, write_row, mark_deleted,
  upsert_by_canvas_id, soft_delete_if_inactive, delete_row,
}

abbrev pub is_foreign_row : ℕ → Row → Bool
is_foreign_row t row = not (row.tenant_id == t)

abbrev pub is_foreign_state : ℕ → SyncState → Bool
is_foreign_state t state = not (state.tenant_id == t)

-- Seen by the tenants other than `t`, the two databases are the same.
pub record SameOthers (t : ℕ) (a b : Db) : Type 0 where
  pub rows :
      (m : Model) → select (is_foreign_row t) (b.tables m) ≡ select (is_foreign_row t) (a.tables m)
  pub states : select (is_foreign_state t) b.states ≡ select (is_foreign_state t) a.states

pub SameOthers-refl : (t : ℕ) (a : Db) → SameOthers t a a
SameOthers-refl t a = record { rows = λ m. refl; states = refl }

pub SameOthers-trans : {t : ℕ} {a b c : Db} → SameOthers t a b → SameOthers t b c → SameOthers t a c
SameOthers-trans h k = record { rows = λ m. k.rows m ∙ h.rows m; states = k.states ∙ h.states }

module _ (t : ℕ) (base : Db) where
  -- The property that every action for the tenant `t` keeps.
  abbrev pub Isolated : Session → Type 0
  Isolated s = SameOthers t base s.db

  update_where-Isolated :
      (m : Model) (c : ℤ) (f : Row → Row)
      → ((row : Row) → row.tenant_id ≡ t → (f row).tenant_id ≡ t)
      → (s : Session) → Isolated s
      → Isolated (set_table m (update_where (is_row t c) f) s)
  unfolding set_table
  update_where-Isolated m c f own s h = record {
    rows = λ n. ground (
      arith,
      h.rows n,
      select-update_where_ne (is_row t c) (is_foreign_row t) f (s.db.tables n) (λ x k. ground arith)
          (λ x k. ground (arith, own x)),
    );
    states = h.states;
  }

  insert-Isolated :
      (m : Model) (row : Row)
      → row.tenant_id ≡ t
      → (s : Session) → Isolated s
      → Isolated (set_table m (λ rows. rows ++ row ∷ []) s)
  unfolding set_table
  insert-Isolated m row own s h = record {
    rows = λ n.
        ground
          (arith, h.rows n, select-insert_ne (is_foreign_row t) row (s.db.tables n) (ground arith));
    states = h.states;
  }

  pub find_row-Isolated : (m : Model) (u : ℕ) (c : ℤ) → Keeps Isolated (find_row m u c)
  unfolding find_row
  find_row-Isolated m u c = record { run = λ s h. h }

  pub draw-Isolated : {A : Type 0} (f : ℕ → A) → Keeps Isolated (draw f)
  unfolding draw
  draw-Isolated f = record { run = λ s h. h }

  pub flush-Isolated : (server : Server) → Keeps Isolated (flush server)
  unfolding flush
  flush-Isolated server = record { run = λ s h. h }

  update_row-Isolated :
      (server : Server) (m : Model) (c : ℤ) (filtered : Fields) (row : Row)
      → Keeps Isolated (update_row server m t c filtered row)
  unfolding update_row
  update_row-Isolated server m c filtered row = record {
    run = λ s h. update_where-Isolated m c (assign_row t c filtered) (λ _ _. refl) s h;
  }

  insert_row-Isolated :
      (server : Server) (m : Model) (c : ℤ) (filtered : Fields)
      → Keeps Isolated (insert_row server m t c filtered)
  unfolding insert_row
  insert_row-Isolated server m c filtered = search (keeps_rules, draw-Isolated, put_new)
    where
      put_new :
          (id : ℕ)
          → Keeps Isolated
              (modify (set_table m (λ rows. rows ++ new_row server m t c filtered id ∷ [])))
      put_new id = Keeps-modify _ (insert-Isolated m (new_row server m t c filtered id) refl)

  write_row-Isolated :
      (server : Server) (m : Model) (c : ℤ) (filtered : Fields) (found : Option Row)
      → Keeps Isolated (write_row server m t c filtered found)
  unfolding write_row
  write_row-Isolated server m c filtered none = insert_row-Isolated server m c filtered
  write_row-Isolated server m c filtered (some row) = update_row-Isolated server m c filtered row

  pub upsert-Isolated :
      (server : Server) (m : Model) (c : ℤ) (payload : Fields)
      → Keeps Isolated (upsert_by_canvas_id server m t c payload)
  unfolding upsert_by_canvas_id
  upsert-Isolated server m c payload = search (keeps_rules, find_row-Isolated, write_row-Isolated)

  delete_row-Isolated :
      (lower : String → String) (server : Server) (m : Model) (c : ℤ) (found : Option Row)
      → Keeps Isolated (delete_row lower server m t c found)
  unfolding delete_row
  delete_row-Isolated lower server m c none = search keeps_rules
  delete_row-Isolated lower server m c (some row) = search (keeps_rules, draw-Isolated, mark)
    where
      mark :
          (now : ℕ)
          → Keeps Isolated (modify (set_table m (update_where (is_row t c) (mark_deleted now))))
      mark now = Keeps-modify _ (update_where-Isolated m c (mark_deleted now) (λ _ own. own))

  pub soft_delete-Isolated :
      (lower : String → String) (server : Server) (m : Model) (c : ℤ) (state : Option String)
      → Keeps Isolated (soft_delete_if_inactive lower server m t c state)
  unfolding soft_delete_if_inactive
  soft_delete-Isolated lower server m c state =
      search (keeps_rules, find_row-Isolated, delete_row-Isolated)
