-- ===== src/Watermark/Others.antt =====
-- Writing the state of a table leaves what is found of the tenant's other tables.
use paquitobot_rag.Prelude.{
  ℕ, String, ◌==◌, ◌&&◌, ◌≡◌, refl, ap, ◌∙◌, Bool, true, false, Option, none, some, str_eq,
  str_eq_iff,
}
use paquitobot_rag.Exec.{modify}
use paquitobot_rag.Models.{SyncState}
use paquitobot_rag.Query.{select}
use paquitobot_rag.Query.Laws.{select-insert_ne, select-update_where_ne}
use paquitobot_rag.Session.{Session, set_states}
use paquitobot_rag.Watermark.{is_state, write_state, first_state}
use paquitobot_rag.Watermark.Laws.{KeepsKey}

&&-true : (a b : Bool) → (a && b) ≡ true → b ≡ true
&&-true true b h = h
&&-true false b h = cc

&&-false : (a b : Bool) → b ≡ false → (a && b) ≡ false
&&-false true b h = h
&&-false false b h = refl

module _ (t : ℕ) (table other : String) (ne : str_eq table other ≡ false) where
  named-other : (x : SyncState) → x.table_name ≡ table → is_state t other x ≡ false
  named-other x named =
      &&-false (x.tenant_id == t) (str_eq x.table_name other) (ap (λ n. str_eq n other) named ∙ ne)

  named_by : (x : SyncState) → is_state t table x ≡ true → x.table_name ≡ table
  named_by x h =
      (str_eq_iff x.table_name table).0 (&&-true (x.tenant_id == t) (str_eq x.table_name table) h)

  pub write_state_other :
      (f : SyncState → SyncState) (found : Option SyncState) (s : Session)
      → KeepsKey f
      → select (is_state t other) (write_state t table f found s).1.db.states
        ≡ select (is_state t other) s.db.states
  unfolding write_state set_states modify
  write_state_other f none s k =
      select-insert_ne (is_state t other) (f (first_state t table)) s.db.states
        (named-other (f (first_state t table)) (k (first_state t table)).1)
  write_state_other f (some x) s k =
      select-update_where_ne (is_state t table) (is_state t other) f s.db.states
        (λ y h. named-other y (named_by y h)) (λ y h. named-other (f y) ((k y).1 ∙ named_by y h))

pub write_state_inside :
    (t : ℕ) (table : String) (f : SyncState → SyncState) (found : Option SyncState) (s : Session)
    → (write_state t table f found s).1.in_transaction ≡ s.in_transaction
unfolding write_state set_states modify
write_state_inside t table f none s = refl
write_state_inside t table f (some x) s = refl
