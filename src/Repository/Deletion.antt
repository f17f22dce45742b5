-- ===== src/Repository/Deletion.antt =====
-- `soft_delete_if_inactive`, on every branch, and what `assert_tenant_fk_target` accepts.
use paquitobot_rag.Prelude.{
  ℕ, String, ◌≡◌, refl, Option, none, some, ◌&&◌, Bool-cases, inl, inr, arith, if◌then◌else◌, List,
  [],
}
use paquitobot_rag.Exec.{Result, ok, err, and_then, ◌>>=◌}
use paquitobot_rag.Value.{get, is_null}
use paquitobot_rag.Value.Int.{ℤ, ◌==ℤ◌, ==ℤ_iff}
use paquitobot_rag.Query.{select, scalar_one_or_none}
use paquitobot_rag.Query.Laws.{scalar-update_where, scalar_one_or_none-some, select_sound}
use paquitobot_rag.Models.{Model, model_eq_refl, Row}
use paquitobot_rag.Session.{Server, Session, draw, set_table}
use paquitobot_rag.Repository.{
  is_row, find_row, is_inactive, delete_row, mark_deleted, soft_delete_if_inactive,
  assert_tenant_fk_target, check_target,
}

module _ (lower : String → String) (server : Server) (m : Model) (t : ℕ) (c : ℤ) where
  delete_row_lem :
      (s : Session) (row : Row)
      → (find_row m t c s).0 ≡ ok (some row)
      → let (result, s') = delete_row lower server m t c (some row) s in
        let deletes = is_null (get "deleted_at" row.attrs) in
        (result ≡ ok deletes)
        × ((find_row m t c s').0
            ≡ ok (some (if deletes then mark_deleted (server.now s.tick) row else row)))
  unfolding delete_row find_row ◌>>=◌ draw set_table
  delete_row_lem s row e = elim (Bool-cases (is_null (get "deleted_at" row.attrs))) [
    | inl fresh ↦
        rw (fresh, model_eq_refl m)
          (
            refl,
            scalar-update_where (is_row t c) (mark_deleted (server.now s.tick)) row (s.db.tables m)
                (λ y k. k) e,
          )
    | inr old ↦ rw old (refl, e)
  ]

  -- A soft deletion of the key's row returns whether the state is inactive and the row was not
  -- deleted yet.  If it returns true, the row's `deleted_at` is the time of the call and no other
  -- column has changed; if it returns false, the row is as it was.
  pub soft_delete_lem :
      (state : Option String) (s : Session) (row : Row)
      → (find_row m t c s).0 ≡ ok (some row)
      → let (result, s') = soft_delete_if_inactive lower server m t c state s in
        let deletes = is_inactive lower state && is_null (get "deleted_at" row.attrs) in
        (result ≡ ok deletes)
        × ((find_row m t c s').0
            ≡ ok (some (if deletes then mark_deleted (server.now s.tick) row else row)))
  unfolding soft_delete_if_inactive delete_row ◌>>=◌ find_row
  soft_delete_lem state s row e = elim (Bool-cases (is_inactive lower state)) [
    | inl off ↦ rw (off, e) (delete_row_lem s row e)
    | inr on ↦ rw on (refl, e)
  ]

-- A row that the foreign-key guard returns has the Canvas id and belongs to the tenant.
pub assert_tenant_fk_target_own :
    (m : Model) (t : ℕ) (c : ℤ) (s : Session) (row : Row)
    → (assert_tenant_fk_target m t c s).0 ≡ ok row
    → (row.tenant_id ≡ t) × (row.canvas_id ≡ c)
unfolding assert_tenant_fk_target ◌>>=◌
assert_tenant_fk_target_own m t c s row e = go (scalar_one_or_none by_id) refl e
  where
    by_id : List Row
    by_id = select (λ x. x.canvas_id ==ℤ c) (s.db.tables m)

    go :
        (r : Result (Option Row))
        → scalar_one_or_none by_id ≡ r
        → (and_then (check_target t) r s).0 ≡ ok row
        → (row.tenant_id ≡ t) × (row.canvas_id ≡ c)
    go (err x) found e = cc
    go (ok none) found e = cc
    go (ok (some x)) found e =
        let hit =
          select_sound (λ y. y.canvas_id ==ℤ c) x [] (s.db.tables m)
            (scalar_one_or_none-some x by_id found) in
        ground (arith, ==ℤ_iff x.canvas_id c)
