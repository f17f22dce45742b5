-- ===== src/Sync/Tenant/Success.antt =====
-- What a run whose body returned has done.
use paquitobot_rag.Prelude.{
  ℕ, ◌≡◌, ◌⊎◌, refl, sym, ap, ◌∙◌, Bool, true, false, Option, none, some, inl, inr,
}
use mathlib.Core.Path.{subst}
use paquitobot_rag.Exec.{Result, Exec, ◌>>◌}
use paquitobot_rag.Exec.Inversion.{>>=-ok}
use paquitobot_rag.Models.{SyncState, Db}
use paquitobot_rag.Session.{Session}
use paquitobot_rag.Watermark.{stamp, advance_watermark, find_state}
use paquitobot_rag.Watermark.Laws.{old_state, read-advance, advance_found}
use paquitobot_rag.Sync.State.{Env, Run, SyncResult, Status, on_session}
use paquitobot_rag.Sync.Tenant.{
  sync_state_table, sync_resources, locked_result, ok_result, locked_body, acquire,
}
use paquitobot_rag.Sync.Tenant.Body.{state_in, rest}
use paquitobot_rag.Sync.Tenant.Parts.{try_acquire_keeps}

module _ (env : Env) (t : ℕ) (run_at : ℕ) where
  -- The watermark that a database holds for the tenant after a success.
  abbrev pub Stamped : Db → Type 0
  Stamped db =
      (state : SyncState) × (state_in t db ≡ Result.ok (some state))
      × (state.last_watermark ≡ some run_at)
      × (state.last_run_at ≡ some run_at)
      × (state.last_error_class ≡ none)

  abbrev pub IsSuccess : SyncResult → Type 0
  IsSuccess a =
      (a.status ≡ Status.ok)
      × (a.lock_acquired ≡ true)
      × (a.last_successful_at ≡ some run_at)
      × (a.last_error_class ≡ none)

  advance_stamps :
      (s : Session)
      → let (result, s') =
          advance_watermark t sync_state_table env.server run_at "ok" none (some run_at) s in
        result ≡ Result.ok tt → Stamped s'.db
  unfolding find_state
  advance_stamps s e =
      let (found, query) =
        advance_found t sync_state_table env.server run_at "ok" none (some run_at) s e in
      let (_, written, _) =
        read-advance t sync_state_table env.server run_at run_at "ok" none s found query in
      (
        stamp run_at run_at "ok" none (old_state t sync_state_table found),
        written,
        refl,
        refl,
        refl,
      )

  abbrev stamping : Exec Run (Unit {0})
  stamping =
      on_session (advance_watermark t sync_state_table env.server run_at "ok" none (some run_at))

  ok_result_after :
      (r : Run) (a : SyncResult)
      → ((stamping >> ok_result env t run_at) r).0 ≡ Result.ok a
      → IsSuccess a × Stamped ((stamping >> ok_result env t run_at) r).1.session.db
  unfolding on_session ok_result
  ok_result_after r a e =
      let (_, advanced, after) = >>=-ok stamping (λ _. ok_result env t run_at) r a e in
      let made : (ok_result env t run_at (stamping r).1).0 ≡ Result.ok a =
        ap (λ p. p.0) (sym after) ∙ e in
      (
        (cc, cc, cc, cc),
        subst (λ p. Stamped p.1.session.db) (sym after) (advance_stamps r.session advanced),
      )

  locked_body_returns :
      (watermark : Option ℕ) (r : Run) (a : SyncResult)
      → (locked_body env t run_at watermark true r).0 ≡ Result.ok a
      → IsSuccess a × Stamped (locked_body env t run_at watermark true r).1.session.db
  unfolding locked_body
  locked_body_returns watermark r a e =
      let (_, _, after) = >>=-ok (sync_resources env t watermark) _ r a e in
      subst (λ p. IsSuccess a × Stamped p.1.session.db) (sym after)
        (ok_result_after _ a (ap (λ p. p.0) (sym after) ∙ e))

  -- The body stops at a busy lock.
  busy_body_returns :
      (watermark : Option ℕ) (r : Run) (a : SyncResult)
      → (locked_body env t run_at watermark false r).0 ≡ Result.ok a
      → (a.status ≡ Status.locked) × ((locked_body env t run_at watermark false r).1 ≡ r)
  unfolding locked_body locked_result
  busy_body_returns watermark r a e = (cc, refl)

  acquire_keeps :
      (lock_held : Bool) (r : Run) → (acquire env t lock_held r).1.session.db ≡ r.session.db
  unfolding acquire
  acquire_keeps true r = refl
  acquire_keeps false r = (try_acquire_keeps env.server t r.session).1

  -- What the body leaves when it returns: a full run, or a busy lock and no change.
  abbrev pub Returned : Run → SyncResult → Result SyncResult × Run → Type 0
  Returned r a p =
      (IsSuccess a × Stamped p.1.session.db)
      ⊎ ((a.status ≡ Status.locked) × (p.1.session.db ≡ r.session.db))

  locked_body_cases :
      (acquired : Bool) (watermark : Option ℕ) (r : Run) (a : SyncResult)
      → (locked_body env t run_at watermark acquired r).0 ≡ Result.ok a
      → Returned r a (locked_body env t run_at watermark acquired r)
  locked_body_cases true watermark r a e = inl (locked_body_returns watermark r a e)
  locked_body_cases false watermark r a e =
      let (status, same) = busy_body_returns watermark r a e in
      inr (status, ap (λ q. q.session.db) same)

  pub rest_returns :
      (lock_held : Bool) (watermark : Option ℕ) (r : Run) (a : SyncResult)
      → (rest env t lock_held run_at watermark r).0 ≡ Result.ok a
      → Returned r a (rest env t lock_held run_at watermark r)
  rest_returns lock_held watermark r a e =
      let (b, _, after) =
        >>=-ok (acquire env t lock_held) (locked_body env t run_at watermark) r a e in
      let taken = (acquire env t lock_held r).1 in
      let cases = locked_body_cases b watermark taken a (ap (λ p. p.0) (sym after) ∙ e) in
      subst (Returned r a) (sym after) (elim cases [
        | inl done ↦ inl done
        | inr (status, same) ↦ inr (status, same ∙ acquire_keeps lock_held r)
      ])
