-- ===== src/TextToSql/Executor/Unbound.antt =====
-- A statement with a bound parameter other than the tenant, such as those of the templates.
use paquitobot_rag.Prelude.{ℕ, ◌≡◌, refl, inl, inr, String, false, List, [], ◌∷◌, map}
use paquitobot_rag.Value.{is_within}
use paquitobot_rag.Exec.{ok, err, sql_execution_error, lift, ◌>>=◌}
use paquitobot_rag.TextToSql.Validator.{Checks, validate_sql}
use paquitobot_rag.TextToSql.Executor.{
  Statement, Call, begin, execute_sql, Connection, Limits, with_limit, for_tenant, settings, call,
  query_rows, inside_begin, run_bounded, execute_readonly,
}
use paquitobot_rag.TextToSql.Executor.Guarded.{settled, call_cases, set_all_cases}

module _ {R : Type 0} (server : Connection R) (bound_names : String → List String) where
  -- SQLAlchemy raises for a statement with a bound parameter that no value is given for.
  abbrev pub IsBinding : Type 0
  IsBinding =
      (s : List Call) (statement : Statement)
      → is_within (bound_names statement.text) (map (λ p. p.0) statement.parameters) ≡ false
      → server.returns s (execute_sql statement) ≡ false

  unbound_fails :
      (tenant_id bounded : String) (s : List Call)
      → IsBinding
      → is_within (bound_names bounded) ("tenant_id" ∷ []) ≡ false
      → (run_bounded server tenant_id bounded s).0 ≡ err sql_execution_error
  unfolding run_bounded inside_begin query_rows call ◌>>=◌
  unbound_fails tenant_id bounded s binding unbound = elim (call_cases server begin s) [
    | inr raised ↦ rw (raised) refl
    | inl begun ↦ elim (set_all_cases server (settings tenant_id) (begin ∷ s)) [
      | inr (part, is_part, e) ↦ rw (begun, e) refl
      | inl all ↦
          let raised = binding (settled tenant_id s) (for_tenant tenant_id bounded) unbound in
          rw (begun, all, raised) refl
    ]
  ]

  -- Where SQLAlchemy raises for a parameter without a value: a statement that is let through, and
  -- is bounded to a text with a bound parameter that is not the tenant, never gives rows.
  pub execute_readonly_unbound :
      (checks : Checks) (limits : Limits) (sql safe_sql tenant_id : String) (row_limit : ℕ)
      (s : List Call)
      → IsBinding
      → validate_sql checks sql ≡ ok safe_sql
      → is_within (bound_names (with_limit limits safe_sql row_limit)) ("tenant_id" ∷ []) ≡ false
      → (execute_readonly server checks limits sql tenant_id row_limit s).0
        ≡ err sql_execution_error
  unfolding execute_readonly lift ◌>>=◌
  execute_readonly_unbound checks limits sql safe_sql tenant_id row_limit s binding valid unbound =
      rw (valid) (unbound_fails tenant_id (with_limit limits safe_sql row_limit) s binding unbound)
