-- ===== src/TextToSql/Executor/Guarded.antt =====
-- What the database is asked by `execute_readonly`.
use Prim.Native.String.{◌++◌ as append}
use paquitobot_rag.Prelude.{
  ℕ, ◌≡◌, refl, sym, ap, ◌∙◌, ◌⊎◌, inl, inr, String, true, false, List, [], ◌∷◌, ◌++◌, Bool-cases,
}
use paquitobot_rag.Exec.{Exn, Result, ok, err, sql_execution_error, pure, ◌>>=◌}
use paquitobot_rag.TextToSql.Validator.{Checks, validate_sql}
use paquitobot_rag.TextToSql.Validator.Safe.{IsSafe}
use paquitobot_rag.TextToSql.Executor.{
  Statement, Call, begin, commit, rollback, execute_sql, Connection, Limits, call, set_all,
}

-- The calls that a list of statements makes, after others.
abbrev pub calls_of : List Statement → List Call → List Call
calls_of [] s = s
calls_of (x ∷ xs) s = calls_of xs (execute_sql x ∷ s)

abbrev set_local : String → List (String × String) → Call
set_local text parameters = execute_sql (record { text = text; parameters = parameters })

-- The transaction was begun and made read-only, its two timeouts were set, and the tenant was told.
abbrev pub settled : String → List Call → List Call
settled tenant_id before =
    set_local "SET LOCAL app.tenant_id = :tenant_id" (("tenant_id", tenant_id) ∷ [])
    ∷ set_local "SET LOCAL idle_in_transaction_session_timeout = 10000" []
    ∷ set_local "SET LOCAL statement_timeout = 2000" []
    ∷ set_local "SET LOCAL default_transaction_read_only = on" []
    ∷ begin
    ∷ before

-- The text has a LIMIT of its own, or it is wrapped in a query with the limit of rows.
abbrev pub IsLimited : Limits → ℕ → String → String → Type 0
IsLimited limits row_limit sql limited =
    ((limits.has_limit sql ≡ true) × (limited ≡ sql))
    ⊎ ((limits.has_limit sql ≡ false)
        × (limited
            ≡ append "SELECT * FROM ("
                (append sql (append ") AS bounded_query LIMIT " (limits.str_of_limit row_limit)))))

-- What was asked up to some moment of it
abbrev pub IsPart : List Call → List Call → Type 0
IsPart part all = (newer : List Call) × (all ≡ newer ++ part)

append_assoc : (xs ys zs : List Call) → (xs ++ ys) ++ zs ≡ xs ++ (ys ++ zs)
append_assoc [] ys zs = refl
append_assoc (x ∷ xs) ys zs = ap (λ l. x ∷ l) (append_assoc xs ys zs)

calls_of-IsPart : (xs : List Statement) (s : List Call) → IsPart s (calls_of xs s)
calls_of-IsPart [] s = ([], refl)
calls_of-IsPart (x ∷ xs) s =
    let (newer, e) = calls_of-IsPart xs (execute_sql x ∷ s) in
    (newer ++ execute_sql x ∷ [], e ∙ sym (append_assoc newer (execute_sql x ∷ []) s))

module _ {R : Type 0} (server : Connection R) where
  pub call_cases :
      (c : Call) (s : List Call)
      → (call server c s ≡ (ok tt, c ∷ s)) ⊎ (call server c s ≡ (err sql_execution_error, c ∷ s))
  unfolding call
  call_cases c s = elim (Bool-cases (server.returns s c)) [
    | inl returned ↦ inl (rw (returned) refl)
    | inr raised ↦ inr (rw (raised) refl)
  ]

  pub set_all_cases :
      (xs : List Statement) (s : List Call)
      → (set_all server xs s ≡ (ok tt, calls_of xs s))
        ⊎ ((part : List Call) × IsPart part (calls_of xs s)
            × (set_all server xs s ≡ (err sql_execution_error, part)))
  unfolding set_all ◌>>=◌ pure
  set_all_cases [] s = inl refl
  set_all_cases (x ∷ xs) s = elim (call_cases (execute_sql x) s) [
    | inl returned ↦ elim (set_all_cases xs (execute_sql x ∷ s)) [
      | inl all ↦ inl (rw (returned) all)
      | inr (part, is_part, e) ↦ inr (part, is_part, rw (returned) e)
    ]
    | inr raised ↦ inr (execute_sql x ∷ s, calls_of-IsPart xs (execute_sql x ∷ s), rw (raised) refl)
  ]

  module _ (tenant_id bounded : String) (s : List Call) where
    abbrev query : Statement
    query = record { text = bounded; parameters = ("tenant_id", tenant_id) ∷ [] }

    abbrev asked : List Call
    asked = execute_sql query ∷ settled tenant_id s

    -- Rows were read by the query after the settings; or the one exception was raised, before the
    -- query or after it.
    abbrev pub RanBounded : Result R → List Call → Type 0
    RanBounded (ok rows) s' =
        (rows ≡ server.rows (settled tenant_id s) query) × (s' ≡ commit ∷ asked)
    RanBounded (err e) s' =
        (e ≡ sql_execution_error)
        × ((s' ≡ begin ∷ s)
            ⊎ ((part : List Call) × IsPart part asked × (s' ≡ rollback ∷ part))
            ⊎ (s' ≡ commit ∷ asked))

  module _ (checks : Checks) (limits : Limits) (sql tenant_id : String) (row_limit : ℕ)
      (s : List Call) where
    -- Nothing was asked where the statement was refused; and a statement that was let through was
    -- limited, and run after the settings.
    abbrev pub Guarded : Result R → List Call → Type 0
    Guarded r s' =
        ((e : Exn) × (validate_sql checks sql ≡ err e) × (r ≡ err e) × (s' ≡ s))
        ⊎ ((safe_sql : String) × (limited : String) × IsSafe checks safe_sql
            × IsLimited limits row_limit safe_sql limited
            × RanBounded tenant_id limited s r s')
