-- ===== src/TextToSql/Executor.antt =====
-- app/text_to_sql/executor.py. The state is what the session has been asked, last first; its answers
-- are a parameter.
pub mod Guarded
pub mod Unbound
use Prim.Native.String.{◌++◌ as append}
use paquitobot_rag.Prelude.{ℕ, String, Bool, true, false, List, [], ◌∷◌, if◌then◌else◌}
use paquitobot_rag.Exec.{
  Exn, Result, ok, err, sql_execution_error, Exec, pure, raise, lift, ◌>>=◌, ◌>>◌,
}
use paquitobot_rag.TextToSql.Validator.{Checks, validate_sql}

-- A text with the parameters that it is executed with.
pub record Statement : Type 0 where
  pub text : String
  pub parameters : List (String × String)

pub data Call : Type 0 where
  begin commit rollback : Call
  execute_sql : Statement → Call

-- A session by what it was asked before: whether a call returns, and the rows of a statement.
pub record Connection (R : Type 0) : Type 0 where
  pub returns : List Call → Call → Bool
  pub rows : List Call → Statement → R

-- `\bLIMIT\s+\d+\b`, and `str` of the limit of rows
pub record Limits : Type 0 where
  pub has_limit : String → Bool
  pub str_of_limit : ℕ → String

-- `_with_limit`
unfoldable pub with_limit : Limits → String → ℕ → String
with_limit limits sql row_limit =
    if limits.has_limit sql
    then sql
    else append "SELECT * FROM ("
        (append sql (append ") AS bounded_query LIMIT " (limits.str_of_limit row_limit)))

abbrev pub plain : String → Statement
plain text = record { text = text; parameters = [] }

abbrev pub for_tenant : String → String → Statement
for_tenant tenant_id text = record { text = text; parameters = ("tenant_id", tenant_id) ∷ [] }

-- What is set for the transaction, before the query.
abbrev pub settings : String → List Statement
settings tenant_id =
    plain "SET LOCAL default_transaction_read_only = on"
    ∷ plain "SET LOCAL statement_timeout = 2000"
    ∷ plain "SET LOCAL idle_in_transaction_session_timeout = 10000"
    ∷ for_tenant tenant_id "SET LOCAL app.tenant_id = :tenant_id"
    ∷ []

module _ {R : Type 0} (server : Connection R) where
  -- A call is recorded; every exception of it is taken by the `except Exception` below.
  unfoldable pub call : Call → Exec (List Call) (Unit {0})
  call c s = if server.returns s c then (ok tt, c ∷ s) else (err sql_execution_error, c ∷ s)

  unfoldable pub set_all : List Statement → Exec (List Call) (Unit {0})
  unfolding call
  set_all [] = pure tt
  set_all (x ∷ xs) = call (execute_sql x) >> set_all xs

  unfoldable pub query_rows : Statement → Exec (List Call) R
  unfolding call
  query_rows statement s = (call (execute_sql statement) >> pure (server.rows s statement)) s

  -- The end of `with session.begin()`: an exception goes on after the rollback.
  abbrev pub end_with : Result R → Exec (List Call) R
  end_with (ok rows) s = (call commit >> pure rows) s
  end_with (err e) s = (err sql_execution_error, rollback ∷ s)

  unfoldable pub inside_begin : Exec (List Call) R → Exec (List Call) R
  inside_begin body s = let (r, s') = body s in end_with r s'

  unfoldable pub run_bounded : String → String → Exec (List Call) R
  run_bounded tenant_id bounded =
      call begin
      >> inside_begin (set_all (settings tenant_id) >> query_rows (for_tenant tenant_id bounded))

  -- `execute_readonly`
  unfoldable pub execute_readonly : Checks → Limits → String → String → ℕ → Exec (List Call) R
  execute_readonly checks limits sql tenant_id row_limit =
      lift (validate_sql checks sql) >>= λ safe_sql.
      run_bounded tenant_id (with_limit limits safe_sql row_limit)
