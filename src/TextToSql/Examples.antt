-- ===== src/TextToSql/Examples.antt =====
-- A template that is registered and rendered, and statements that are run.
use Prim.Native.Char.{code}
use paquitobot_rag.Prelude.{
  ◌==◌, ℕ, ◌≡◌, refl, String, Bool, true, false, none, List, [], ◌∷◌, map, not, str_eq,
  if◌then◌else◌,
}
use paquitobot_rag.Text.{lstrip_of, rstrip_of, strip_of, has_any}
use paquitobot_rag.Value.{is_within, member}
use paquitobot_rag.Exec.{ok, err, sql_execution_error}
use paquitobot_rag.TextToSql.Templates.{Regex, Registry}
use paquitobot_rag.TextToSql.Templates.Closed.{without}
use paquitobot_rag.TextToSql.Validator.{
  Checks, statements, trimmed, is_refused, is_unsafe, check_text, validate_sql,
}
use paquitobot_rag.TextToSql.Validator.Safe.{IsSafe, validate_sql-IsSafe}
use paquitobot_rag.TextToSql.Executor.{
  Call, execute_sql, Connection, Limits, with_limit, execute_readonly,
}
use paquitobot_rag.TextToSql.Executor.Guarded.{Guarded}
use paquitobot_rag.TextToSql.Executor.Unbound.{IsBinding, execute_readonly_unbound}

-- Templates whose one text is the name of a placeholder, or none
abbrev one_place : Regex
one_place = record {
  placeholders = λ sql. without "" (sql ∷ []);
  sub = λ key replacement sql. if str_eq sql key then "" else sql;
}

abbrev is_identifier : String → Bool
is_identifier name = not (has_any (λ c. code c == 58) name)

abbrev registry : Registry
registry = ("t", record { name = "t"; sql = "tenant_id"; slots = "tenant_id" ∷ [] }) ∷ []

abbrev checks : Checks
checks = record {
  is_space = λ _. false;
  is_select = λ sql. not (str_eq sql "");
  is_dangerous = λ _. false;
  has_into = λ _. false;
  sqlglot = λ _. statements ("select" ∷ []);
  sqlparse = λ _. none;
}

abbrev limits : Limits
limits = record { has_limit = λ _. true; str_of_limit = λ _. "200" }

valid : validate_sql checks "SELECT :a;" ≡ ok "SELECT :a"
unfolding validate_sql trimmed check_text is_refused is_unsafe strip_of lstrip_of rstrip_of has_any
valid = refl

validate_sql-IsSafe_example :
    IsSafe checks "SELECT :a" × (validate_sql checks "SELECT :a" ≡ ok "SELECT :a")
validate_sql-IsSafe_example = validate_sql-IsSafe checks "SELECT :a;" "SELECT :a" valid

-- A database that refuses every statement with a parameter other than the tenant
abbrev names_of : String → List String
names_of text = if str_eq text "SELECT :a" then "a" ∷ [] else []

abbrev answers : List Call → Call → Bool
answers s (execute_sql statement) =
    is_within (names_of statement.text) (map (λ p. p.0) statement.parameters)
answers s call = true

abbrev server : Connection ℕ
server = record { returns = answers; rows = λ _ _. 1 }

binds : IsBinding server names_of
binds s statement unbound = unbound

execute_readonly_unbound_example :
    (execute_readonly server checks limits "SELECT :a;" "t" 200 []).0 ≡ err sql_execution_error
unfolding with_limit is_within member
execute_readonly_unbound_example =
    execute_readonly_unbound server names_of checks limits "SELECT :a;" "SELECT :a" "t" 200 [] binds
      valid refl
