-- ===== src/TextToSql/Validator.antt =====
-- `validate_sql` of app/text_to_sql/validator.py.
pub mod Safe
use Prim.Native.Char.{Char, code}
use paquitobot_rag.Prelude.{
  ℕ, String, Bool, true, false, Option, none, some, List, [], ◌∷◌, ◌&&◌, ◌||◌, not, ◌==◌, str_eq,
  if◌then◌else◌,
}
use paquitobot_rag.Text.{strip_of, rstrip_of, has_any}
use paquitobot_rag.Exec.{Exn, Result, ok, err, sql_not_allowed, sql_parse_error}

-- What `sqlglot.parse` gives: the keys of the statements, an exception of the kinds that are caught
-- (ImportError, ValueError, TypeError), or another one, such as its own ParseError.
pub data Parsed : Type 0 where
  statements : List String → Parsed
  caught : Parsed
  uncaught : Parsed

pub record Checks : Type 0 where
  pub is_space : Char → Bool
  -- `^SELECT\b`, `_DANGEROUS` and `\bINTO\b`
  pub is_select : String → Bool
  pub is_dangerous : String → Bool
  pub has_into : String → Bool
  pub sqlglot : String → Parsed
  -- the types that `sqlparse.parse` finds, or none where it cannot be imported
  pub sqlparse : String → Option (List String)

abbrev pub is_semicolon : Char → Bool
is_semicolon c = code c == 59

-- One statement, of the kind
abbrev pub is_one : String → List String → Bool
is_one kind [] = false
is_one kind (x ∷ []) = str_eq x kind
is_one kind (x ∷ y ∷ rest) = false

module _ (checks : Checks) where
  -- `sql.strip().rstrip(";").strip()`
  unfoldable pub trimmed : String → String
  trimmed sql = strip_of checks.is_space (rstrip_of is_semicolon (strip_of checks.is_space sql))

  abbrev pub fallback : String → Option (List String) → Result String
  fallback text none = err sql_not_allowed
  fallback text (some types) = if is_one "SELECT" types then ok text else err sql_not_allowed

  abbrev pub parsed : String → Parsed → Result String
  parsed text (statements keys) = if is_one "select" keys then ok text else err sql_not_allowed
  parsed text caught = fallback text (checks.sqlparse text)
  parsed text uncaught = err sql_parse_error

  unfoldable pub is_refused : String → Bool
  is_refused text = str_eq text "" || has_any is_semicolon text || not (checks.is_select text)

  unfoldable pub is_unsafe : String → Bool
  is_unsafe text = checks.is_dangerous text || checks.has_into text

  unfoldable pub check_text : String → Result String
  unfolding is_refused is_unsafe
  check_text text =
      if is_refused text
      then err sql_not_allowed
      else if is_unsafe text
      then err sql_not_allowed
      else parsed text (checks.sqlglot text)

  -- `validate_sql`
  unfoldable pub validate_sql : String → Result String
  unfolding trimmed check_text
  validate_sql sql = check_text (trimmed sql)
