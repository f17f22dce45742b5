-- ===== src/TextToSql/Validator/Safe.antt =====
-- What a statement that was let through is.
use paquitobot_rag.Prelude.{
  not-false, ◌≡◌, refl, sym, ap, ◌∙◌, ◌⊎◌, inl, inr, String, Bool, true, false, Option, none, some,
  List, ◌||◌, not, str_eq, if◌then◌else◌,
}
use mathlib.Core.Path.{subst}
use paquitobot_rag.Text.{strip_of, rstrip_of, has_any}
use paquitobot_rag.Text.Strip.{strip_of_idem, rstrip_of-has_any, or_false}
use paquitobot_rag.Exec.{Exn, ok, err, sql_not_allowed}
use paquitobot_rag.Exec.Inversion.{guard-ok}
use paquitobot_rag.TextToSql.Validator.{
  Parsed, statements, caught, uncaught, Checks, is_semicolon, is_one, trimmed, fallback, parsed,
  is_refused, is_unsafe, check_text, validate_sql,
}

module _ (checks : Checks) where
  -- The parser that was there found one statement, a SELECT.
  abbrev pub IsOneSelect : String → Type 0
  IsOneSelect text =
      ((keys : List String) × (checks.sqlglot text ≡ statements keys)
        × (is_one "select" keys ≡ true))
      ⊎ ((types : List String) × (checks.sqlglot text ≡ caught)
          × (checks.sqlparse text ≡ some types)
          × (is_one "SELECT" types ≡ true))

  pub record IsSafe (text : String) : Type 0 where
    pub not_empty : str_eq text "" ≡ false
    pub one_statement : has_any is_semicolon text ≡ false
    pub selects : checks.is_select text ≡ true
    pub harmless : checks.is_dangerous text ≡ false
    pub writes_nothing : checks.has_into text ≡ false
    pub parsed_as : IsOneSelect text

  if_ok :
      (b : Bool) (e : Exn) (x y : String)
      → (if b then ok x else err e) ≡ ok y
      → (b ≡ true) × (x ≡ y)
  if_ok true e x y h = (refl, cc)
  if_ok false e x y h = cc

  parsed-ok :
      (text out : String)
      → parsed checks text (checks.sqlglot text) ≡ ok out
      → IsOneSelect text × (text ≡ out)
  parsed-ok text out e = go (checks.sqlglot text) refl e
    where
      with_sqlparse :
          checks.sqlglot text ≡ caught
          → (o : Option (List String)) → checks.sqlparse text ≡ o
          → fallback checks text o ≡ ok out
          → IsOneSelect text × (text ≡ out)
      with_sqlparse failed none found e' = cc
      with_sqlparse failed (some types) found e' =
          let (one, same) = if_ok (is_one "SELECT" types) sql_not_allowed text out e' in
          (inr (types, failed, found, one), same)

      go :
          (x : Parsed)
          → checks.sqlglot text ≡ x
          → parsed checks text x ≡ ok out
          → IsOneSelect text × (text ≡ out)
      go (statements keys) found e' =
          let (one, same) = if_ok (is_one "select" keys) sql_not_allowed text out e' in
          (inl (keys, found, one), same)
      go caught found e' = with_sqlparse found (checks.sqlparse text) refl e'
      go uncaught found e' = cc

  check_text-ok : (text out : String) → check_text checks text ≡ ok out → IsSafe text × (text ≡ out)
  unfolding check_text is_refused is_unsafe
  check_text-ok text out e =
      let (accepted, e₁) = guard-ok (is_refused checks text) sql_not_allowed _ out e in
      let (safe, e₂) = guard-ok (is_unsafe checks text) sql_not_allowed _ out e₁ in
      let (one, same) = parsed-ok text out e₂ in
      let (ended, select) =
        or_false (str_eq text "" || has_any is_semicolon text) (not (checks.is_select text))
          accepted in
      let (given, single) = or_false (str_eq text "") (has_any is_semicolon text) ended in
      let (harmless, nothing) = or_false (checks.is_dangerous text) (checks.has_into text) safe in
      (
        record {
          not_empty = given;
          one_statement = single;
          selects = not-false (checks.is_select text) select;
          harmless = harmless;
          writes_nothing = nothing;
          parsed_as = one;
        },
        same,
      )

  trimmed_safe :
      (sql : String)
      → IsSafe (trimmed checks sql)
      → trimmed checks (trimmed checks sql) ≡ trimmed checks sql
  unfolding trimmed
  trimmed_safe sql safe =
      let text = trimmed checks sql in
      let stripped : strip_of checks.is_space text ≡ text =
        strip_of_idem checks.is_space (rstrip_of is_semicolon (strip_of checks.is_space sql)) in
      ap (λ t. strip_of checks.is_space (rstrip_of is_semicolon t)) stripped
      ∙ ap (strip_of checks.is_space) (rstrip_of-has_any is_semicolon text safe.one_statement)
      ∙ stripped

  -- A statement that is let through is not empty, has no semicolon, begins with SELECT, matches none of
  -- the patterns that are forbidden, and the parser found one SELECT in it; validated again, it is
  -- let through as it is.
  pub validate_sql-IsSafe :
      (sql out : String)
      → validate_sql checks sql ≡ ok out
      → IsSafe out × (validate_sql checks out ≡ ok out)
  unfolding validate_sql
  validate_sql-IsSafe sql out e =
      let (safe, same) = check_text-ok (trimmed checks sql) out e in
      subst (λ t. IsSafe t × (check_text checks (trimmed checks t) ≡ ok t)) same
        (safe, ap (check_text checks) (trimmed_safe sql safe) ∙ e ∙ ap ok (sym same))
