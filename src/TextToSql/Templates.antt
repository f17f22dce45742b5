-- ===== src/TextToSql/Templates.antt =====
-- The registry of app/text_to_sql/allow_list.py, and the renderings of app/text_to_sql/templates. A set
-- is a list, and `_templates` a list of names with their templates.
pub mod Closed
use Prim.Native.String.{◌++◌ as append}
use paquitobot_rag.Prelude.{
  String, Bool, true, false, Option, none, some, List, [], ◌∷◌, ◌||◌, ◌&&◌, not, map, str_eq,
  if◌then◌else◌,
}
use paquitobot_rag.Value.{member, is_within}
use paquitobot_rag.Exec.{Exn, Result, ok, err, template_not_allowed, Exec, ◌>>◌}

-- `re.findall` of the placeholders, and `re.sub` of the placeholders of a key
pub record Regex : Type 0 where
  pub placeholders : String → List String
  pub sub : String → String → String → String

pub record SqlTemplate : Type 0 where
  pub name : String
  pub sql : String
  pub slots : List String

abbrev pub Registry : Type 0
Registry = List (String × SqlTemplate)

unfoldable pub find_template : String → Registry → Option SqlTemplate
find_template name [] = none
find_template name ((n, t) ∷ rest) =
    let found = find_template name rest in if str_eq n name then some t else found

unfoldable pub put_template : String → SqlTemplate → Registry → Registry
put_template name t [] = (name, t) ∷ []
put_template name t ((n, u) ∷ rest) =
    let rest' = put_template name t rest in if str_eq n name then (n, t) ∷ rest else (n, u) ∷ rest'

module _ (regex : Regex) where
  abbrev pub is_declared : List String → String → Bool
  is_declared slots sql =
      member "tenant_id" (regex.placeholders sql) && is_within (regex.placeholders sql) slots

  -- `register`
  unfoldable pub register : String → String → List String → Exec Registry (Unit {0})
  unfolding put_template
  register name sql slots s =
      if not (is_declared slots sql)
      then (err template_not_allowed, s)
      else (ok tt, put_template name (record { name = name; sql = sql; slots = slots }) s)

  -- The loop over the keys: `":" + key`, which is ":tenant_id" for that key.
  unfoldable pub render : List String → String → String
  render [] sql = sql
  render (key ∷ keys) sql = render keys (regex.sub key (append ":" key) sql)

  abbrev pub render_template : List String → Option SqlTemplate → Result String
  render_template keys none = err template_not_allowed
  render_template keys (some template) =
      if not (is_within keys template.slots) || not (is_within template.slots keys)
      then err template_not_allowed
      else ok (render keys template.sql)

  -- `resolve`: the values of the slots are not looked at.
  unfoldable pub resolve : {V : Type 0} → Registry → String → List (String × V) → Result String
  unfolding find_template render
  resolve registry template_name slots =
      render_template (map (λ slot. slot.0) slots) (find_template template_name registry)

  -- `default_allow_list`
  unfoldable pub default_allow_list : Exec Registry (Unit {0})
  default_allow_list =
      register "assignments_due_between"
        "SELECT id, name, due_at FROM assignments WHERE tenant_id = {{tenant_id}} AND due_at BETWEEN :start_at AND :end_at AND deleted_at IS NULL"
        ("tenant_id" ∷ "start_at" ∷ "end_at" ∷ [])
      >> register "assignment_score"
          "SELECT a.id, a.name, s.score, s.grade FROM assignments a JOIN submissions s ON s.assignment_id = a.id AND s.tenant_id = a.tenant_id WHERE a.tenant_id = {{tenant_id}} AND a.id = :assignment_id AND s.deleted_at IS NULL"
          ("tenant_id" ∷ "assignment_id" ∷ [])
      >> register "course_aggregate"
          "SELECT course_id, COUNT(*) AS assignment_count, AVG(points_possible) AS average_points FROM assignments WHERE tenant_id = {{tenant_id}} AND course_id = :course_id AND deleted_at IS NULL GROUP BY course_id"
          ("tenant_id" ∷ "course_id" ∷ [])
      >> register "submission_status_for_assignment"
          "SELECT id, workflow_state, submitted_at, late, missing FROM submissions WHERE tenant_id = {{tenant_id}} AND assignment_id = :assignment_id AND deleted_at IS NULL"
          ("tenant_id" ∷ "assignment_id" ∷ [])
      >> register "class_score_statistics"
          "SELECT AVG(score) AS average_score, MIN(score) AS minimum_score, MAX(score) AS maximum_score, COUNT(score) AS scored_count FROM submissions WHERE tenant_id = {{tenant_id}} AND course_id = :course_id AND deleted_at IS NULL"
          ("tenant_id" ∷ "course_id" ∷ [])
