-- ===== src/Redaction/Examples.antt =====
-- A payload with a secret and a nested token.
use paquitobot_rag.Prelude.{◌≡◌, refl, if◌then◌else◌, str_eq}
use paquitobot_rag.Redaction.{Patterns, redact_dict, redact_message, safe_dict, mask}
use paquitobot_rag.Redaction.Masked.{AreMasksOf, redact_dict-AreMasksOf}
use paquitobot_rag.Value.{Fields, str, list, dict, end, field, nil, cons, member}

abbrev patterns : Patterns
patterns = record {
  sub_fernet = λ s. if str_eq s "gAAAAx" then mask else s;
  sub_bearer = λ s. s;
  sub_pg_url = λ s. s;
  sub_long_blob = λ s. s;
  lower = λ s. if str_eq s "Token" then "token" else s;
}

abbrev payload : Fields
payload =
    field "Token" (str "abc") (
      field "note" (list (cons (str "gAAAAx") (cons (dict (field "secret" (str "s") end)) nil)))
        end)

redact_runs :
    redact_dict patterns payload
    ≡ field "Token" (str mask) (
        field "note" (list (cons (str mask) (cons (dict (field "secret" (str mask) end)) nil))) end)
unfolding redact_dict redact_message member
redact_runs = refl

-- A text in a list is not masked.
safe_runs :
    safe_dict patterns (field "note" (list (cons (str "gAAAAx") nil)) end)
    ≡ field "note" (list (cons (str "gAAAAx") nil)) end
unfolding safe_dict
safe_runs = refl

redact_dict-AreMasksOf_example : AreMasksOf patterns payload (redact_dict patterns payload)
redact_dict-AreMasksOf_example = redact_dict-AreMasksOf patterns payload
