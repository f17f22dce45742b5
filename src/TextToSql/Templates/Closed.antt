-- ===== src/TextToSql/Templates/Closed.antt =====
-- What a rendered template has left of its placeholders.
use Prim.Native.String.{◌++◌ as append}
use paquitobot_rag.Prelude.{
  not-false, ◌≡◌, inl, inr, String, Bool, true, List, [], ◌∷◌, not, All, Bool-cases, str_eq,
  if◌then◌else◌,
}
use paquitobot_rag.Exec.Keeps.{Keeps, keeps_rules}
use paquitobot_rag.TextToSql.Templates.{
  Regex, SqlTemplate, Registry, put_template, is_declared, register, default_allow_list,
}

-- The list without a key
unfoldable pub without : String → List String → List String
without key [] = []
without key (x ∷ xs) = let rest = without key xs in if str_eq x key then rest else x ∷ rest

-- `re.sub` with a colon and the key removes the placeholders of the key and no others, where the key is
-- an identifier: between its braces it matches nothing else, and the colon begins no placeholder.
abbrev pub IsSubstituting : (String → Bool) → Regex → Type 0
IsSubstituting is_identifier regex =
    (key sql : String)
    → is_identifier key ≡ true
    → regex.placeholders (regex.sub key (append ":" key) sql) ≡ without key (regex.placeholders sql)

module _ (regex : Regex) where
  -- A template has a place for the tenant, and all of its placeholders are slots.
  abbrev pub IsSound : Registry → Type 0
  IsSound = All (λ entry. is_declared regex entry.1.slots entry.1.sql ≡ true)

  put_template-IsSound :
      (name : String) (t : SqlTemplate) (registry : Registry)
      → is_declared regex t.slots t.sql ≡ true
      → IsSound registry
      → IsSound (put_template name t registry)
  unfolding put_template
  put_template-IsSound name t [] declared sound = (declared, tt)
  put_template-IsSound name t ((n, u) ∷ rest) declared (here, sound) =
      elim (Bool-cases (str_eq n name)) [
        | inl same ↦ rw (same) (declared, sound)
        | inr other ↦ rw (other) (here, put_template-IsSound name t rest declared sound)
      ]

  register-Keeps :
      (name sql : String) (slots : List String) → Keeps IsSound (register regex name sql slots)
  unfolding register
  register-Keeps name sql slots = record {
    run = λ s sound. elim (Bool-cases (not (is_declared regex slots sql))) [
      | inl refused ↦ rw (refused) sound
      | inr declared ↦ rw (declared) (
          put_template-IsSound name (record { name = name; sql = sql; slots = slots }) s
            (not-false (is_declared regex slots sql) declared) sound)
    ];
  }

  default_allow_list-Keeps : Keeps IsSound (default_allow_list regex)
  unfolding default_allow_list
  default_allow_list-Keeps = search (keeps_rules, register-Keeps)
