-- ===== src/Redaction.antt =====
-- app/security/redaction.py, and `safe_message` and `_safe_dict` of app/core/errors.py: masking what looks like a
-- credential. The substitutions of regular expressions are parameters; a tuple is a list.
pub mod Masked
pub mod Examples
use paquitobot_rag.Prelude.{String, Bool, true, false, List, [], ◌∷◌, str_eq, if◌then◌else◌}
use paquitobot_rag.Value.{
  Value, Fields, Items, null, bool, int, float, str, time, uuid, list, dict, end, field, nil, cons,
  member,
}

-- `pattern.sub(_MASK, s)` of the four patterns, and `str.lower`
pub record Patterns : Type 0 where
  pub sub_fernet : String → String
  pub sub_bearer : String → String
  pub sub_pg_url : String → String
  pub sub_long_blob : String → String
  pub lower : String → String

abbrev pub mask : String
mask = "***REDACTED***"

-- `SENSITIVE_KEYS`
abbrev pub sensitive_keys : List String
sensitive_keys =
    "authorization" ∷ "token" ∷ "ciphertext" ∷ "password" ∷ "database_url" ∷ "supabase_database_url"
    ∷ "tenant_token_key" ∷ "backend_secret" ∷ "gemini_api_key" ∷ "canvas_api_token" ∷ "api_key"
    ∷ "secret" ∷ []

module _ (p : Patterns) where
  -- `redact_message`
  unfoldable pub redact_message : String → String
  redact_message message =
      if str_eq message "" then message else p.sub_pg_url (p.sub_bearer (p.sub_fernet message))

  -- `safe_message`
  unfoldable pub safe_message : String → String
  safe_message message =
      if str_eq message ""
      then message
      else p.sub_long_blob (p.sub_pg_url (p.sub_bearer (p.sub_fernet message)))

  abbrev pub is_sensitive : String → Bool
  is_sensitive key = member (p.lower key) sensitive_keys

  unfoldable mutual
    unfolding redact_message

    -- `_redact_value`
    pub redact_value : Value → Value
    redact_value (dict fields) = dict (redact_dict fields)
    redact_value (list items) = list (redact_items items)
    redact_value (str s) = str (redact_message s)
    redact_value null = null
    redact_value (bool b) = bool b
    redact_value (int n) = int n
    redact_value (float n r) = float n r
    redact_value (time t) = time t
    redact_value (uuid u) = uuid u

    -- `redact_dict`
    pub redact_dict : Fields → Fields
    redact_dict end = end
    redact_dict (field key value rest) =
        let value' = redact_value value in
        field key (if is_sensitive key then str mask else value') (redact_dict rest)

    pub redact_items : Items → Items
    redact_items nil = nil
    redact_items (cons value rest) = cons (redact_value value) (redact_items rest)

  unfoldable mutual
    unfolding safe_message

    -- `_safe_dict`, of a payload that is not `None`: in a list, only the dicts are masked.
    pub safe_dict : Fields → Fields
    safe_dict end = end
    safe_dict (field key value rest) = field key (safe_value value) (safe_dict rest)

    pub safe_value : Value → Value
    safe_value (str s) = str (safe_message s)
    safe_value (dict fields) = dict (safe_dict fields)
    safe_value (list items) = list (safe_items items)
    safe_value null = null
    safe_value (bool b) = bool b
    safe_value (int n) = int n
    safe_value (float n r) = float n r
    safe_value (time t) = time t
    safe_value (uuid u) = uuid u

    pub safe_items : Items → Items
    safe_items nil = nil
    safe_items (cons value rest) = cons (safe_dicts value) (safe_items rest)

    pub safe_dicts : Value → Value
    safe_dicts (dict fields) = dict (safe_dict fields)
    safe_dicts (str s) = str s
    safe_dicts (list items) = list items
    safe_dicts null = null
    safe_dicts (bool b) = bool b
    safe_dicts (int n) = int n
    safe_dicts (float n r) = float n r
    safe_dicts (time t) = time t
    safe_dicts (uuid u) = uuid u
