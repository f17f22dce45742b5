-- ===== src/Redaction/Masked.antt =====
-- What is left after a redaction.
use paquitobot_rag.Prelude.{
  String, ◌≡◌, ◌≢◌, refl, ◌⊎◌, inl, inr, Bool, true, false, List, [], ◌∷◌, str_eq, str_eq_iff,
  Bool-cases,
}
use paquitobot_rag.Redaction.{
  Patterns, redact_message, is_sensitive, redact_value, redact_dict, redact_items,
}
use paquitobot_rag.Value.{
  Value, Fields, Items, null, bool, int, float, str, time, uuid, list, dict, end, field, nil, cons,
  member,
}

-- The keys whose values no log line may show, in lower case
abbrev pub secret_names : List String
secret_names =
    "authorization" ∷ "token" ∷ "ciphertext" ∷ "password" ∷ "database_url" ∷ "supabase_database_url"
    ∷ "tenant_token_key" ∷ "backend_secret" ∷ "gemini_api_key" ∷ "canvas_api_token" ∷ "api_key"
    ∷ "secret" ∷ []

module _ (p : Patterns) where
  -- The patterns are substituted in a text one after the other: of the Fernet envelopes, of the bearer
  -- tokens and of the database URLs; an empty text stays empty.
  abbrev pub IsScrubbed : String → String → Type 0
  IsScrubbed before after =
      ((before ≡ "") × (after ≡ ""))
      ⊎ ((before ≢ "") × (after ≡ p.sub_pg_url (p.sub_bearer (p.sub_fernet before))))

  abbrev pub is_secret : String → Bool
  is_secret key = member (p.lower key) secret_names

  -- A value and what is logged in its place: the same keys and items at any depth, with the mask in
  -- place of the value of a secret key, and every other text scrubbed.
  unfoldable mutual
    pub IsMaskOf : Value → Value → Type 0
    IsMaskOf (dict before) (dict after) = AreMasksOf before after
    IsMaskOf (list before) (list after) = AllMasksOf before after
    IsMaskOf (str before) (str after) = IsScrubbed before after
    IsMaskOf null after = after ≡ null
    IsMaskOf (bool b) after = after ≡ bool b
    IsMaskOf (int n) after = after ≡ int n
    IsMaskOf (float n r) after = after ≡ float n r
    IsMaskOf (time t) after = after ≡ time t
    IsMaskOf (uuid u) after = after ≡ uuid u
    IsMaskOf before after = ⊥

    pub AreMasksOf : Fields → Fields → Type 0
    AreMasksOf end end = Unit {0}
    AreMasksOf (field key value rest) (field key' value' rest') =
        (key' ≡ key)
        × (((is_secret key ≡ true) × (value' ≡ str "***REDACTED***"))
            ⊎ ((is_secret key ≡ false) × IsMaskOf value value'))
        × AreMasksOf rest rest'
    AreMasksOf before after = ⊥

    pub AllMasksOf : Items → Items → Type 0
    AllMasksOf nil nil = Unit {0}
    AllMasksOf (cons value rest) (cons value' rest') = IsMaskOf value value' × AllMasksOf rest rest'
    AllMasksOf before after = ⊥

  redact_message-IsScrubbed : (message : String) → IsScrubbed message (redact_message p message)
  unfolding redact_message
  redact_message-IsScrubbed message = elim (Bool-cases (str_eq message "")) [
    | inl empty ↦
        rw (empty) (inl ((str_eq_iff message "").0 empty, (str_eq_iff message "").0 empty))
    | inr given ↦
        rw (given) (
          inr
            ((λ e. let same : str_eq message "" ≡ true = (str_eq_iff message "").1 e in cc), refl))
  ]

  mutual
    unfolding redact_value redact_dict redact_items IsMaskOf AreMasksOf AllMasksOf

    redact_value-IsMaskOf : (v : Value) → IsMaskOf v (redact_value p v)
    redact_value-IsMaskOf (dict fields) = fields-AreMasksOf fields
    redact_value-IsMaskOf (list items) = redact_items-AllMasksOf items
    redact_value-IsMaskOf (str s) = redact_message-IsScrubbed s
    redact_value-IsMaskOf null = refl
    redact_value-IsMaskOf (bool b) = refl
    redact_value-IsMaskOf (int n) = refl
    redact_value-IsMaskOf (float n r) = refl
    redact_value-IsMaskOf (time t) = refl
    redact_value-IsMaskOf (uuid u) = refl

    fields-AreMasksOf : (d : Fields) → AreMasksOf d (redact_dict p d)
    fields-AreMasksOf end = tt
    fields-AreMasksOf (field key value rest) = (
      refl,
      elim (Bool-cases (is_sensitive p key)) [
        | inl hidden ↦ rw (hidden) (inl (refl, refl))
        | inr shown ↦ rw (shown) (inr (refl, redact_value-IsMaskOf value))
      ],
      fields-AreMasksOf rest,
    )

    redact_items-AllMasksOf : (items : Items) → AllMasksOf items (redact_items p items)
    redact_items-AllMasksOf nil = tt
    redact_items-AllMasksOf (cons value rest) =
        (redact_value-IsMaskOf value, redact_items-AllMasksOf rest)

  -- A redacted dict has the keys and the shape of the payload, at any depth; the value of a key whose
  -- lower case is one of the twelve secret names is the mask, every other text has had the Fernet
  -- envelopes, the bearer tokens and the database URLs substituted, in this order, and every other
  -- value is as it was.
  pub redact_dict-AreMasksOf : (payload : Fields) → AreMasksOf payload (redact_dict p payload)
  redact_dict-AreMasksOf payload = fields-AreMasksOf payload
