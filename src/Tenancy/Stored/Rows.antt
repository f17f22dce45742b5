-- ===== src/Tenancy/Stored/Rows.antt =====
-- What the queries of app/services/tenant_service.py find after an insert or a rotation.
use paquitobot_rag.Prelude.{
  ℕ, String, ◌≡◌, sym, ap, ◌∙◌, true, false, Option, none, some, List, [], ◌∷◌, ◌++◌, ◌==◌, str_eq,
  str_eq_iff, arith, inl, inr, Bool-cases,
}
use paquitobot_rag.Exec.{ok}
use paquitobot_rag.Query.{select, scalar_one_or_none, update_where}
use paquitobot_rag.Query.Laws.{
  select-update_where_ne, select-insert_ne, scalar-update_where, scalar-insert,
}
use paquitobot_rag.Tenancy.{EncryptedToken, TenantRecord, assign, assign_text}
use paquitobot_rag.Tenancy.Stored.{
  CanvasCredential, of_user, of_tenant, envelope_of, new_credential, rotate,
}

abbrev pub envelope_in : Option CanvasCredential → Option EncryptedToken
envelope_in none = none
envelope_in (some row) = some (envelope_of row)

of_user-ne :
    (u v : String) (row : TenantRecord)
    → str_eq u v ≡ false
    → of_user u row ≡ true
    → of_user v row ≡ false
of_user-ne u v row ne h = ap (λ x. str_eq x v) ((str_eq_iff row.backend_user_id u).0 h) ∙ ne

of_tenant-ne :
    (t u : ℕ) (row : CanvasCredential)
    → t == u ≡ false
    → of_tenant t row ≡ true
    → of_tenant u row ≡ false
of_tenant-ne t u row ne h = ground arith

module _ (rows : List TenantRecord) (user : String) (made : TenantRecord) where
  -- A user without a tenant finds the inserted one, another user what it found.
  pub find-insert :
      (f : String → Option TenantRecord) (u : String)
      → of_user user made ≡ true
      → ((v : String) → scalar_one_or_none (select (of_user v) rows) ≡ ok (f v))
      → f user ≡ none
      → scalar_one_or_none (select (of_user u) (rows ++ made ∷ [])) ≡ ok (assign_text user made f u)
  find-insert f u own found new = elim (Bool-cases (str_eq user u)) [
    | inl same ↦
        rw (same, sym ((str_eq_iff user u).0 same))
          (scalar-insert (of_user user) made rows own (found user ∙ ap ok new))
    | inr other ↦
        rw (other, select-insert_ne (of_user u) made rows (of_user-ne user u made other own))
          (found u)
  ]

-- What a query for `j` finds in the rows, as an envelope.
abbrev pub HasEnvelope : List CanvasCredential → ℕ → Option EncryptedToken → Type 0
HasEnvelope rows j envelope =
    (row : Option CanvasCredential) × (scalar_one_or_none (select (of_tenant j) rows) ≡ ok row)
    × (envelope_in row ≡ envelope)

module _ (rows : List CanvasCredential) (t : ℕ) (envelope : EncryptedToken)
    (f : ℕ → Option EncryptedToken) (j : ℕ) (others : HasEnvelope rows j (f j)) where
  pub HasEnvelope-insert :
      scalar_one_or_none (select (of_tenant t) rows) ≡ ok none
      → HasEnvelope (rows ++ new_credential t envelope ∷ []) j (assign t envelope f j)
  HasEnvelope-insert none_yet = elim (Bool-cases (t == j)) [
    | inl same ↦ (
      some (new_credential t envelope),
      scalar-insert (of_tenant j) (new_credential t envelope) rows same (ground (arith, none_yet)),
      ground arith,
    )
    | inr other ↦ (
      others.0,
      ap scalar_one_or_none (select-insert_ne (of_tenant j) (new_credential t envelope) rows other)
          ∙ others.1,
      ground (arith, others.2),
    )
  ]

  pub HasEnvelope-rotate :
      (now : ℕ) (row : CanvasCredential)
      → scalar_one_or_none (select (of_tenant t) rows) ≡ ok (some row)
      → HasEnvelope
          (update_where (of_tenant t) (rotate envelope now) rows)
          j
          (assign t envelope f j)
  HasEnvelope-rotate now row there = elim (Bool-cases (t == j)) [
    | inl same ↦
        let here : j ≡ t = ground arith in
        (
          some (rotate envelope now row),
          rw (here)
              (scalar-update_where (of_tenant t) (rotate envelope now) row rows (λ x h. h) there),
          ground arith,
        )
    | inr other ↦ (
      others.0,
      ap scalar_one_or_none (
            select-update_where_ne (of_tenant t) (of_tenant j) (rotate envelope now) rows
              (λ x. of_tenant-ne t j x other) (λ x. of_tenant-ne t j x other))
          ∙ others.1,
      ground (arith, others.2),
    )
  ]
