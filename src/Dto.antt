-- ===== src/Dto.antt =====
-- app/canvas/dto.py: the DTO classes and the removal of other students' data. An instance is what
-- its `model_dump` gives, the declared fields with `None` for what is missing. Validation and
-- dumping are pydantic's, the parameter `Pydantic`.
pub mod Schema
pub mod Examples
pub mod Peers
use paquitobot_rag.Prelude.{
  ℕ, zero, suc, String, Bool, true, false, Option, none, some, List, [], ◌∷◌, not, ◌&&◌, ◌||◌, ◌==◌,
  any, if◌then◌else◌, str_eq,
}
use paquitobot_rag.Exec.{Result, ok, err, validation_error}
use paquitobot_rag.Value.{
  Value, Items, Fields, null, bool, int, float, str, uuid, list, dict, nil, cons, end, field, get,
  has_key, pop, put, keep, map_values, is_null, is_dict, member,
}
use paquitobot_rag.Value.Int.{ℤ, pos, ◌==ℤ◌}
use paquitobot_rag.Value.Text.{int_of_text}
use paquitobot_rag.Dto.Schema.{DtoClass}

pub record Pydantic : Type 0 where
  -- `cls.model_validate(payload)`: the dump of the instance, or none on a `ValidationError`
  pub model_validate : DtoClass → Fields → Option Fields
  -- what `model_dump(exclude_none=True)` makes of a field's value, and with `mode="json"`
  pub dump : Value → Value
  pub dump_json : Value → Value

abbrev pub found_int : Option ℤ → ℤ → Bool
found_int none expected = false
found_int (some n) expected = n ==ℤ expected

-- `_same_user` for the tenant's own Canvas id, an `int`. A value that `int()` refuses is compared
-- as a text; it is no numeral, so it differs from that of an integer.
unfoldable pub same_user : Value → ℤ → Bool
same_user (int n) expected = n ==ℤ expected
same_user (bool b) expected = pos (if b then 1 else 0) ==ℤ expected
same_user (float n _) expected = n ==ℤ expected
same_user (str s) expected = found_int (int_of_text s) expected
same_user (uuid n) expected = pos n ==ℤ expected
same_user _ expected = false

-- `_enrollment_user_id`
nested_user_id : Value → Value
nested_user_id (dict user) = if has_key "id" user then get "id" user else get "user_id" user
nested_user_id _ = null

unfoldable pub enrollment_user_id : Fields → Value
unfolding nested_user_id
enrollment_user_id f =
    if is_null (get "user_id" f) then nested_user_id (get "user" f) else get "user_id" f

abbrev enrollment_marks : List String
enrollment_marks =
    "role" ∷ "role_id" ∷ "enrollment_state" ∷ "limit_privileges_to_course_section" ∷ "course_id"
    ∷ "user" ∷ []

-- `_looks_like_enrollment`
unfoldable pub looks_like_enrollment : Fields → Bool
looks_like_enrollment f =
    (has_key "user_id" f || is_dict (get "user" f)) && any (λ k. has_key k f) enrollment_marks

-- `_SENSITIVE_SUBMISSION_FIELDS`
abbrev pub sensitive_submission_fields : List String
sensitive_submission_fields = "body" ∷ "preview_url" ∷ "url" ∷ "attachments" ∷ []

pop_all : List String → Fields → Fields
pop_all [] f = f
pop_all (k ∷ ks) f = pop_all ks (pop k f)

module _ (tenant_user_id : ℤ) where
  -- The nested submission of someone else loses its sensitive fields.
  strip_submission_value : Value → Value
  unfolding pop_all
  strip_submission_value (dict s) =
      if same_user (get "user_id" s) tenant_user_id
      then dict s
      else dict (pop_all sensitive_submission_fields s)
  strip_submission_value v = v

  strip_submission : Fields → Fields
  unfolding strip_submission_value
  strip_submission f =
      if is_dict (get "submission" f)
      then put "submission" (strip_submission_value (get "submission" f)) f
      else f

  -- A payload that is itself a submission of someone else.
  strip_own_fields : Fields → Fields
  unfolding pop_all
  strip_own_fields f =
      if has_key "user_id" f
        && any (λ k. has_key k f) sensitive_submission_fields
        && not (same_user (get "user_id" f) tenant_user_id)
      then pop_all sensitive_submission_fields f
      else f

  -- The whole of `_strip_mapping` but its loop over the enrollments, whose outcome is `stripped`.
  unfoldable pub strip_rest : Fields → Fields → Option Fields
  unfolding strip_submission strip_own_fields
  strip_rest original stripped =
      if looks_like_enrollment original
        && not (same_user (enrollment_user_id original) tenant_user_id)
      then none
      else some (strip_own_fields (strip_submission stripped))

  abbrev pub cons_some : Option Fields → Items → Items
  cons_some none rest = rest
  cons_some (some f) rest = cons (dict f) rest

  unfoldable mutual
    -- `result["enrollments"] = kept`
    pub strip_enrollments : Fields → Fields
    strip_enrollments end = end
    strip_enrollments (field k v f) =
        let v' = strip_list v in
        field k (if str_eq k "enrollments" then v' else v) (strip_enrollments f)

    pub strip_list : Value → Value
    strip_list (list items) = list (strip_items items)
    strip_list v = v

    pub strip_items : Items → Items
    strip_items nil = nil
    strip_items (cons v rest) = cons_some (strip_item v) (strip_items rest)

    -- One enrollment: dropped unless it is a dict and the tenant's own.
    pub strip_item : Value → Option Fields
    strip_item (dict f) =
        let cleaned = strip_rest f (strip_enrollments f) in
        if same_user (enrollment_user_id f) tenant_user_id then cleaned else none
    strip_item v = none

  -- `_strip_mapping`
  unfoldable pub strip_mapping : Fields → Option Fields
  unfolding strip_enrollments strip_rest
  strip_mapping f = strip_rest f (strip_enrollments f)

-- `strip_peer_data` of a DTO: none if the whole record is someone else's.
abbrev revalidate : Pydantic → DtoClass → Option Fields → Result (Option Fields)
revalidate p c none = ok none
revalidate p c (some cleaned) = elim (p.model_validate c cleaned) [
  | none ↦ err validation_error
  | some dto ↦ ok (some dto)
]

is_enrollment : DtoClass → Bool
is_enrollment DtoClass.enrollment = true
is_enrollment _ = false

unfoldable pub strip_peer_data : Pydantic → DtoClass → Fields → ℤ → Result (Option Fields)
unfolding is_enrollment
strip_peer_data p c dto tenant_user_id =
    if is_enrollment c && not (same_user (enrollment_user_id dto) tenant_user_id)
    then ok none
    else revalidate p c (strip_mapping tenant_user_id dto)

-- The keys that `to_payload` leaves out, or of a user the keys that it takes.
unfoldable pub in_payload : DtoClass → String → Bool
in_payload DtoClass.user k =
    member k ("name" ∷ "sortable_name" ∷ "short_name" ∷ "locale" ∷ "effective_locale" ∷ [])
in_payload DtoClass.enrollment k = not (member k ("id" ∷ "type" ∷ "user" ∷ []))
in_payload DtoClass.course k = not (member k ("id" ∷ "enrollments" ∷ "calendar" ∷ []))
in_payload DtoClass.submission k = not (
    member k (
      "id" ∷ "grader_id" ∷ "attachments" ∷ "sticker" ∷ "custom_grade_status_id"
      ∷ "grading_period_id" ∷ []))
in_payload DtoClass.assignment k = not (member k ("id" ∷ "submission" ∷ []))
in_payload _ k = true

-- `model_dump(exclude_none=True, exclude=…)`
unfoldable pub dump_payload : Pydantic → DtoClass → Fields → Fields
dump_payload p c dto = map_values p.dump (keep (λ k v. not (is_null v) && in_payload c k) dto)

abbrev with_calendar : Value → Fields → Fields
with_calendar (dict calendar) payload =
    if is_null (get "ics" calendar)
    then payload
    else put "calendar_ics" (get "ics" calendar) payload
with_calendar _ payload = payload

-- `to_payload`
unfoldable pub to_payload : Pydantic → DtoClass → Fields → Fields
unfolding dump_payload in_payload
to_payload p DtoClass.course dto =
    with_calendar (get "calendar" dto) (dump_payload p DtoClass.course dto)
to_payload p c dto = dump_payload p c dto
