-- ===== src/Sync/Resources/Preserved.antt =====
-- Each step of Resources.antt keeps what the repository's writes keep, whatever Canvas answers and
-- wherever the step stops.
use paquitobot_rag.Prelude.{ℕ, String, Bool, Option, none, some, List}
use paquitobot_rag.Exec.{Exn, Exec}
use paquitobot_rag.Exec.Keeps.{Keeps, Keeps-zoom, keeps_rules}
use paquitobot_rag.Value.{Value, Fields, null, dict}
use paquitobot_rag.Value.Int.{ℤ}
use paquitobot_rag.Dto.Schema.{DtoClass}
use paquitobot_rag.Models.{Model, Row}
use paquitobot_rag.Session.{Session, flush}
use paquitobot_rag.Repository.{find_row, upsert_by_canvas_id, soft_delete_if_inactive}
use paquitobot_rag.Sync.State.{
  Env, Run, Counts, CanvasClient, Endpoint, Params, on_session, put_session, raise_ending, count,
  ask, get_json, for_items,
}
use paquitobot_rag.Sync.Resources.{
  store, retire, assert_own, resolve_local_uuid, sync_self_user, upsert_enrollment,
  sync_embedded_dto, sync_embedded, sync_course_dto, read_item, sync_favorite_courses,
  sync_enrollment_dto, catch_missing, sync_fallback_enrollments, upsert_submission,
  sync_submission_value, sync_assignment_dto, sync_course_assignments,
}

-- A property of the session that the repository's three writes for the tenant keep.
pub record IsKept (env : Env) (t : ℕ) (P : Session → Type 0) : Type 0 where
  pub upsert :
      (m : Model) (c : ℤ) (payload : Fields)
      → Keeps P (upsert_by_canvas_id env.server m t c payload)
  pub soft_delete :
      (m : Model) (c : ℤ) (state : Option String)
      → Keeps P (soft_delete_if_inactive env.lower env.server m t c state)
  pub flush_kept : Keeps P (flush env.server)

-- The property of a session, beside one of the local variables that the steps do not touch.
abbrev pub OnRun : (Session → Type 0) → (Option ℕ → Option ℕ → Bool → Type 0) → Run → Type 0
OnRun P L r = P r.session × L r.previous_watermark r.previous_successful_at r.acquired_here

module _ (env : Env) (t : ℕ) (P : Session → Type 0) (L : Option ℕ → Option ℕ → Bool → Type 0)
    (kept : IsKept env t P) where
  pub on_session-Keeps :
      {A : Type 0} (m : Exec Session A) → Keeps P m → Keeps (OnRun P L) (on_session m)
  unfolding on_session
  on_session-Keeps m k =
      Keeps-zoom {P = OnRun P L} {Q = P} (λ r. r.session) put_session m (λ r h. h.0)
        (λ r s h i. (i, h.1)) k

  count-Keeps : (f : Counts → Counts) → Keeps (OnRun P L) (count f)
  unfolding count
  count-Keeps f = record { run = λ r h. h }

  ask-Keeps : {A : Type 0} (answer : ℕ → A) → Keeps (OnRun P L) (ask answer)
  unfolding ask
  ask-Keeps answer = record { run = λ r h. h }

  ruleset run_rules = (keeps_rules, count-Keeps, ask-Keeps)

  find_row-Keeps : (m : Model) (c : ℤ) → Keeps P (find_row m t c)
  unfolding find_row
  find_row-Keeps m c = record { run = λ s h. h }

  get_json-Keeps :
      (client : CanvasClient) (endpoint : Endpoint) → Keeps (OnRun P L) (get_json client endpoint)
  unfolding get_json
  get_json-Keeps client endpoint = search run_rules

  raise_ending-Keeps :
      {B : Type 0} (ending : Option Exn) (acc : B) → Keeps (OnRun P L) (raise_ending ending acc)
  raise_ending-Keeps none acc = search keeps_rules
  raise_ending-Keeps (some e) acc = search keeps_rules

  for_items-Keeps :
      {B : Type 0} (client : CanvasClient) (endpoint : Endpoint) (params : Params) (acc : B)
      (body : Value → B → Exec Run B)
      → ((v : Value) (b : B) → Keeps (OnRun P L) (body v b))
      → Keeps (OnRun P L) (for_items client endpoint params acc body)
  unfolding for_items
  for_items-Keeps client endpoint params acc body k = search (run_rules, raise_ending-Keeps)

  flush-Keeps : Keeps (OnRun P L) (on_session (flush env.server))
  flush-Keeps = on_session-Keeps (flush env.server) kept.flush_kept

  upsert-Keeps :
      (m : Model) (c : ℤ) (payload : Fields)
      → Keeps (OnRun P L) (on_session (upsert_by_canvas_id env.server m t c payload))
  upsert-Keeps m c payload = on_session-Keeps _ (kept.upsert m c payload)

  store-Keeps : (m : Model) (c : ℤ) (payload : Fields) → Keeps (OnRun P L) (store env t m c payload)
  unfolding store
  store-Keeps m c payload = search (run_rules, upsert-Keeps, flush-Keeps) depth 8

  retire-Keeps :
      (m : Model) (c : ℤ) (state : Value) (counted : Counts → Counts)
      → Keeps (OnRun P L) (retire env t m c state counted)
  unfolding retire
  retire-Keeps m c state counted = search (run_rules, on_session-Keeps, kept.soft_delete) depth 8

  assert_own-Keeps : (row : Row) → Keeps (OnRun P L) (assert_own env t row)
  unfolding assert_own
  assert_own-Keeps row = search run_rules

  resolve-Keeps : (m : Model) (c : Option ℤ) → Keeps (OnRun P L) (resolve_local_uuid env t m c)
  unfolding resolve_local_uuid
  resolve-Keeps m none = search run_rules
  resolve-Keeps m (some c) = search (run_rules, on_session-Keeps, find_row-Keeps)

  ruleset step_rules = (
    run_rules, store-Keeps, retire-Keeps, assert_own-Keeps, resolve-Keeps, get_json-Keeps,
    for_items-Keeps,
  )

  pub sync_self_user-Keeps : Keeps (OnRun P L) (sync_self_user env t)
  unfolding sync_self_user
  sync_self_user-Keeps = search step_rules depth 12

  upsert_enrollment-Keeps :
      (dto : Fields) (fallback : Option ℤ)
      → Keeps (OnRun P L) (upsert_enrollment env t dto fallback)
  unfolding upsert_enrollment
  upsert_enrollment-Keeps dto fallback = search step_rules depth 12

  module _ (u : ℤ) where
    upsert_submission-Keeps :
        (dto : Fields) (assignment_id : ℤ)
        → Keeps (OnRun P L) (upsert_submission env t u dto assignment_id)
    unfolding upsert_submission
    upsert_submission-Keeps dto assignment_id = search step_rules depth 12

    sync_embedded-Keeps :
        (course_id : ℤ) (v : Value) (kept : ℕ)
        → Keeps (OnRun P L) (sync_embedded env t u course_id v kept)
    unfolding sync_embedded sync_embedded_dto
    sync_embedded-Keeps course_id (dict dto) kept =
        search (step_rules, upsert_enrollment-Keeps) depth 8
    sync_embedded-Keeps course_id null kept = search step_rules
    sync_embedded-Keeps course_id _ kept = search step_rules

    sync_course_dto-Keeps :
        (dto : Option Fields) (acc : List ℤ × ℕ)
        → Keeps (OnRun P L) (sync_course_dto env t u dto acc)
    unfolding sync_course_dto
    sync_course_dto-Keeps none acc = search step_rules depth 8
    sync_course_dto-Keeps (some dto) acc = search (step_rules, sync_embedded-Keeps) depth 12

    read_item-Keeps : (c : DtoClass) (item : Value) → Keeps (OnRun P L) (read_item env t u c item)
    unfolding read_item
    read_item-Keeps c item = search step_rules depth 8

    pub sync_favorite_courses-Keeps :
        (after : Option ℕ) → Keeps (OnRun P L) (sync_favorite_courses env t u after)
    unfolding sync_favorite_courses
    sync_favorite_courses-Keeps after =
        search (step_rules, read_item-Keeps, sync_course_dto-Keeps) depth 8

    sync_enrollment_dto-Keeps :
        (dto : Option Fields) → Keeps (OnRun P L) (sync_enrollment_dto env t u dto)
    unfolding sync_enrollment_dto
    sync_enrollment_dto-Keeps none = search step_rules
    sync_enrollment_dto-Keeps (some dto) = search (step_rules, upsert_enrollment-Keeps) depth 8

    catch_missing-Keeps :
        (m : Exec Run (Unit {0}))
        → Keeps (OnRun P L) m
        → Keeps (OnRun P L) (catch_missing env t u m)
    unfolding catch_missing
    catch_missing-Keeps m k = record { run = λ r h. k.run r h }

    pub sync_fallback_enrollments-Keeps : Keeps (OnRun P L) (sync_fallback_enrollments env t u)
    unfolding sync_fallback_enrollments
    sync_fallback_enrollments-Keeps =
        search (step_rules, catch_missing-Keeps, read_item-Keeps, sync_enrollment_dto-Keeps) depth 8

    sync_submission-Keeps :
        (assignment_id : ℤ) (v : Value)
        → Keeps (OnRun P L) (sync_submission_value env t u assignment_id v)
    unfolding sync_submission_value
    sync_submission-Keeps assignment_id (dict dto) =
        search (step_rules, upsert_submission-Keeps) depth 8
    sync_submission-Keeps assignment_id null = search step_rules
    sync_submission-Keeps assignment_id _ = search step_rules

    sync_assignment_dto-Keeps :
        (course_uuid : Option ℕ) (dto : Option Fields)
        → Keeps (OnRun P L) (sync_assignment_dto env t u course_uuid dto)
    unfolding sync_assignment_dto
    sync_assignment_dto-Keeps course_uuid none = search step_rules
    sync_assignment_dto-Keeps course_uuid (some dto) =
        search (step_rules, sync_submission-Keeps) depth 12

    pub sync_course_assignments-Keeps :
        (course_id : ℤ) (after : Option ℕ)
        → Keeps (OnRun P L) (sync_course_assignments env t u course_id after)
    unfolding sync_course_assignments
    sync_course_assignments-Keeps course_id after =
        search (step_rules, read_item-Keeps, sync_assignment_dto-Keeps) depth 12
