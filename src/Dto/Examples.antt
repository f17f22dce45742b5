-- ===== src/Dto/Examples.antt =====
-- Payloads of two users, of whom 7 is the tenant's own.
use paquitobot_rag.Prelude.{◌≡◌, refl, some}
use paquitobot_rag.Value.{
  Fields, int, str, list, dict, nil, cons, end, field, get, has_key, is_dict, put, pop, is_null,
}
use paquitobot_rag.Value.Int.{pos}
use paquitobot_rag.Value.Text.{int_of_text}
use paquitobot_rag.Dto.{same_user, enrollment_user_id, looks_like_enrollment, strip_mapping}
use paquitobot_rag.Dto.Peers.{AllOwn, strip_mapping-AllOwn}

abbrev own : Fields
own = field "id" (int (pos 1)) (field "user_id" (int (pos 7)) end)

abbrev peer : Fields
peer = field "id" (int (pos 2)) (field "user_id" (str "8") end)

abbrev peer_submission : Fields
peer_submission = field "user_id" (int (pos 8)) (field "body" (str "essay") end)

abbrev course : Fields
course =
    field "enrollments" (list (cons (dict own) (cons (dict peer) nil)))
      (field "submission" (dict peer_submission) end)

abbrev stripped : Fields
stripped =
    field "enrollments" (list (cons (dict own) nil))
      (field "submission" (dict (field "user_id" (int (pos 8)) end)) end)

strip_mapping-course : strip_mapping (pos 7) course ≡ some stripped
unfolding strip_mapping same_user looks_like_enrollment has_key is_dict get put enrollment_user_id
    pop is_null int_of_text
strip_mapping-course = refl

stripped_enrollments : get "enrollments" stripped ≡ list (cons (dict own) nil)
unfolding get
stripped_enrollments = refl

stripped_submission : get "submission" stripped ≡ dict (field "user_id" (int (pos 8)) end)
unfolding get
stripped_submission = refl

strip_mapping-AllOwn_example : AllOwn (pos 7) (cons (dict own) nil)
strip_mapping-AllOwn_example =
    strip_mapping-AllOwn (pos 7) course stripped (cons (dict own) nil) strip_mapping-course
      stripped_enrollments
