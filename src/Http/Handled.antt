-- ===== src/Http/Handled.antt =====
-- What a handler answers.
use paquitobot_rag.Prelude.{
  ℕ, ◌≡◌, refl, sym, ap, ◌∙◌, String, true, false, false≢true, Option, none, some, suc, str_eq,
  str_eq_iff, inl, inr, Bool-cases,
}
use paquitobot_rag.Text.{text_length, is_between}
use paquitobot_rag.Value.{Fields, str, field, end}
use paquitobot_rag.Exec.{Exn, ok, pure, lift, modify, ◌>>=◌}
use paquitobot_rag.Redaction.{Patterns}
use paquitobot_rag.Http.{
  Scope, Uuids, Detail, ErrorBody, new_correlation_id, bound_correlation_id, code_of, message_of,
  is_error_body, error_body, error_response, answer_of, log_error, log_and_respond,
  http_exception_handler, unhandled_exception_handler,
}
use paquitobot_rag.Http.App.{Exceptions, handle_any}

unfit_length : (body : ErrorBody) → text_length body.correlation_id ≡ 0 → is_error_body body ≡ false
unfolding is_error_body
unfit_length body zero_long = elim (Bool-cases (is_between 1 64 body.code)) [
  | inl code ↦ elim (Bool-cases (is_between 1 512 body.message)) [
    | inl message ↦ rw (code, message, zero_long) refl
    | inr other ↦ rw (code, other) refl
  ]
  | inr other ↦ rw (other) refl
]

fitting_id : (body : ErrorBody) → is_error_body body ≡ true → str_eq body.correlation_id "" ≡ false
unfolding text_length
fitting_id body fits = elim (Bool-cases (str_eq body.correlation_id "")) [
  | inl empty ↦
      elim (false≢true (
        sym (unfit_length body (ap text_length ((str_eq_iff body.correlation_id "").0 empty)))
        ∙ fits)) [ ]
  | inr given ↦ given
]

-- A bound id that fits an error's body is used.
bound-Fits :
    (uuids : Uuids) (body : ErrorBody) (s : Scope)
    → is_error_body body ≡ true
    → s.bound ≡ some body.correlation_id
    → bound_correlation_id uuids s ≡ (ok body.correlation_id, s)
unfolding bound_correlation_id pure
bound-Fits uuids body s fits bound = let given = fitting_id body fits in rw (bound, given) refl

-- Without a bound id, one is drawn.
drawn_anew :
    (uuids : Uuids) (s : Scope)
    → s.bound ≡ none
    → bound_correlation_id uuids s ≡ (ok (uuids.uuid4 s.drawn), record s { drawn = suc s.drawn })
unfolding bound_correlation_id new_correlation_id
drawn_anew uuids s unbound = rw (unbound) refl

module _ (uuids : Uuids) (p : Patterns) where
  error_response-ok :
      (status : ℕ) (code message id : String) (details : Option Fields) (s : Scope)
      → is_error_body (error_body p code message id details) ≡ true
      → error_response p status code message id details
        ≡ ok (answer_of status (error_body p code message id details))
  unfolding error_response
  error_response-ok status code message id details s fits = rw (fits) refl

  pub http_handled :
      (http_code : ℕ → String) (status : ℕ) (detail : Detail) (id : String) (s : Scope)
      → s.bound ≡ some id
      → let body =
          error_body p
            (code_of (http_code status) detail)
            (message_of (http_code status) detail)
            id
            none in
        is_error_body body ≡ true
        → (http_exception_handler uuids p http_code status detail s).0 ≡ ok (answer_of status body)
  unfolding http_exception_handler log_and_respond log_error ◌>>=◌ lift modify
  http_handled http_code status detail id s bound fits =
      let body =
        error_body p (code_of (http_code status) detail) (message_of (http_code status) detail) id
          none in
      rw
        (
          bound-Fits uuids body s fits bound,
          error_response-ok status (code_of (http_code status) detail)
              (message_of (http_code status) detail) id none s fits,
        )
        refl

  abbrev pub unhandled_body : Exceptions → Exn → ℕ → ErrorBody
  unhandled_body exceptions e n =
      error_body p "internal_error" "An unexpected error occurred" (uuids.uuid4 n)
        (some (field "error_class" (str (exceptions.class_of e)) end))

  pub any_handled :
      (exceptions : Exceptions) (e : Exn) (s : Scope)
      → s.bound ≡ none
      → is_error_body (unhandled_body exceptions e s.drawn) ≡ true
      → (handle_any uuids p exceptions e s).0
        ≡ ok (answer_of 500 (unhandled_body exceptions e s.drawn))
  unfolding handle_any unhandled_exception_handler log_error ◌>>=◌ lift modify
  any_handled exceptions e s unbound fits =
      rw
        (
          drawn_anew uuids s unbound,
          error_response-ok 500 "internal_error" "An unexpected error occurred"
              (uuids.uuid4 s.drawn) (some (field "error_class" (str (exceptions.class_of e)) end)) s
              fits,
        )
        refl
