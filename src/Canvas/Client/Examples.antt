-- ===== src/Canvas/Client/Examples.antt =====
-- A Canvas that answers 503 twice and then 200.
use paquitobot_rag.Prelude.{
  ℕ, zero, suc, ◌≡◌, refl, Bool, none, List, [], ◌∷◌, length, max, str_eq, if◌then◌else◌,
}
use paquitobot_rag.Exec.{Exn, ok, err, Exec, ◌>>=◌, lift}
use paquitobot_rag.Value.{member}
use paquitobot_rag.Canvas.Pagination.{Page}
use paquitobot_rag.Canvas.Client.{
  Request, Net, Answer, transport_error, responded, Transport, resolve_url, is_retryable, translate,
  get_token, send, do_request, request, get,
}
use paquitobot_rag.Canvas.Client.Attempts.{IsRetrying, Sends, get-Sends}

-- A loop as tenacity documents it.
abbrev retry : ℕ → (Exn → Bool) → Exec Net Page → Exec Net Page
retry zero p m s = m s
retry (suc zero) p m s = m s
retry (suc (suc n)) p m s =
    let rest = retry (suc n) p m (m s).1 in
    elim (m s).0 [ ok a ↦ m s | err e ↦ if p e then rest else m s ]

abbrev page_of : ℕ → Page
page_of status = record { status_code = status; body = none; next = none }

abbrev flaky : List Request → Request → Answer
flaky [] r = responded (page_of 503)
flaky (x ∷ []) r = transport_error
flaky (x ∷ y ∷ rest) r = responded (page_of 200)

abbrev transport : Transport
transport = record {
  upper = λ s. if str_eq s "get" then "GET" else s;
  token_provider = λ n. ok "token";
  answer = flaky;
  retrying = retry;
}

abbrev fresh : Net
fresh = record { tokens = 0; sent = [] }

retry-IsRetrying : IsRetrying retry
retry-IsRetrying = record { last = λ p m s. refl; again = λ n p m s. refl }

resolved : resolve_url "https://canvas//" "users/self" ≡ ok "https://canvas/users/self"
unfolding resolve_url
resolved = refl

-- Three attempts get an answer, and two do not.
get_runs :
    ((get transport "https://canvas//" 3 "users/self" [] fresh).0 ≡ ok (page_of 200))
    × (length (get transport "https://canvas//" 3 "users/self" [] fresh).1.sent ≡ 3)
    × ((get transport "https://canvas//" 2 "users/self" [] fresh).0 ≡ err (Exn.request_error none))
unfolding get request resolve_url is_retryable do_request get_token send translate member ◌>>=◌ lift
get_runs = (refl, refl, refl)

get-Sends_example :
    Sends transport "https://canvas/users/self" []
      (max 1 3)
      fresh
      (get transport "https://canvas//" 3 "users/self" [] fresh)
get-Sends_example =
    get-Sends transport "https://canvas//" 3 "users/self" "https://canvas/users/self" [] fresh
      retry-IsRetrying refl resolved
