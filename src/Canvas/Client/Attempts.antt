-- ===== src/Canvas/Client/Attempts.antt =====
-- What a call of the client sends, and what it hands back.
use paquitobot_rag.Prelude.{
  ℕ, zero, suc, ◌+◌, ◌-◌, str_eq, ◌≤◌, ◌<◌, ◌≡◌, refl, sym, ap, String, Bool, true, false, List, [],
  ◌∷◌, ◌++◌, ◌⊎◌, length, leb, max, All, arith, Bool-cases, inl, inr, ◌∙◌, if◌then◌else◌,
}
use mathlib.Core.Path.{subst}
use mathlib.Core.List.{append_assoc}
use paquitobot_rag.Exec.{Exn, Result, ok, err, method_rejected, Exec, ◌>>=◌, and_then, lift, raise}
use paquitobot_rag.Value.{member}
use paquitobot_rag.Canvas.Pagination.{Page}
use paquitobot_rag.Canvas.Client.{
  Request, Net, Answer, transport_error, responded, Transport, resolve_url, is_retryable, translate,
  get_token, send, do_request, request, get,
}

-- tenacity's documented loop: the last attempt's outcome stands, and so does a value or an exception
-- that is not of the given types; otherwise the function is called again.
pub record IsRetrying (retrying : ℕ → (Exn → Bool) → Exec Net Page → Exec Net Page) : Type 0 where
  pub last : (p : Exn → Bool) (m : Exec Net Page) (s : Net) → retrying 1 p m s ≡ m s
  pub again :
      (n : ℕ) (p : Exn → Bool) (m : Exec Net Page) (s : Net)
      → retrying (suc (suc n)) p m s
        ≡ (elim (m s).0 [ ok a ↦ m s | err e ↦ if p e then retrying (suc n) p m (m s).1 else m s ])

-- What a call may add to the requests that were sent: GETs of one URL with one list of parameters.
abbrev pub IsGetOf : String → List (String × String) → Request → Type 0
IsGetOf url params r = (r.method ≡ "GET") × (r.url ≡ url) × (r.params ≡ params)

-- The outcome of a call that was allowed `most` attempts and has made `made`: a response that is no
-- server error, an exception that is not retried, or the last attempt's exception.
abbrev pub IsFinal : ℕ → ℕ → Result Page → Type 0
IsFinal most made (ok page) = page.status_code < 500
IsFinal most made (err e) = (is_retryable e ≡ false) ⊎ (made ≡ most)

All-append {ℓ} :
    {A : Type 0} (P : A → Type ℓ) (xs ys : List A) → All P xs → All P ys → All P (xs ++ ys)
All-append P [] ys h k = k
All-append P (x ∷ xs) ys (h, hs) k = (h, All-append P xs ys hs k)

length-append : {A : Type 0} (xs ys : List A) → length (xs ++ ys) ≡ length xs + length ys
length-append [] ys = omega arith
length-append (x ∷ xs) ys = omega (arith, length-append xs ys)

module _ (transport : Transport) (url : String) (params : List (String × String)) where
  -- A call from `s` that ends in `p` has made at most `most` attempts, each with a token of its own
  -- and at most one request, and all that it has sent are GETs.
  abbrev pub Sends : ℕ → Net → Result Page × Net → Type 0
  Sends most s p =
      (added : List Request) × (made : ℕ) × (p.1.sent ≡ added ++ s.sent)
      × (p.1.tokens ≡ made + s.tokens)
      × (length added ≤ made)
      × (made ≤ most)
      × All (IsGetOf url params) added
      × IsFinal most made p.0

  translate-IsFinal : (a : Answer) → IsFinal 1 1 (translate a)
  unfolding translate
  translate-IsFinal transport_error = inr refl
  translate-IsFinal (responded page) = elim (Bool-cases (leb 500 page.status_code)) [
    | inl server ↦ rw server (inr refl)
    | inr fine ↦ rw fine (ground arith)
  ]

  attempt : Exec Net Page
  attempt = do_request transport "GET" url params

  attempt-Sends : (s : Net) → Sends 1 s (attempt s)
  unfolding attempt do_request get_token send ◌>>=◌
  attempt-Sends s = go (transport.token_provider s.tokens)
    where
      go :
          (r : Result String)
          → Sends 1 s (
              and_then
                (λ token.
                  send transport
                    (record { method = "GET"; url = url; params = params; token = token }))
                r
                (record s { tokens = suc s.tokens }))
      go (err e) = ([], 1, refl, omega arith, omega arith, omega arith, tt, inr refl)
      go (ok token) =
          let r : Request = record { method = "GET"; url = url; params = params; token = token } in
          (
            r ∷ [],
            1,
            refl,
            omega arith,
            omega arith,
            omega arith,
            ((refl, refl, refl), tt),
            translate-IsFinal (transport.answer s.sent r),
          )

  -- A value ends a call, whatever is left.
  stops : (most : ℕ) (s : Net) (a : Page) → (attempt s).0 ≡ ok a → Sends (suc most) s (attempt s)
  stops most s a e =
      let (added, made, sent, tokens, few, bound, gets, final) = attempt-Sends s in
      (
        added,
        made,
        sent,
        tokens,
        few,
        omega arith,
        gets,
        subst (IsFinal (suc most) made) (sym e) (subst (IsFinal 1 made) e final),
      )

  -- So does an exception that is not retried.
  gives_up :
      (most : ℕ) (s : Net) (x : Exn)
      → (attempt s).0 ≡ err x
      → is_retryable x ≡ false
      → Sends (suc most) s (attempt s)
  gives_up most s x e fatal =
      let (added, made, sent, tokens, few, bound, gets, final) = attempt-Sends s in
      (
        added,
        made,
        sent,
        tokens,
        few,
        omega arith,
        gets,
        subst (IsFinal (suc most) made) (sym e) (inl fatal),
      )

  widen : (most made : ℕ) (r : Result Page) → IsFinal most made r → IsFinal (suc most) (suc made) r
  widen most made (ok page) h = h
  widen most made (err e) (inl fatal) = inl fatal
  widen most made (err e) (inr all) = inr (omega arith)

  -- Any other exception leads to what is left.
  goes_on :
      (most : ℕ) (s : Net) (x : Exn) (p : Result Page × Net)
      → (attempt s).0 ≡ err x
      → is_retryable x ≡ true
      → Sends most (attempt s).1 p
      → Sends (suc most) s p
  goes_on most s x p e again (more, made', sent', tokens', few', bound', gets', final') =
      let (added, made, sent, tokens, few, bound, gets, final) = attempt-Sends s in
      let one : made ≡ 1 = grind (arith, subst (IsFinal 1 made) e final) in
      (
        more ++ added,
        suc made',
        sent' ∙ ap (λ xs. more ++ xs) sent ∙ sym (append_assoc more added s.sent),
        omega arith,
        omega (arith, length-append more added),
        omega arith,
        All-append (IsGetOf url params) more added gets' gets,
        widen most made' p.0 final',
      )

  module _ (law : IsRetrying transport.retrying) where
    abbrev retried : ℕ → Net → Result Page × Net
    retried n = transport.retrying (suc n) is_retryable attempt

    retried-Sends : (n : ℕ) (s : Net) → Sends (suc n) s (retried n s)
    retried-Sends zero s =
        subst (Sends 1 s) (sym (law.last is_retryable attempt s)) (attempt-Sends s)
    retried-Sends (suc n) s =
        subst (Sends (suc (suc n)) s) (sym (law.again n is_retryable attempt s))
          (go (attempt s).0 refl (retried-Sends n (attempt s).1))
      where
        go :
            (r : Result Page)
            → (attempt s).0 ≡ r
            → Sends (suc n) (attempt s).1 (retried n (attempt s).1)
            → Sends (suc (suc n)) s (elim r [
              | ok a ↦ attempt s
              | err e ↦ if is_retryable e then retried n (attempt s).1 else attempt s
            ])
        go (ok a) e rest = stops (suc n) s a e
        go (err x) e rest = elim (Bool-cases (is_retryable x)) [
          | inl again ↦ rw again (goes_on (suc n) s x (retried n (attempt s).1) e again rest)
          | inr fatal ↦ rw fatal (gives_up (suc n) s x e fatal)
        ]

-- A method other than GET is rejected: no token is resolved, and nothing is sent.
pub request_rejects :
    (transport : Transport) (base_url : String) (max_attempts : ℕ) (method path : String)
    (params : List (String × String)) (s : Net)
    → str_eq "GET" (transport.upper method) ≡ false
    → request transport base_url max_attempts method path params s ≡ (err method_rejected, s)
unfolding request member raise
request_rejects transport base_url max_attempts method path params s other = rw other refl

-- A GET of a path that resolves makes at most `max(1, max_attempts)` attempts, all of them GETs of the
-- resolved URL with the given parameters; it returns no server error, and an exception of the kinds
-- that are retried only after the last attempt.
pub get-Sends :
    (transport : Transport) (base_url : String) (max_attempts : ℕ) (path url : String)
    (params : List (String × String)) (s : Net)
    → IsRetrying transport.retrying
    → transport.upper "GET" ≡ "GET"
    → resolve_url base_url path ≡ ok url
    → Sends transport url params
        (max 1 max_attempts)
        s
        (get transport base_url max_attempts path params s)
unfolding get request member lift ◌>>=◌ attempt
get-Sends transport base_url max_attempts path url params s law upper e =
    let k = max 1 max_attempts - 1 in
    let enough : suc k ≡ max 1 max_attempts = omega arith in
    let sends : Sends transport url params (max 1 max_attempts) s
        (transport.retrying (max 1 max_attempts) is_retryable (attempt transport url params) s) =
      subst
        (λ n.
          Sends transport url params n s
            (transport.retrying n is_retryable (attempt transport url params) s))
        enough (retried-Sends transport url params law k s) in
    rw (upper, e) sends
