-- ===== src/Http/Served.antt =====
-- The id that an answer carries, and what of an exception is told.
use paquitobot_rag.Prelude.{
  ◌≡◌, refl, sym, String, Option, none, some, suc, if◌then◌else◌, inl, inr, Bool-cases,
}
use mathlib.Core.Path.{subst}
use paquitobot_rag.Exec.{Result, ok, err, Exec, pure, raise, modify, ◌>>=◌}
use paquitobot_rag.Rag.{lookup}
use paquitobot_rag.Rag.Answer.Own.{lookup-put}
use paquitobot_rag.Http.{
  Scope, Response, Uuids, correlation_id_header, bind_id, is_valid_uuid4, new_correlation_id, leave,
  call_and_leave, accept_id, dispatch,
}

module _ (uuids : Uuids) where
  -- The id of a request, by what it came with.
  abbrev pub request_id : Option String → Scope → String
  request_id none s = uuids.uuid4 s.drawn
  request_id (some incoming) s =
      if is_valid_uuid4 uuids (some incoming) then incoming else uuids.uuid4 s.drawn

  -- A response carries the id, and an exception goes on.
  abbrev pub IsTagged : String → Result Response → Result Response → Type 0
  IsTagged id (ok response) (ok tagged) =
      (lookup correlation_id_header tagged.headers ≡ some id) × (tagged.body ≡ response.body)
  IsTagged id (ok response) (err e) = ⊥
  IsTagged id (err e) r = r ≡ err e

  leave-IsTagged :
      (id : String) (r : Result Response) (s : Scope)
      → let (r', s') = leave uuids id r s in IsTagged id r r' × (s' ≡ bind_id none s)
  unfolding leave ◌>>=◌ modify pure raise
  leave-IsTagged id (ok response) s =
      ((lookup-put correlation_id_header id response.headers, refl), refl)
  leave-IsTagged id (err e) s = (refl, refl)

  accept_cases :
      (incoming : Option String) (s : Scope)
      → (s₀ : Scope) × (accept_id uuids incoming (is_valid_uuid4 uuids incoming) s
          ≡ (ok (request_id incoming s), s₀))
  unfolding new_correlation_id pure
  accept_cases none s = (_, refl)
  accept_cases (some incoming) s = elim (Bool-cases (is_valid_uuid4 uuids (some incoming))) [
    | inl valid ↦ (s, rw (valid) refl)
    | inr other ↦ (record s { drawn = suc s.drawn }, rw (other) refl)
  ]

  -- The middleware calls with the id of the request bound, and leaves with it.
  pub dispatch_runs :
      (incoming : Option String) (call_next : Exec Scope Response) (s : Scope)
      → (s₁ : Scope) × (s₁.bound ≡ some (request_id incoming s))
        × (dispatch uuids incoming call_next s
            ≡ leave uuids (request_id incoming s) (call_next s₁).0 (call_next s₁).1)
  unfolding dispatch call_and_leave ◌>>=◌
  dispatch_runs incoming call_next s =
      let (s₀, e) = accept_cases incoming s in
      (bind_id (some (request_id incoming s)) s₀, refl, rw (e) refl)

  -- Whatever is called, it is called with the id of the request bound, its response carries that id,
  -- an exception of it goes on, and then no id is bound.
  pub dispatch-IsTagged :
      (incoming : Option String) (call_next : Exec Scope Response) (s : Scope)
      → (s₁ : Scope) × (s₁.bound ≡ some (request_id incoming s))
        × (let (r, s₂) = call_next s₁ in
            let (r', s₃) = dispatch uuids incoming call_next s in
            IsTagged (request_id incoming s) r r' × (s₃ ≡ bind_id none s₂))
  dispatch-IsTagged incoming call_next s =
      let (s₁, bound, e) = dispatch_runs incoming call_next s in
      (
        s₁,
        bound,
        subst
            (λ q.
              IsTagged (request_id incoming s) (call_next s₁).0 q.0
              × (q.1 ≡ bind_id none (call_next s₁).1))
            (sym e) (leave-IsTagged (request_id incoming s) (call_next s₁).0 (call_next s₁).1),
      )
