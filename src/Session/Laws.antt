-- ===== src/Session/Laws.antt =====
-- How a transaction ends: with everything that it did durable, or with nothing of it.
use paquitobot_rag.Prelude.{◌≡◌, ◌⊎◌, refl, inl, inr, ◌&&◌, Bool-cases}
use paquitobot_rag.Exec.{Exn, Result, ok, err, integrity_error}
use paquitobot_rag.Session.{Server, Session, end_transaction, close_begin}

module _ {A : Type 0} (server : Server) where
  -- A commit of what was returned.
  abbrev pub Committed : Result A → Session → Type 0
  Committed r s =
      (a : A) × (r ≡ ok a) × (close_begin server (r, s) ≡ (ok a, end_transaction s.db s))

  -- A rollback, and an exception.
  abbrev pub RolledBack : Result A → Session → Type 0
  RolledBack r s = (e : Exn) × (close_begin server (r, s) ≡ (err e, end_transaction s.durable s))

  pub close_begin_cases : (r : Result A) (s : Session) → Committed r s ⊎ RolledBack r s
  unfolding close_begin
  close_begin_cases (err e) s = inr (e, refl)
  close_begin_cases (ok a) s = elim (Bool-cases (server.accepts s.db && server.commits s.db)) [
    | inl fine ↦ inl (a, refl, rw fine)
    | inr refused ↦ inr (integrity_error, rw refused)
  ]
