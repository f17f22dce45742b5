-- ===== src/Exec/Inversion.antt =====
-- What a chain of calls that returned says of its parts.
use paquitobot_rag.Prelude.{◌≡◌, refl, Bool, true, false, if◌then◌else◌}
use paquitobot_rag.Exec.{Exn, Result, ok, err, Exec, ◌>>=◌, and_then}

module _ {S A B : Type 0} where
  -- The first call returned, and the rest went on from the state that it left.
  pub >>=-ok :
      (m : Exec S A) (f : A → Exec S B) (s : S) (b : B)
      → ((m >>= f) s).0 ≡ ok b
      → (a : A) × ((m s).0 ≡ ok a) × ((m >>= f) s ≡ f a (m s).1)
  unfolding ◌>>=◌
  >>=-ok m f s b e = go (m s).0 refl e
    where
      go :
          (r : Result A)
          → (m s).0 ≡ r
          → (and_then f r (m s).1).0 ≡ ok b
          → (a : A) × ((m s).0 ≡ ok a) × (and_then f (m s).0 (m s).1 ≡ f a (m s).1)
      go (ok a) found e' = (a, found, rw found)
      go (err x) found e' = cc

-- A guard that raises was not met.
pub guard-ok :
    {A : Type 0} (b : Bool) (e : Exn) (r : Result A) (a : A)
    → (if b then err e else r) ≡ ok a
    → (b ≡ false) × (r ≡ ok a)
guard-ok true e r a h = cc
guard-ok false e r a h = (refl, h)
