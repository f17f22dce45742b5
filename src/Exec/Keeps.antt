-- ===== src/Exec/Keeps.antt =====
-- Properties of the state that an action never breaks, whether it returns or raises: one rule
-- for each way to build an action.
use paquitobot_rag.Prelude.{◌≡◌, refl, Bool, true, false, List, [], ◌∷◌, if◌then◌else◌}
use paquitobot_rag.Exec.{
  Exn, Result, ok, err, Exec, pure, raise, lift, gets, modify, zoom, fold_each, ◌>>=◌, and_then,
}

pub record Keeps {S A : Type 0} (P : S → Type 0) (m : Exec S A) : Type 0 where
  pub run : (s : S) → P s → P (m s).1

module _ {S A B : Type 0} {P : S → Type 0} where
  -- After a returned value the rest may use that it was returned, from a state that satisfies `P`.
  pub Keeps-bind_at :
      (first : Exec S A) (next : A → Exec S B)
      → Keeps P first
      → ((s : S) (a : A) → P s → (first s).0 ≡ ok a → Keeps P (next a))
      → Keeps P (first >>= next)
  unfolding ◌>>=◌
  Keeps-bind_at first next k l = record {
    run = λ s h. go s h (first s).0 (first s).1 refl (k.run s h);
  }
    where
      go :
          (s : S)
          → P s
          → (r : Result A) (s' : S) → (first s).0 ≡ r
          → P s'
          → P (and_then next r s').1
      go s h (ok a) s' e h' = (l s a h e).run s' h'
      go s h (err x) s' e h' = h'

  pub Keeps-bind :
      (first : Exec S A) (next : A → Exec S B)
      → Keeps P first
      → ((x : A) → Keeps P (next x))
      → Keeps P (first >>= next)
  Keeps-bind first next k l = Keeps-bind_at first next k (λ s x _ _. l x)

module _ {S A : Type 0} {P : S → Type 0} where
  -- What touches no state keeps everything.
  pub Keeps-lift : (outcome : Result A) → Keeps {S = S} P (lift outcome)
  unfolding lift
  Keeps-lift outcome = record { run = λ _ before. before }

  pub Keeps-raise : (x : Exn) → Keeps P (raise {A = A} x)
  unfolding raise
  Keeps-raise x = record { run = λ _ before. before }

  pub Keeps-gets : (read : S → A) → Keeps P (gets read)
  unfolding gets
  Keeps-gets read = record { run = λ _ before. before }

  pub Keeps-pure : (value : A) → Keeps P (pure value)
  unfolding pure
  Keeps-pure value = record { run = λ _ before. before }

  pub Keeps-if :
      (test : Bool) (left right : Exec S A)
      → (test ≡ true → Keeps P left)
      → (test ≡ false → Keeps P right)
      → Keeps P (if test then left else right)
  Keeps-if false left right k l = l refl
  Keeps-if true left right k l = k refl

pub Keeps-modify :
    {S : Type 0} {P : S → Type 0} (f : S → S) → ((s : S) → P s → P (f s)) → Keeps P (modify f)
unfolding modify
Keeps-modify f h = record { run = h }

pub Keeps-zoom :
    {S T A : Type 0} {P : S → Type 0} {Q : T → Type 0} (get : S → T) (set : T → S → S)
    (m : Exec T A)
    → ((s : S) → P s → Q (get s))
    → ((s : S) (t : T) → P s → Q t → P (set t s))
    → Keeps Q m
    → Keeps P (zoom get set m)
unfolding zoom
Keeps-zoom get set m down up km = record {
  run = λ s h. up s (m (get s)).1 h (km.run (get s) (down s h));
}

pub Keeps-fold_each :
    {S A B : Type 0} {P : S → Type 0} (xs : List A) (acc : B) (body : A → B → Exec S B)
    → ((x : A) (b : B) → Keeps P (body x b))
    → Keeps P (fold_each xs acc body)
unfolding fold_each
Keeps-fold_each [] acc body k = Keeps-pure acc
Keeps-fold_each (x ∷ xs) acc body k =
    Keeps-bind (body x acc) (λ b. fold_each xs b body) (k x acc) (λ b. Keeps-fold_each xs b body k)

pub ruleset keeps_rules =
    (Keeps-fold_each, Keeps-bind, Keeps-if, Keeps-pure, Keeps-lift, Keeps-raise, Keeps-gets)
