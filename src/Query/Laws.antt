-- ===== src/Query/Laws.antt =====
-- What an update or an insert leaves alone, and how many rows a key has afterwards.
use paquitobot_rag.Prelude.{
  ◌≤◌, ◌≡◌, refl, Bool, true, false, Option, none, some, List, [], ◌∷◌, ◌++◌, length, arith, inl,
  inr, Bool-cases,
}
use paquitobot_rag.Exec.{ok}
use paquitobot_rag.Query.{select, scalar_one_or_none, update_where}

module _ {A : Type 0} where
  -- An update of rows that `q` does not select, which leaves them unselected.
  pub select-update_where_ne :
      (p q : A → Bool) (f : A → A) (xs : List A)
      → ((x : A) → p x ≡ true → q x ≡ false)
      → ((x : A) → p x ≡ true → q (f x) ≡ false)
      → select q (update_where p f xs) ≡ select q xs
  unfolding select update_where
  select-update_where_ne p q f [] d k = refl
  select-update_where_ne p q f (x ∷ xs) d k =
      ground (arith, d x, k x, select-update_where_ne p q f xs d k)

  pub select-insert_ne :
      (q : A → Bool) (x : A) (xs : List A) → q x ≡ false → select q (xs ++ x ∷ []) ≡ select q xs
  unfolding select
  select-insert_ne q x [] h = ground arith
  select-insert_ne q x (y ∷ xs) h = ground (arith, select-insert_ne q x xs h)

  pub select-insert_eq :
      (q : A → Bool) (x : A) (xs : List A)
      → q x ≡ true
      → select q (xs ++ x ∷ []) ≡ select q xs ++ x ∷ []
  unfolding select
  select-insert_eq q x [] h = ground arith
  select-insert_eq q x (y ∷ xs) h = ground (arith, select-insert_eq q x xs h)

  -- An update that keeps the key of every row it touches.
  pub length-select-update_where :
      (p q : A → Bool) (f : A → A) (xs : List A)
      → ((x : A) → p x ≡ true → q (f x) ≡ q x)
      → length (select q (update_where p f xs)) ≡ length (select q xs)
  unfolding select update_where
  length-select-update_where p q f [] k = refl
  length-select-update_where p q f (x ∷ xs) k =
      ground (arith, k x, length-select-update_where p q f xs k)

  pub select-update_where_self :
      (p : A → Bool) (f : A → A) (xs : List A)
      → ((x : A) → p x ≡ true → p (f x) ≡ true)
      → select p (update_where p f xs) ≡ update_where p f (select p xs)
  unfolding select update_where
  select-update_where_self p f [] k = refl
  select-update_where_self p f (x ∷ xs) k = ground (arith, k x, select-update_where_self p f xs k)

  pub update_where-update_where :
      (p : A → Bool) (f g h : A → A) (xs : List A)
      → ((x : A) → p x ≡ true → p (f x) ≡ true)
      → ((x : A) → p x ≡ true → g (f x) ≡ h x)
      → update_where p g (update_where p f xs) ≡ update_where p h xs
  unfolding update_where
  update_where-update_where p f g h [] k e = refl
  update_where-update_where p f g h (x ∷ xs) k e =
      ground (arith, k x, e x, update_where-update_where p f g h xs k e)

  -- A key that at most one row has is read without an exception.
  pub scalar_one_or_none_total :
      (xs : List A) → length xs ≤ 1 → (o : Option A) × (scalar_one_or_none xs ≡ ok o)
  unfolding scalar_one_or_none
  scalar_one_or_none_total [] h = (none, refl)
  scalar_one_or_none_total (x ∷ []) h = (some x, refl)
  scalar_one_or_none_total (x ∷ y ∷ xs) h = absurd (omega arith)

  pub scalar_one_or_none-none : (xs : List A) → scalar_one_or_none xs ≡ ok none → xs ≡ []
  unfolding scalar_one_or_none
  scalar_one_or_none-none [] h = refl
  scalar_one_or_none-none (x ∷ []) h = cc
  scalar_one_or_none-none (x ∷ y ∷ xs) h = cc

  pub scalar_one_or_none-some :
      (x : A) (xs : List A) → scalar_one_or_none xs ≡ ok (some x) → xs ≡ x ∷ []
  unfolding scalar_one_or_none
  scalar_one_or_none-some x [] h = cc
  scalar_one_or_none-some x (y ∷ []) h = cc
  scalar_one_or_none-some x (y ∷ z ∷ xs) h = cc

  pub select_sound :
      (p : A → Bool) (x : A) (rest : List A) (xs : List A) → select p xs ≡ x ∷ rest → p x ≡ true
  unfolding select
  select_sound p x rest [] h = cc
  select_sound p x rest (y ∷ ys) h = elim (Bool-cases (p y)) [
    | inl yes_y ↦ ground arith
    | inr no_y ↦ select_sound p x rest ys (ground arith)
  ]

  -- A key that has one row has one row after an assignment to it that keeps the key.
  pub scalar-update_where :
      (p : A → Bool) (f : A → A) (x : A) (xs : List A)
      → ((y : A) → p y ≡ true → p (f y) ≡ true)
      → scalar_one_or_none (select p xs) ≡ ok (some x)
      → scalar_one_or_none (select p (update_where p f xs)) ≡ ok (some (f x))
  unfolding update_where scalar_one_or_none
  scalar-update_where p f x xs k h =
      let one : select p xs ≡ x ∷ [] = scalar_one_or_none-some x (select p xs) h in
      rw (select-update_where_self p f xs k, one) (ground (arith, select_sound p x [] xs one))

  -- A key that has no row has one after the insert of it.
  pub scalar-insert :
      (p : A → Bool) (x : A) (xs : List A)
      → p x ≡ true
      → scalar_one_or_none (select p xs) ≡ ok none
      → scalar_one_or_none (select p (xs ++ x ∷ [])) ≡ ok (some x)
  unfolding scalar_one_or_none
  scalar-insert p x xs k h = rw (select-insert_eq p x xs k, scalar_one_or_none-none (select p xs) h)
