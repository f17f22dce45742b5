-- ===== src/Text/Strip.antt =====
-- Stripping twice is stripping once.
use Prim.Native.Char.{Char}
use paquitobot_rag.Prelude.{
  ◌≡◌, refl, ap, ◌∙◌, String, Bool, true, false, ◌&&◌, ◌||◌, inl, inr, Bool-cases, str_eq,
}
use paquitobot_rag.Text.{lstrip_of, rstrip_of, strip_of, has_any}

pub or_false : (a b : Bool) → a || b ≡ false → (a ≡ false) × (b ≡ false)
or_false false b e = (refl, e)
or_false true b e = cc

module _ (test : Char → Bool) where
  rstrip_of_idem : (s : String) → rstrip_of test (rstrip_of test s) ≡ rstrip_of test s
  unfolding rstrip_of
  rstrip_of_idem String.[] = refl
  rstrip_of_idem (String.◌∷◌ c s) = elim (Bool-cases (str_eq (rstrip_of test s) "" && test c)) [
    | inl dropped ↦ rw (dropped) refl
    | inr kept ↦ rw (kept, rstrip_of_idem s, kept) refl
  ]

  -- What is left is empty, or it begins with a character that the test does not take.
  StartsOutside : String → Type 0
  StartsOutside String.[] = Unit {0}
  StartsOutside (String.◌∷◌ c s) = test c ≡ false

  lstrip_of-StartsOutside : (s : String) → StartsOutside (lstrip_of test s)
  unfolding lstrip_of StartsOutside
  lstrip_of-StartsOutside String.[] = tt
  lstrip_of-StartsOutside (String.◌∷◌ c s) = elim (Bool-cases (test c)) [
    | inl taken ↦ rw (taken) (lstrip_of-StartsOutside s)
    | inr left ↦ rw (left) left
  ]

  lstrip_of-outside : (s : String) → StartsOutside s → lstrip_of test s ≡ s
  unfolding lstrip_of StartsOutside
  lstrip_of-outside String.[] starts = refl
  lstrip_of-outside (String.◌∷◌ c s) starts = rw (starts) refl

  rstrip_of-StartsOutside : (s : String) → StartsOutside s → StartsOutside (rstrip_of test s)
  unfolding rstrip_of StartsOutside
  rstrip_of-StartsOutside String.[] starts = tt
  rstrip_of-StartsOutside (String.◌∷◌ c s) starts =
      elim (Bool-cases (str_eq (rstrip_of test s) "")) [
        | inl empty ↦ rw (empty, starts) starts
        | inr more ↦ rw (more) starts
      ]

  pub strip_of_idem : (s : String) → strip_of test (strip_of test s) ≡ strip_of test s
  unfolding strip_of
  strip_of_idem s =
      ap (rstrip_of test) (
        lstrip_of-outside (rstrip_of test (lstrip_of test s))
          (rstrip_of-StartsOutside (lstrip_of test s) (lstrip_of-StartsOutside s)))
      ∙ rstrip_of_idem (lstrip_of test s)

  -- Where the text has none of the characters, none is stripped.
  pub rstrip_of-has_any : (s : String) → has_any test s ≡ false → rstrip_of test s ≡ s
  unfolding rstrip_of has_any
  rstrip_of-has_any String.[] none_left = refl
  rstrip_of-has_any (String.◌∷◌ c s) none_left =
      let (left, rest) = or_false (test c) (has_any test s) none_left in
      elim (Bool-cases (str_eq s "")) [
        | inl empty ↦ rw (rstrip_of-has_any s rest, empty, left) refl
        | inr more ↦ rw (rstrip_of-has_any s rest, more) refl
      ]
