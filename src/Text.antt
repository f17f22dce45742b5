-- ===== src/Text.antt =====
-- Python's `len`, slices and `strip` of a text.
pub mod Strip
use Prim.Native.String
use Prim.Native.Char.{Char}
use paquitobot_rag.Prelude.{
  ℕ, zero, suc, String, Bool, true, false, ◌&&◌, ◌||◌, leb, str_eq, if◌then◌else◌, List, [], ◌∷◌,
}

-- `len(s)`
unfoldable pub text_length : String → ℕ
text_length String.[] = 0
text_length (String.◌∷◌ c s) = suc (text_length s)

-- The bounds `min_length` and `max_length` of a field
abbrev pub is_between : ℕ → ℕ → String → Bool
is_between low high s = leb low (text_length s) && leb (text_length s) high

-- `s[:n]`
unfoldable pub prefix : ℕ → String → String
prefix zero s = ""
prefix (suc n) String.[] = String.[]
prefix (suc n) (String.◌∷◌ c s) = String.◌∷◌ c (prefix n s)

module _ (test : Char → Bool) where
  -- `s.lstrip(…)` and `s.rstrip(…)` of the characters that a test takes
  unfoldable pub lstrip_of : String → String
  lstrip_of String.[] = String.[]
  lstrip_of (String.◌∷◌ c s) = let rest = lstrip_of s in if test c then rest else String.◌∷◌ c s

  unfoldable pub rstrip_of : String → String
  rstrip_of String.[] = String.[]
  rstrip_of (String.◌∷◌ c s) =
      let rest = rstrip_of s in if str_eq rest "" && test c then "" else String.◌∷◌ c rest

  -- Whether a text has a character that the test takes
  unfoldable pub has_any : String → Bool
  has_any String.[] = false
  has_any (String.◌∷◌ c s) = test c || has_any s

  unfoldable pub strip_of : String → String
  unfolding lstrip_of rstrip_of
  strip_of s = rstrip_of (lstrip_of s)

abbrev cons_head : Char → List String → List String
cons_head c [] = String.◌∷◌ c String.[] ∷ []
cons_head c (part ∷ parts) = String.◌∷◌ c part ∷ parts

-- `s.split(…)` at the characters that a test takes
unfoldable pub split_on : (Char → Bool) → String → List String
split_on test String.[] = "" ∷ []
split_on test (String.◌∷◌ c s) =
    let parts = split_on test s in if test c then "" ∷ parts else cons_head c parts

-- `s.partition(…)` at the first such character: what is before it, and after it
unfoldable pub before_first : (Char → Bool) → String → String
before_first test String.[] = String.[]
before_first test (String.◌∷◌ c s) =
    let rest = before_first test s in if test c then "" else String.◌∷◌ c rest

unfoldable pub after_first : (Char → Bool) → String → String
after_first test String.[] = String.[]
after_first test (String.◌∷◌ c s) = let rest = after_first test s in if test c then s else rest
