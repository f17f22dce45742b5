-- ===== src/Value/Text.antt =====
-- Python's `int()` on a text: blanks around, a sign, and digits, which single underscores may
-- join. Digits and blanks other than ASCII's are not modelled.
use Prim.Native.Char.{code}
use Prim.Native.String.{[], ◌∷◌}
use paquitobot_rag.Prelude.{
  ℕ, zero, suc, ◌+◌, ◌*◌, ◌-◌, ◌≡◌, refl, String, Bool, true, false, Option, none, some, ◌&&◌, ◌||◌,
  ◌==◌, leb, if◌then◌else◌,
}
use paquitobot_rag.Value.Int.{ℤ, pos, negsuc}

is_digit : ℕ → Bool
is_digit c = leb b'0' c && leb c b'9'

is_blank : ℕ → Bool
is_blank c = c == 32 || (leb 9 c && leb c 13)

all_blank : String → Bool
unfolding is_blank
all_blank [] = true
all_blank (c ∷ s) = is_blank (code c) && all_blank s

-- The flag says that the character before was a digit.
digits : ℕ → Bool → String → Option ℕ
unfolding is_digit is_blank all_blank
digits n after [] = if after then some n else none
digits n after (c ∷ s) =
    let next = digits (n * 10 + (code c - b'0')) true s in
    let joined = digits n false s in
    if is_digit (code c)
    then next
    else if code c == b'_' && after
    then joined
    else if is_blank (code c) && after && all_blank s
    then some n
    else none

abbrev negate : ℕ → ℤ
negate zero = pos zero
negate (suc n) = negsuc n

abbrev as_int : (ℕ → ℤ) → Option ℕ → Option ℤ
as_int f none = none
as_int f (some n) = some (f n)

unfoldable pub int_of_text : String → Option ℤ
unfolding digits is_blank
int_of_text [] = none
int_of_text (c ∷ s) =
    let rest = int_of_text s in
    if is_blank (code c)
    then rest
    else if code c == b'-'
    then as_int negate (digits 0 false s)
    else if code c == b'+'
    then as_int pos (digits 0 false s)
    else as_int pos (digits 0 false (c ∷ s))

int_of_text_runs :
    (int_of_text " -1_20\n" ≡ some (negsuc 119))
    × (int_of_text "7" ≡ some (pos 7))
    × (int_of_text "1__2" ≡ none)
    × (int_of_text "x7" ≡ none)
unfolding int_of_text
int_of_text_runs = (refl, refl, refl, refl)
