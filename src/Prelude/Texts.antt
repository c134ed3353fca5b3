-- ===== src/Prelude/Texts.antt =====
-- Texts in the order of their characters, and the decimal text of a number.
use Prim.Native.Nat.{ℕ, zero, suc, ◌/◌, ◌%◌}
use Prim.Native.Char.{code}
use Prim.Native.String.{String, char_at}
use mathlib.Core.Path.{◌≡◌, refl}
use mathlib.Core.Bool.{Bool, true, false, ◌&&◌, ◌||◌}
use native.Mathlib.Omega.{arith}
use brand_sniper_monorepo.Prelude.Tests.{if◌then◌else◌, ltb, nat_beq}

-- `a < b` on texts; the bytes of UTF-8 have the same order.
abbrev pub string_ltb : String → String → Bool
string_ltb _ String.[] = false
string_ltb String.[] (String.◌∷◌ d t) = true
string_ltb (String.◌∷◌ c s) (String.◌∷◌ d t) =
    ltb (code c) (code d) || (nat_beq (code c) (code d) && string_ltb s t)

-- A text that comes before another does not come after it.
pub string_ltb-asym : (a b : String) → string_ltb a b ≡ true → string_ltb b a ≡ false
string_ltb-asym String.[] String.[] h = refl
string_ltb-asym String.[] (String.◌∷◌ d t) h = refl
string_ltb-asym (String.◌∷◌ c s) String.[] h = absurd (ground arith)
string_ltb-asym (String.◌∷◌ c s) (String.◌∷◌ d t) h = ground (arith, string_ltb-asym s t)

-- Not coming before is transitive.
pub string_ltb_trans :
    (a b c : String) → string_ltb b a ≡ false → string_ltb c b ≡ false → string_ltb c a ≡ false
string_ltb_trans String.[] b c h k = refl
string_ltb_trans (String.◌∷◌ x a) String.[] c h k = absurd (ground arith)
string_ltb_trans (String.◌∷◌ x a) (String.◌∷◌ y b) String.[] h k = absurd (ground arith)
string_ltb_trans (String.◌∷◌ x a) (String.◌∷◌ y b) (String.◌∷◌ z c) h k =
    ground (arith, string_ltb_trans a b c)

-- `str(n)`, on fuel for its digits; each division makes the number less.
decimal_digits : ℕ → ℕ → String → String
decimal_digits zero n rest = rest
decimal_digits (suc fuel) n rest =
    let digit = String.◌∷◌ (char_at "0123456789" (n % 10)) rest in
    let front = decimal_digits fuel (n / 10) digit in if ltb n 10 then digit else front

unfoldable pub decimal : ℕ → String
unfolding decimal_digits
decimal n = decimal_digits (suc n) n ""

decimal_example : decimal 10250 ≡ "10250"
unfolding decimal
decimal_example = refl
