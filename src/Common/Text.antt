-- ===== src/Common/Text.antt =====
-- JavaScript's operations on strings, over code points, and the text of a number.
use Prim.Native.Char.{code}
use Prim.Native.String
use trust_post.Common.Tests.{leb, ltb, nat_eq, if◌then◌else◌}
use Prim.Native.Nat.{ℕ, zero, suc, ◌+◌, ◌/◌, ◌%◌}
use Prim.Native.String.{String}
use mathlib.Core.Bool.{Bool, true, false, ◌&&◌, ◌||◌}
use mathlib.Core.Path.{◌≡◌}
use mathlib.Core.Logic.{◌≢◌}
use native.Mathlib.Omega.{arith}
use text.Mathlib.Text.{◌==◌}
use text.Mathlib.TextEquality.{eq_iff}
use mathlib.Core.List.{List, [], ◌∷◌, reverse, map}

infixr 65 ◌<>◌
abbrev pub ◌<>◌ : String → String → String
s <> t = String.◌++◌ s t

abbrev pub codes : String → List ℕ
codes String.[] = []
codes (String.◌∷◌ c s) = code c ∷ codes s

-- White space and line ends, as `trim` knows them.
abbrev pub is_space : ℕ → Bool
is_space c =
    (leb 9 c && leb c 13)
    || nat_eq c 32
    || nat_eq c 160
    || nat_eq c 5760
    || (leb 8192 c && leb c 8202)
    || nat_eq c 8232
    || nat_eq c 8233
    || nat_eq c 8239
    || nat_eq c 8287
    || nat_eq c 12288
    || nat_eq c 65279

abbrev pub trim_start : List ℕ → List ℕ
trim_start [] = []
trim_start (c ∷ s) = if is_space c then trim_start s else c ∷ s

abbrev pub trim : List ℕ → List ℕ
trim s = reverse (trim_start (reverse (trim_start s)))

-- The ASCII letters. (Other letters stay as they are, which no comparison with an ASCII word
-- sees, but for the Kelvin sign.)
abbrev pub lower : ℕ → ℕ
lower c = if leb b'A' c && leb c b'Z' then c + 32 else c

abbrev pub to_lower_case : List ℕ → List ℕ
to_lower_case s = map lower s

abbrev pub codes_eq : List ℕ → List ℕ → Bool
codes_eq [] [] = true
codes_eq (a ∷ s) (b ∷ t) = nat_eq a b && codes_eq s t
codes_eq _ _ = false

-- One of the digits from 0 to 9.
abbrev digit : ℕ → String
digit zero = "0"
digit (suc zero) = "1"
digit (suc (suc zero)) = "2"
digit (suc (suc (suc zero))) = "3"
digit (suc (suc (suc (suc zero)))) = "4"
digit (suc (suc (suc (suc (suc zero))))) = "5"
digit (suc (suc (suc (suc (suc (suc zero)))))) = "6"
digit (suc (suc (suc (suc (suc (suc (suc zero))))))) = "7"
digit (suc (suc (suc (suc (suc (suc (suc (suc zero)))))))) = "8"
digit _ = "9"

show_from : ℕ → ℕ → String
show_from zero n = digit n
show_from (suc fuel) n =
    let shorter = show_from fuel (n / 10) in if ltb n 10 then digit n else shorter <> digit (n % 10)

-- `String(n)` of a whole number; each round shortens `n`, so `n` rounds are enough.
unfoldable pub show_nat : ℕ → String
unfolding show_from
show_nat n = show_from n n

-- `String(n)` of `hundredths / 100`.
unfoldable pub show_hundredths : ℕ → String
unfolding show_nat
show_hundredths n =
    let tenths = n % 100 / 10 in
    let last = n % 10 in
    show_nat (n / 100)
    <> (if nat_eq (n % 100) 0
        then ""
        else "." <> digit tenths <> (if nat_eq last 0 then "" else digit last))

-- Two strings that the test tells apart.
pub apart : {s t : String} → s == t ≡ false → s ≢ t
apart {s} {t} differ e = ground (arith, eq_iff s t)

-- `a < b` on strings.
abbrev pub codes_less : List ℕ → List ℕ → Bool
codes_less s [] = false
codes_less [] (b ∷ t) = true
codes_less (a ∷ s) (b ∷ t) = ltb a b || (nat_eq a b && codes_less s t)
