-- ===== src/Base/Text.antt =====
-- Go's strings where the program compares and joins them.
use Prim.Native.Nat.{ℕ, ◌+◌}
use Prim.Native.Char.{Char, code}
use Prim.Native.String.{String, ◌++◌}
use mathlib.Core.Logic.{inl, inr}
use mathlib.Core.Path.{◌≡◌, refl}
use mathlib.Core.Bool.{Bool, true, false, ◌&&◌, ◌||◌}
use mathlib.Core.List.{List, [], ◌∷◌, map}
use native.Mathlib.Omega.{arith}
use text.Mathlib.Text.{◌==◌}
use text.Mathlib.TextEquality.{eq_iff}
use upcow.Base.Tests.{Bool-cases, leb, if◌then◌else◌}
use upcow.Base.Tests

pub ne_of_test : (s t : String) → (s == t) ≡ false → ¬ (s ≡ t)
ne_of_test s t other e = ground (arith, eq_iff s t)

unfoldable pub String_discrete : Discrete String
unfolding Bool-cases
String_discrete s t = elim (Bool-cases (s == t)) [
  | inl same ↦ yes ((eq_iff s t).0 same)
  | inr other ↦ no (ne_of_test s t other)
]

-- The text `s` followed by `t`.
abbrev pub concat : String → String → String
concat s t = s ++ t

infix 50 ◌=#◌
abbrev ◌=#◌ : ℕ → ℕ → Bool
a =# b = Tests.◌==◌ a b

-- The code points of a text, which the searches below walk.
abbrev pub codes : String → List ℕ
codes String.[] = []
codes (String.◌∷◌ c s) = code c ∷ codes s

has_prefix_codes : List ℕ → List ℕ → Bool
has_prefix_codes s [] = true
has_prefix_codes [] (d ∷ t) = false
has_prefix_codes (c ∷ s) (d ∷ t) = c =# d && has_prefix_codes s t

contains_codes : List ℕ → List ℕ → Bool
unfolding has_prefix_codes
contains_codes [] t = has_prefix_codes [] t
contains_codes (c ∷ s) t = has_prefix_codes (c ∷ s) t || contains_codes s t

-- `strings.HasPrefix(s, t)` and `strings.Contains(s, t)`.
unfoldable pub has_prefix : String → String → Bool
unfolding has_prefix_codes
has_prefix s t = has_prefix_codes (codes s) (codes t)

unfoldable pub contains : String → String → Bool
unfolding contains_codes
contains s t = contains_codes (codes s) (codes t)

-- `unicode.ToLower`, as far as it gives an ASCII letter: the capitals, İ and the Kelvin sign. Any
-- other code point stays, which no search for an ASCII text can tell.
lower_code : ℕ → ℕ
lower_code c =
    if leb 0x41 c && leb c 0x5a
    then c + 32
    else if c =# 0x130
    then 0x69
    else if c =# 0x212a
    then 0x6b
    else c

-- `strings.Contains(strings.ToLower(s), t)` for an ASCII text `t`.
unfoldable pub lower_contains : String → String → Bool
unfolding contains_codes lower_code
lower_contains s t = contains_codes (map lower_code (codes s)) (codes t)

-- `unicode.IsSpace`.
is_space : ℕ → Bool
is_space c =
    (leb 9 c && leb c 13)
    || c =# 0x20
    || c =# 0x85
    || c =# 0xa0
    || c =# 0x1680
    || (leb 0x2000 c && leb c 0x200a)
    || c =# 0x2028
    || c =# 0x2029
    || c =# 0x202f
    || c =# 0x205f
    || c =# 0x3000

trim_left : String → String
unfolding is_space
trim_left String.[] = String.[]
trim_left (String.◌∷◌ c s) = if is_space (code c) then trim_left s else String.◌∷◌ c s

-- A character before an empty rest goes if it is a space.
close_right : Char → String → String
unfolding is_space
close_right c String.[] = if is_space (code c) then String.[] else String.◌∷◌ c String.[]
close_right c (String.◌∷◌ d s) = String.◌∷◌ c (String.◌∷◌ d s)

trim_right : String → String
unfolding close_right
trim_right String.[] = String.[]
trim_right (String.◌∷◌ c s) = close_right c (trim_right s)

-- `strings.TrimSpace`.
unfoldable pub trim_space : String → String
unfolding trim_left trim_right
trim_space s = trim_right (trim_left s)

trims : trim_space " a b " ≡ "a b"
unfolding trim_space
trims = refl

finds : lower_contains "HTTP: Invalid Order payload." "invalid order payload" ≡ true
unfolding lower_contains
finds = refl
