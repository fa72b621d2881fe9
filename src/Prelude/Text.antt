-- ===== src/Prelude/Text.antt =====
-- Text as the source walks it: a list of bytes. Go's `strings` functions on it.
use Prim.Native.Nat.{ℕ, zero, suc, ◌+◌, ◌-◌, ◌*◌, ◌^◌}
use Prim.Native.Char.{code}
use Prim.Native.String.{String, ◌∷◌ as push}
use text.Mathlib.Text.{◌==◌}
use mathlib.Core.Bool.{Bool, true, false, ◌&&◌, ◌||◌}
use mathlib.Core.Option.{Option, none, some}
use mathlib.Core.List.{List, [], ◌∷◌, map}
use deploy_bot.Prelude.Tests.{leb, ltb, eqb, if◌then◌else◌}
use deploy_bot.Prelude.Int.{ℤ, pos, negsuc}

-- The code points of a text: its bytes, where it is ASCII.
abbrev pub codes : String → List ℕ
codes String.[] = []
codes (String.◌∷◌ c s) = code c ∷ codes s

unfoldable pub text_eq : List ℕ → List ℕ → Bool
text_eq [] [] = true
text_eq (c ∷ s) (d ∷ t) = eqb c d && text_eq s t
text_eq _ _ = false

-- unicode.IsSpace below 256
abbrev pub is_space : ℕ → Bool
is_space c = leb 9 c && leb c 13 || eqb c 32 || eqb c 133 || eqb c 160

trim_left : String → String
trim_left String.[] = ""
trim_left (String.◌∷◌ c s) = let rest = trim_left s in if is_space (code c) then rest else push c s

trim_right : String → String
trim_right String.[] = ""
trim_right (String.◌∷◌ c s) =
    let rest = trim_right s in if rest == "" && is_space (code c) then "" else push c rest

-- strings.TrimSpace
unfoldable pub trim_space : String → String
unfolding trim_left trim_right
trim_space s = trim_right (trim_left s)

-- strings.HasPrefix
unfoldable pub has_prefix : List ℕ → List ℕ → Bool
has_prefix s [] = true
has_prefix [] (p ∷ ps) = false
has_prefix (c ∷ s) (p ∷ ps) = eqb c p && has_prefix s ps

-- strings.Contains
unfoldable pub contains : List ℕ → List ℕ → Bool
unfolding has_prefix
contains [] p = has_prefix [] p
contains (c ∷ s) p = has_prefix (c ∷ s) p || contains s p

-- strings.ToLower on ASCII
unfoldable pub to_lower : List ℕ → List ℕ
to_lower = map (λ c. if leb b'A' c && leb c b'Z' then c + 32 else c)

unfoldable pub digits : ℕ → List ℕ → Option ℕ
digits n [] = some n
digits n (c ∷ s) = elim (leb b'0' c && leb c b'9') [
  | true ↦ digits (n * 10 + (c - b'0')) s
  | false ↦ none
]

-- At least one digit.
unfoldable pub number : List ℕ → Option ℕ
unfolding digits
number [] = none
number (c ∷ s) = digits 0 (c ∷ s)

abbrev in_range : Option ℕ → ℕ → (ℕ → ℤ) → Option ℤ
in_range none bound f = none
in_range (some n) bound f = if ltb n bound then some (f n) else none

abbrev negated : ℕ → ℤ
negated zero = pos zero
negated (suc n) = negsuc n

-- strconv.Atoi on a 64-bit platform: an optional sign, decimal digits, and the range of int64.
unfoldable pub atoi_codes : List ℕ → Option ℤ
unfolding number
atoi_codes [] = none
atoi_codes (c ∷ s) =
    if eqb c b'-'
    then in_range (number s) (2 ^ 63 + 1) negated
    else if eqb c b'+'
    then in_range (number s) (2 ^ 63) pos
    else in_range (number (c ∷ s)) (2 ^ 63) pos

unfoldable pub atoi : String → Option ℤ
unfolding atoi_codes
atoi s = atoi_codes (codes s)
