-- ===== src/Base/Text.antt =====
-- Go's `strings.TrimSpace`, and decimal and hexadecimal printing.
use Prim.Native.Nat.{ℕ, zero, suc, ◌/◌, ◌%◌, ◌-◌}
use Prim.Native.Char.{Char, code}
use Prim.Native.String.{String, char_at, len}
use mathlib.Core.Bool.{Bool, ◌&&◌, ◌||◌}
use mathlib.Core.List.{List, [], ◌∷◌}
use aerial_ran_platform.Base.Tests.{ltb, leb, ◌==◌, if◌then◌else◌}

-- `unicode.IsSpace`.
abbrev pub is_space : ℕ → Bool
is_space c =
    (leb 9 c && leb c 13)
    || (c == 32 || c == 0x85 || c == 0xA0 || c == 0x1680)
    || (leb 0x2000 c && leb c 0x200A)
    || (c == 0x2028 || c == 0x2029 || c == 0x202F || c == 0x205F || c == 0x3000)

abbrev pub trim_left : String → String
trim_left String.[] = String.[]
trim_left (String.◌∷◌ c s) =
    let rest = trim_left s in if is_space (code c) then rest else String.◌∷◌ c s

-- Put a character before an already trimmed rest.
abbrev pub keep_right : Char → String → String
keep_right c String.[] = if is_space (code c) then String.[] else String.◌∷◌ c String.[]
keep_right c (String.◌∷◌ d s) = String.◌∷◌ c (String.◌∷◌ d s)

abbrev pub trim_right : String → String
trim_right String.[] = String.[]
trim_right (String.◌∷◌ c s) = keep_right c (trim_right s)

unfoldable pub trim_space : String → String
trim_space s = trim_right (trim_left s)

-- The digits of `n`, most significant first, in front of `out`; the fuel bounds their number.
abbrev pub decimal_digits : ℕ → ℕ → String → String
decimal_digits zero n out = out
decimal_digits (suc f) n out =
    let out' = String.◌∷◌ (char_at "0123456789" (n % 10)) out in
    let rest = decimal_digits f (n / 10) out' in if ltb n 10 then out' else rest

-- `fmt.Sprintf("%d", n)` of a number that is not negative.
unfoldable pub decimal : ℕ → String
decimal n = decimal_digits (suc n) n ""

abbrev pub zeros : ℕ → String → String
zeros zero s = s
zeros (suc k) s = String.◌∷◌ (char_at "0" 0) (zeros k s)

-- `fmt.Sprintf("%0*d", width, n)` of a number that is not negative.
unfoldable pub pad_decimal : ℕ → ℕ → String
unfolding decimal
pad_decimal width n = zeros (width - len (decimal n)) (decimal n)

-- `strings.ToUpper(hex.EncodeToString(b))`.
unfoldable pub upper_hex : List ℕ → String
upper_hex [] = ""
upper_hex (b ∷ bs) =
    String.◌∷◌ (char_at "0123456789ABCDEF" (b / 16 % 16))
      (String.◌∷◌ (char_at "0123456789ABCDEF" (b % 16)) (upper_hex bs))

-- `strings.Split(s, ",")`: put a character before the first part.
abbrev pub onto_first : Char → List String → List String
onto_first c [] = String.◌∷◌ c "" ∷ []
onto_first c (s ∷ ss) = String.◌∷◌ c s ∷ ss

abbrev pub split_commas : String → List String
split_commas String.[] = "" ∷ []
split_commas (String.◌∷◌ c s) =
    let rest = split_commas s in if code c == 44 then "" ∷ rest else onto_first c rest
