-- ===== src/Iam/Slug.antt =====
-- svc-aerial-iam/internal/service/iam.go: `slugify`, on what `strings.ToLower` returned.
use Prim.Native.Char.{Char, code}
use Prim.Native.String.{char_at}
use aerial_ran_platform.Base.{ℕ, String, Bool, ◌&&◌, ◌||◌, leb, ◌==◌, if◌then◌else◌, trim_space}

abbrev pub is_word : ℕ → Bool
is_word c = (leb 97 c && leb c 122) || (leb 48 c && leb c 57)

abbrev pub is_separator : ℕ → Bool
is_separator c = c == 32 || c == 95 || c == 45 || c == 46

abbrev pub dash : Char
dash = char_at "-" 0

-- Letters and digits are kept, separators become dashes, the rest is dropped.
abbrev pub dashed : String → String
dashed String.[] = String.[]
dashed (String.◌∷◌ c s) =
    let rest = dashed s in
    if is_word (code c)
    then String.◌∷◌ c rest
    else if is_separator (code c)
    then String.◌∷◌ dash rest
    else rest

-- `strings.Trim(s, "-")`, from the left and then from the right.
abbrev pub trim_dashes_left : String → String
trim_dashes_left String.[] = String.[]
trim_dashes_left (String.◌∷◌ c s) =
    let rest = trim_dashes_left s in if code c == 45 then rest else String.◌∷◌ c s

abbrev pub unless_dash : Char → String → String
unless_dash c String.[] = if code c == 45 then String.[] else String.◌∷◌ c String.[]
unless_dash c (String.◌∷◌ d s) = String.◌∷◌ c (String.◌∷◌ d s)

abbrev pub trim_dashes_right : String → String
trim_dashes_right String.[] = String.[]
trim_dashes_right (String.◌∷◌ c s) = unless_dash c (trim_dashes_right s)

unfoldable pub slugify : (String → String) → String → String
slugify to_lower s = trim_dashes_right (trim_dashes_left (dashed (to_lower (trim_space s))))
