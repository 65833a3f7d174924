-- ===== src/Esim/Provider/Allowance.antt =====
-- svc-aerial-esim/internal/provider/airalo.go, `parseDataMB`: data allowances such as "1.5 GB" to
-- megabytes. The pattern `^([0-9]+(?:\.[0-9]+)?)\s*(KB|MB|GB|TB)$` reads its text in one way only,
-- which is followed here, a character at a time. A float64 is written out: the nearest to a quotient
-- of numbers, ties to even. Only ASCII letters fold to the letters of the pattern.
pub mod Reading
use Prim.Native.Char.{Char, code}
use Prim.Native.String
use Prim.Native.String.{char_at}
use aerial_ran_platform.Base.{
  ℕ, zero, suc, ◌+◌, ◌-◌, ◌*◌, ◌/◌, ◌%◌, ◌^◌, String, Bool, true, false, ◌&&◌, ◌||◌, Option, none,
  some, leb, ltb, ◌==◌, str_eq, trim_space, if◌then◌else◌,
}
use aerial_ran_platform.Base.Int.{ℤ, pos, negsuc}

abbrev pub is_digit : ℕ → Bool
is_digit c = leb 48 c && leb c 57

-- `\s`
abbrev pub is_blank : ℕ → Bool
is_blank c = c == 32 || c == 9 || c == 10 || c == 12 || c == 13

-- `strings.ToUpper`
abbrev pub upper_char : Char → Char
upper_char c =
    if leb 97 (code c) && leb (code c) 122
    then char_at "ABCDEFGHIJKLMNOPQRSTUVWXYZ" (code c - 97)
    else c

abbrev pub to_upper : String → String
to_upper String.[] = String.[]
to_upper (String.◌∷◌ c s) = String.◌∷◌ (upper_char c) (to_upper s)

-- `[0-9]…`: a number over a power of ten, and the unit.
pub record Quantity : Type 0 where
  pub numerator : ℕ
  pub denominator : ℕ
  pub unit : String

abbrev pub is_unit : String → Bool
is_unit u = str_eq u "KB" || str_eq u "MB" || str_eq u "GB" || str_eq u "TB"

abbrev pub with_unit : ℕ → ℕ → String → Option Quantity
with_unit n d u =
    if is_unit u then some (record { numerator = n; denominator = d; unit = u }) else none

-- `\s*(KB|MB|GB|TB)$`
abbrev pub read_unit : ℕ → ℕ → String → Option Quantity
read_unit n d String.[] = none
read_unit n d (String.◌∷◌ c s) =
    let rest = read_unit n d s in if is_blank (code c) then rest else with_unit n d (String.◌∷◌ c s)

-- `[0-9]*` behind a first digit of the fraction.
abbrev pub read_fraction : ℕ → ℕ → String → Option Quantity
read_fraction n d String.[] = none
read_fraction n d (String.◌∷◌ c s) =
    let rest = read_fraction (10 * n + (code c - 48)) (10 * d) s in
    if is_digit (code c) then rest else read_unit n d (String.◌∷◌ c s)

-- `[0-9]+` of the fraction, which must have a digit.
abbrev pub start_fraction : ℕ → String → Option Quantity
start_fraction n String.[] = none
start_fraction n (String.◌∷◌ c s) =
    if is_digit (code c) then read_fraction (10 * n + (code c - 48)) 10 s else none

-- What follows the whole part.
abbrev pub after_whole : ℕ → Char → String → Option Quantity
after_whole n c s = if code c == 46 then start_fraction n s else read_unit n 1 (String.◌∷◌ c s)

abbrev pub read_whole : ℕ → String → Option Quantity
read_whole n String.[] = none
read_whole n (String.◌∷◌ c s) =
    let rest = read_whole (10 * n + (code c - 48)) s in
    if is_digit (code c) then rest else after_whole n c s

abbrev pub starts_digit : String → Bool
starts_digit String.[] = false
starts_digit (String.◌∷◌ c s) = is_digit (code c)

abbrev pub read_quantity : String → Option Quantity
read_quantity s = if starts_digit s then read_whole 0 s else none

-- The quotient of two numbers, rounded to the nearest, ties to even.
abbrev pub rounded : ℕ → ℕ → ℕ
rounded a b =
    let q = a / b in
    let r = a % b in if ltb (2 * r) b then q else if ltb b (2 * r) then suc q else q + q % 2

-- A float64 that is not negative: `mantissa * 2 ^ up / 2 ^ down`.
pub record Float : Type 0 where
  pub mantissa : ℕ
  pub up : ℕ
  pub down : ℕ

-- The first `k`, counted from `from`, at which the test holds; the fuel bounds the search.
abbrev pub first_where : (ℕ → Bool) → ℕ → ℕ → ℕ
first_where p zero from = from
first_where p (suc f) from = let rest = first_where p f (suc from) in if p from then from else rest

-- A mantissa of 53 bits, or fewer for a number below 2 ^ -1022.
abbrev pub below_mantissa : ℕ → ℕ → ℕ → Float
below_mantissa n d s = record { mantissa = rounded (n * 2 ^ s) d; up = 0; down = s }

abbrev pub above_mantissa : ℕ → ℕ → ℕ → Float
above_mantissa n d t = record { mantissa = rounded n (d * 2 ^ t); up = t; down = 0 }

-- The float nearest to `n / d`.
unfoldable pub nearest : ℕ → ℕ → Float
nearest n d =
    if ltb n (d * 2 ^ 53)
    then below_mantissa n d (first_where (λ k. leb (d * 2 ^ 52) (n * 2 ^ k)) 1074 0)
    else above_mantissa n d (first_where (λ k. ltb n (d * 2 ^ (53 + k))) 971 0)

-- `strconv.ParseFloat` fails on a number that rounds beyond the largest float64.
abbrev pub out_of_range : ℕ → ℕ → Bool
out_of_range n d = leb (d * (2 ^ 1024 - 2 ^ 970)) n

-- `int(f)`: the whole part; from 2 ^ 63 on it is the least int, as amd64 converts.
abbrev pub to_int : ℕ → ℤ
to_int n = if ltb n (2 ^ 63) then pos n else negsuc (2 ^ 63 - 1)

-- `int(n * 2 ^ k)` and `int(n / 1024)`.
abbrev pub scaled : Float → ℕ → ℤ
scaled f k = to_int (f.mantissa * 2 ^ f.up * 2 ^ k / 2 ^ f.down)

abbrev pub shrunk : Float → ℤ
shrunk f = to_int (f.mantissa * 2 ^ f.up / 2 ^ f.down / 1024)

abbrev pub in_megabytes : String → Float → ℤ
in_megabytes u f =
    if str_eq u "TB"
    then scaled f 20
    else if str_eq u "GB"
    then scaled f 10
    else if str_eq u "MB"
    then scaled f 0
    else shrunk f

abbrev pub measured : Option Quantity → Option ℤ
measured none = none
measured (some q) =
    if out_of_range q.numerator q.denominator
    then none
    else some (in_megabytes q.unit (nearest q.numerator q.denominator))

-- `DataUnlimited`
abbrev pub data_unlimited : ℤ
data_unlimited = negsuc 0

-- None stands for the error "unparseable data allowance".
unfoldable pub parse_data_mb : String → Option ℤ
parse_data_mb s =
    let t = trim_space s in
    if str_eq (to_upper t) "UNLIMITED"
    then some data_unlimited
    else measured (read_quantity (to_upper t))
