-- ===== src/Esim/Provider/Allowance/Reading.antt =====
-- Allowances that are printed as a whole number and a unit are read back.
use Prim.Native.Char.{Char, code}
use Prim.Native.String
use Prim.Native.String.{char_at}
use Prim.Native.String.append
use native.Mathlib.Nat.{mod-lt, mul-div_cancel, mul_right_comm, mul-one, one-le-pow}
use aerial_ran_platform.Base.{
  ℕ, zero, suc, ◌+◌, ◌-◌, ◌*◌, ◌/◌, ◌%◌, ◌^◌, ◌<◌, ◌≤◌, String, Bool, true, false, some, ◌≡◌, ◌≢◌,
  refl, sym, ap, ◌∙◌, arith, ltb, str_eq, str_eq-false, trim_space, trim_left, trim_right,
  keep_right, decimal, decimal_digits, is_space, Bool-cases, inl, inr,
}
use aerial_ran_platform.Base.Int.{pos}
use aerial_ran_platform.Esim.Provider.Allowance.{
  starts_digit, is_digit, upper_char, to_upper, Quantity, read_unit, read_whole, read_quantity,
  rounded, nearest, below_mantissa, scaled, shrunk, in_megabytes, parse_data_mb, out_of_range,
  to_int,
}

abbrev digit : ℕ → Char
digit d = char_at "0123456789" d

digit-code : (d : ℕ) → d < 10 → code (digit d) ≡ 48 + d
digit-code zero h = refl
digit-code (suc zero) h = refl
digit-code (suc (suc zero)) h = refl
digit-code (suc (suc (suc zero))) h = refl
digit-code (suc (suc (suc (suc zero)))) h = refl
digit-code (suc (suc (suc (suc (suc zero))))) h = refl
digit-code (suc (suc (suc (suc (suc (suc zero)))))) h = refl
digit-code (suc (suc (suc (suc (suc (suc (suc zero))))))) h = refl
digit-code (suc (suc (suc (suc (suc (suc (suc (suc zero)))))))) h = refl
digit-code (suc (suc (suc (suc (suc (suc (suc (suc (suc zero))))))))) h = refl
digit-code (suc (suc (suc (suc (suc (suc (suc (suc (suc (suc d)))))))))) h = absurd (omega arith)

-- The printed digits are never lower-case letters.
upper_digit : (c : Char) → code c ≤ 57 → upper_char c ≡ c
upper_digit c h = ground arith

-- What holds of a printed digit.
record IsDigit (d : ℕ) (c : Char) : Type 0 where
  value : code c - 48 ≡ d
  digit_like : is_digit (code c) ≡ true
  solid : is_space (code c) ≡ false
  upper : upper_char c ≡ c

digit_facts : (d : ℕ) → d < 10 → IsDigit d (digit d)
digit_facts d h = record {
  value = by_code (code (digit d)) (digit-code d h);
  digit_like = like (code (digit d)) (digit-code d h);
  solid = no_space (code (digit d)) (digit-code d h);
  upper = upper_digit (digit d) (small (code (digit d)) (digit-code d h));
}
  where
    by_code : (c : ℕ) → c ≡ 48 + d → c - 48 ≡ d
    by_code c e = omega arith

    like : (c : ℕ) → c ≡ 48 + d → is_digit c ≡ true
    like c e = ground arith

    no_space : (c : ℕ) → c ≡ 48 + d → is_space c ≡ false
    no_space c e = ground arith

    small : (c : ℕ) → c ≡ 48 + d → c ≤ 57
    small c e = omega arith

last_digit : (n : ℕ) → IsDigit (n % 10) (digit (n % 10))
last_digit n = digit_facts (n % 10) (mod-lt n (omega arith))

read_digit :
    (d : ℕ) (c : Char) (n : ℕ) (s : String)
    → IsDigit d c
    → read_whole n (String.◌∷◌ c s) ≡ read_whole (10 * n + d) s
read_digit d c n s h = rw (h.digit_like, h.value) refl

decimal_digits-read :
    (f n : ℕ) (out : String) → n < f → read_whole 0 (decimal_digits f n out) ≡ read_whole n out
decimal_digits-read zero n out h = absurd (below_zero n h)
  where
    below_zero : (n : ℕ) → n < 0 → ⊥
    below_zero n h = omega arith
decimal_digits-read (suc f) n out h = elim (Bool-cases (ltb n 10)) [
  | inl small ↦ rw small (
      read_digit (n % 10) _ 0 out (last_digit n) ∙ ap (λ (m : ℕ). read_whole m out) (whole n small))
  | inr big ↦ rw big (
      decimal_digits-read f (n / 10) _ (shorter n f h big)
      ∙ read_digit (n % 10) _ (n / 10) out (last_digit n)
      ∙ ap (λ (m : ℕ). read_whole m out) (rejoined n))
]
  where
    whole : (n : ℕ) → ltb n 10 ≡ true → 10 * 0 + n % 10 ≡ n
    whole n small = ground arith

    rejoined : (n : ℕ) → 10 * (n / 10) + n % 10 ≡ n
    rejoined n = omega arith

    shorter : (n f : ℕ) → n < suc f → ltb n 10 ≡ false → n / 10 < f
    shorter n f h big = ground arith

-- Anything that holds of a text with a digit put before it holds of one with the digits of a number.
decimal_digits-keep :
    (P : String → Type 0) (f n : ℕ) (out : String)
    → ((d : ℕ) (c : Char) (s : String) → IsDigit d c → P s → P (String.◌∷◌ c s))
    → P out
    → P (decimal_digits f n out)
decimal_digits-keep P zero n out step h = h
decimal_digits-keep P (suc f) n out step h = elim (Bool-cases (ltb n 10)) [
  | inl small ↦ rw small (step (n % 10) _ out (last_digit n) h)
  | inr big ↦
      rw big (decimal_digits-keep P f (n / 10) _ step (step (n % 10) _ out (last_digit n) h))
]

decimal_digits-append :
    (f n : ℕ) (out tail : String)
    → String.◌++◌ (decimal_digits f n out) tail ≡ decimal_digits f n (String.◌++◌ out tail)
decimal_digits-append zero n out tail = refl
decimal_digits-append (suc f) n out tail = elim (Bool-cases (ltb n 10)) [
  | inl small ↦ rw small (λ i. append.cons (digit (n % 10)) out tail i)
  | inr big ↦ rw big (
      decimal_digits-append f (n / 10) _ tail
      ∙ (λ i. decimal_digits f (n / 10) (append.cons (digit (n % 10)) out tail i)))
]

-- The units, and what an allowance of `n` of them is in megabytes.
pub data Size : Type 0 where
  kb mb gb tb : Size

abbrev pub size_text : Size → String
size_text kb = "KB"
size_text mb = "MB"
size_text gb = "GB"
size_text tb = "TB"

abbrev pub megabytes : Size → ℕ → ℕ
megabytes kb n = n / 1024
megabytes mb n = n
megabytes gb n = n * 1024
megabytes tb n = n * 1048576

-- A unit behind `k` spaces.
abbrev pub spaced : ℕ → Size → String
spaced zero u = size_text u
spaced (suc k) u = String.◌∷◌ (char_at " " 0) (spaced k u)

spaced-upper : (k : ℕ) (u : Size) → to_upper (spaced k u) ≡ spaced k u
spaced-upper zero kb = refl
spaced-upper zero mb = refl
spaced-upper zero gb = refl
spaced-upper zero tb = refl
spaced-upper (suc k) u = ap (String.◌∷◌ (char_at " " 0)) (spaced-upper k u)

spaced-trim : (k : ℕ) (u : Size) → trim_right (spaced k u) ≡ spaced k u
spaced-trim zero kb = refl
spaced-trim zero mb = refl
spaced-trim zero gb = refl
spaced-trim zero tb = refl
spaced-trim (suc k) u = ap (keep_right (char_at " " 0)) (spaced-trim k u) ∙ stays k u
  where
    stays : (k : ℕ) (u : Size) → keep_right (char_at " " 0) (spaced k u) ≡ spaced (suc k) u
    stays zero kb = refl
    stays zero mb = refl
    stays zero gb = refl
    stays zero tb = refl
    stays (suc k) u = refl

quantity : ℕ → Size → Quantity
quantity n u = record { numerator = n; denominator = 1; unit = size_text u }

spaced-unit : (n k : ℕ) (u : Size) → read_unit n 1 (spaced k u) ≡ some (quantity n u)
unfolding quantity
spaced-unit n zero kb = refl
spaced-unit n zero mb = refl
spaced-unit n zero gb = refl
spaced-unit n zero tb = refl
spaced-unit n (suc k) u = spaced-unit n k u

spaced-whole : (n k : ℕ) (u : Size) → read_whole n (spaced k u) ≡ some (quantity n u)
unfolding quantity
spaced-whole n zero kb = refl
spaced-whole n zero mb = refl
spaced-whole n zero gb = refl
spaced-whole n zero tb = refl
spaced-whole n (suc k) u = spaced-unit n k u

decimal_digits-upper :
    (f n : ℕ) (out : String)
    → to_upper out ≡ out
    → to_upper (decimal_digits f n out) ≡ decimal_digits f n out
decimal_digits-upper f n out h =
    decimal_digits-keep (λ s. to_upper s ≡ s) f n out (λ d c s e k i. String.◌∷◌ (e.upper i) (k i))
      h

decimal_digits-trim :
    (f n : ℕ) (out : String)
    → trim_right out ≡ out
    → trim_right (decimal_digits f n out) ≡ decimal_digits f n out
decimal_digits-trim f n out h =
    decimal_digits-keep (λ s. trim_right s ≡ s) f n out
      (λ d c s e k. ap (keep_right c) k ∙ kept d c s e) h
  where
    kept : (d : ℕ) (c : Char) (s : String) → IsDigit d c → keep_right c s ≡ String.◌∷◌ c s
    kept d c String.[] e = rw e.solid refl
    kept d c (String.◌∷◌ x s) e = refl

decimal_digits-starts :
    (f n : ℕ) (out : String)
    → starts_digit out ≡ true
    → starts_digit (decimal_digits f n out) ≡ true
decimal_digits-starts f n out h =
    decimal_digits-keep (λ s. starts_digit s ≡ true) f n out (λ d c s e k. e.digit_like) h

decimal-starts : (n : ℕ) (out : String) → starts_digit (decimal_digits (suc n) n out) ≡ true
decimal-starts n out = elim (Bool-cases (ltb n 10)) [
  | inl small ↦ rw small (last_digit n).digit_like
  | inr big ↦ rw big (decimal_digits-starts n (n / 10) _ (last_digit n).digit_like)
]

-- A text that starts with a digit has no space to trim on its left, and is not the word.
trim_left-starts : (s : String) → starts_digit s ≡ true → trim_left s ≡ s
trim_left-starts String.[] h = refl
trim_left-starts (String.◌∷◌ c s) h = rw (solid (code c) h) refl
  where
    solid : (c : ℕ) → is_digit c ≡ true → is_space c ≡ false
    solid c h = ground arith

not_word : (s : String) → starts_digit s ≡ true → str_eq s "UNLIMITED" ≡ false
not_word s h = str_eq-false s "UNLIMITED" (λ e. no_digit (sym h ∙ ap starts_digit e))
  where
    no_digit : ◌≢◌ {A = Bool} true false
    no_digit e = ground arith

-- The text of an allowance.
abbrev pub printed : ℕ → ℕ → Size → String
printed n k u = String.◌++◌ (decimal n) (spaced k u)

printed_lem : (n k : ℕ) (u : Size) → printed n k u ≡ decimal_digits (suc n) n (spaced k u)
unfolding decimal
printed_lem n k u =
    decimal_digits-append (suc n) n "" (spaced k u)
    ∙ (λ i. decimal_digits (suc n) n (append.nil (spaced k u) i))

printed-trim : (n k : ℕ) (u : Size) → trim_space (printed n k u) ≡ printed n k u
unfolding trim_space
printed-trim n k u = rw (printed_lem n k u) (
    ap trim_right
      (trim_left-starts (decimal_digits (suc n) n (spaced k u)) (decimal-starts n (spaced k u)))
    ∙ decimal_digits-trim (suc n) n (spaced k u) (spaced-trim k u))

printed-upper : (n k : ℕ) (u : Size) → to_upper (printed n k u) ≡ printed n k u
printed-upper n k u =
    rw (printed_lem n k u) (decimal_digits-upper (suc n) n (spaced k u) (spaced-upper k u))

printed-word : (n k : ℕ) (u : Size) → str_eq (printed n k u) "UNLIMITED" ≡ false
printed-word n k u = rw (printed_lem n k u) (not_word _ (decimal-starts n (spaced k u)))

printed-read : (n k : ℕ) (u : Size) → read_quantity (printed n k u) ≡ some (quantity n u)
printed-read n k u =
    rw (printed_lem n k u, decimal-starts n (spaced k u))
      (decimal_digits-read (suc n) n (spaced k u) (below n) ∙ spaced-whole n k u)
  where
    below : (n : ℕ) → n < suc n
    below n = omega arith

-- A whole number that 53 bits hold is its own nearest float.
below_exact : (n s q : ℕ) → (below_mantissa n 1 s).mantissa * 2 ^ 0 * q / 2 ^ s ≡ n * q
below_exact n s q =
    ap (λ (m : ℕ). m * q / 2 ^ s) (mul-one _ ∙ unrounded (n * 2 ^ s))
    ∙ ap (λ (m : ℕ). m / 2 ^ s) (mul_right_comm n (2 ^ s) q)
    ∙ mul-div_cancel (n * q) (positive s)
  where
    unrounded : (a : ℕ) → rounded a 1 ≡ a
    unrounded a = ground arith

    positive : (s : ℕ) → 0 < 2 ^ s
    positive s = one-le-pow s 2 (omega arith)

scaled_exact : (n k : ℕ) → ltb n (1 * 2 ^ 53) ≡ true → scaled (nearest n 1) k ≡ to_int (n * 2 ^ k)
unfolding nearest
scaled_exact n k h = rw h (ap to_int (below_exact n _ (2 ^ k)))

shrunk_exact : (n : ℕ) → ltb n (1 * 2 ^ 53) ≡ true → shrunk (nearest n 1) ≡ to_int (n / 1024)
unfolding nearest
shrunk_exact n h = rw h (ap (λ (m : ℕ). to_int (m / 1024)) (plain n _))
  where
    plain : (n s : ℕ) → (below_mantissa n 1 s).mantissa * 2 ^ 0 / 2 ^ s ≡ n
    plain n s = ap (λ (m : ℕ). m / 2 ^ s) (sym (mul-one _)) ∙ below_exact n s 1 ∙ mul-one n

size_exact :
    (n : ℕ) (u : Size)
    → ltb n (1 * 2 ^ 53) ≡ true
    → in_megabytes (size_text u) (nearest n 1) ≡ to_int (megabytes u n)
size_exact n kb h = shrunk_exact n h
size_exact n mb h = scaled_exact n 0 h ∙ ap to_int (mul-one n)
size_exact n gb h = scaled_exact n 10 h
size_exact n tb h = scaled_exact n 20 h

-- An allowance printed as a whole number below 2 ^ 53, any number of spaces and a unit, and of less
-- than 2 ^ 63 megabytes, is read as exactly so many megabytes, rounded down from kilobytes.
pub parse-printed :
    (n k : ℕ) (u : Size)
    → n < 2 ^ 53
    → megabytes u n < 2 ^ 63
    → parse_data_mb (printed n k u) ≡ some (pos (megabytes u n))
unfolding parse_data_mb quantity
parse-printed n k u h fits =
    rw
      (
        printed-trim n k u,
        printed-upper n k u,
        printed-word n k u,
        printed-read n k u,
        in_range n h,
        size_exact n u (held n h),
        in_int (megabytes u n) fits,
      )
      refl
  where
    in_range : (n : ℕ) → n < 2 ^ 53 → out_of_range n 1 ≡ false
    in_range n h = ground arith

    held : (n : ℕ) → n < 2 ^ 53 → ltb n (1 * 2 ^ 53) ≡ true
    held n h = ground arith

    in_int : (m : ℕ) → m < 2 ^ 63 → ltb m (2 ^ 63) ≡ true
    in_int m h = ground arith
