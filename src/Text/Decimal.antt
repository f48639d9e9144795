-- ===== src/Text/Decimal.antt =====
-- Decimal numbers: `%u`, PRIu64 and PRId64 out, `%u`, SCNu64 and SCNd64 in.
pub mod RoundTrip
use qemu_pdes.Base.{
  ℕ, zero, suc, ◌+◌, ◌-◌, ◌*◌, ◌/◌, ◌%◌, ◌^◌, Bool, true, false, ◌&&◌, ◌||◌, Option, none, some,
  List, [], ◌∷◌, ◌++◌, if◌then◌else◌, ◌==◌, ltb, leb,
}

-- The digits of a number of at most `k` digits.
unfoldable pub digits : ℕ → ℕ → List ℕ
digits zero n = []
digits (suc k) n =
    let before = digits k (n / 10) in
    if ltb n 10 then (b'0' + n) ∷ [] else before ++ ((b'0' + n % 10) ∷ [])

-- Twenty digits are enough for 64 bits.
unfoldable pub print_unsigned : ℕ → List ℕ
unfolding digits
print_unsigned n = digits 20 n

-- An `int64_t` by its bit pattern.
unfoldable pub print_signed : ℕ → List ℕ
unfolding print_unsigned
print_signed n = if ltb n (2 ^ 63) then print_unsigned n else b'-' ∷ print_unsigned (2 ^ 64 - n)

abbrev pub is_digit : ℕ → Bool
is_digit c = leb b'0' c && leb c b'9'

-- `isspace`
abbrev pub is_space : ℕ → Bool
is_space c = (c == b' ') || (leb 9 c && leb c 13)

unfoldable pub skip_space : List ℕ → List ℕ
skip_space [] = []
skip_space (c ∷ s) = let rest = skip_space s in if is_space c then rest else c ∷ s

-- The number that the digits ahead spell, behind `n`.
unfoldable pub scan_digits : ℕ → List ℕ → ℕ
scan_digits n [] = n
scan_digits n (c ∷ s) = let m = scan_digits (n * 10 + (c - b'0')) s in if is_digit c then m else n

abbrev pub starts_digit : List ℕ → Bool
starts_digit [] = false
starts_digit (c ∷ s) = is_digit c

-- A number without its sign: `none` if there is no digit.
unfoldable pub scan_number : List ℕ → Option ℕ
unfolding scan_digits
scan_number s = if starts_digit s then some (scan_digits 0 s) else none

-- A sign, with the number behind it.
unfoldable pub scan_sign : List ℕ → Bool × List ℕ
scan_sign [] = (false, [])
scan_sign (c ∷ s) =
    if c == b'-' then (true, s) else if c == b'+' then (false, s) else (false, c ∷ s)

abbrev in_range : Bool → ℕ → Option ℕ
in_range b v = if b then some v else none

abbrev pub map_number : (ℕ → Option ℕ) → Option ℕ → Option ℕ
map_number f none = none
map_number f (some v) = f v

-- The conversion of `sscanf` to an unsigned type of `w` bits: `none` where it stores nothing, and
-- where the number does not fit, which C leaves undefined.
unfoldable pub scan_unsigned : ℕ → List ℕ → Option ℕ
unfolding skip_space scan_number scan_sign
scan_unsigned w s =
    let (negative, t) = scan_sign (skip_space s) in
    map_number (λ v. in_range (ltb v (2 ^ w)) (if negative then (2 ^ w - v) % 2 ^ w else v))
      (scan_number t)

-- The same to an `int64_t`.
unfoldable pub scan_signed : List ℕ → Option ℕ
unfolding skip_space scan_number scan_sign
scan_signed s =
    let (negative, t) = scan_sign (skip_space s) in
    map_number
      (λ v.
        if negative
        then in_range (leb v (2 ^ 63)) ((2 ^ 64 - v) % 2 ^ 64)
        else in_range (ltb v (2 ^ 63)) v)
      (scan_number t)
