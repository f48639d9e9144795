-- ===== src/Text/Decimal/RoundTrip.antt =====
-- A number is read back as it was printed, whatever follows that is no digit.
use native.Mathlib.Nat.{pow-suc}
use qemu_pdes.Base.{
  ℕ, zero, suc, ◌+◌, ◌-◌, ◌*◌, ◌/◌, ◌%◌, ◌^◌, ◌<◌, ◌≤◌, ◌≡◌, ◌≢◌, refl, ap, ◌∙◌, true, false, some,
  List, [], ◌∷◌, ◌++◌, arith, All, All-append, All-map, if◌then◌else◌, ltb, Bool-cases, inl, inr,
}
use mathlib.Core.List.{append_assoc}
use qemu_pdes.Text.Decimal.{
  digits, print_unsigned, print_signed, skip_space, scan_digits, starts_digit, scan_number,
  scan_sign, scan_unsigned, scan_signed,
}

abbrev pub IsDigit : ℕ → Type 0
IsDigit c = (b'0' ≤ c) × (c ≤ b'9')

pub digits-IsDigit : (k n : ℕ) → All IsDigit (digits k n)
unfolding digits
digits-IsDigit zero n = tt
digits-IsDigit (suc k) n = elim (Bool-cases (ltb n 10)) [
  | inl small ↦ rw small ((omega arith, ground arith), tt)
  | inr big ↦ rw big (
      All-append IsDigit (digits k (n / 10)) _ (digits-IsDigit k (n / 10))
        ((omega arith, omega arith), tt))
]

digits-suc :
    (k n : ℕ)
    → digits (suc k) n
      ≡ (if ltb n 10 then (b'0' + n) ∷ [] else digits k (n / 10) ++ ((b'0' + n % 10) ∷ []))
unfolding digits
digits-suc k n = refl

scan_digit :
    (n d : ℕ) (rest : List ℕ)
    → d < 10
    → scan_digits n ((b'0' + d) ∷ rest) ≡ scan_digits (n * 10 + d) rest
unfolding scan_digits
scan_digit n d rest h = ground arith

first_digit :
    (n : ℕ) (rest : List ℕ) → n < 10 → scan_digits 0 ((b'0' + n) ∷ rest) ≡ scan_digits n rest
first_digit n rest h =
    let same : 0 * 10 + n ≡ n = omega arith in
    scan_digit 0 n rest h ∙ ap (λ (m : ℕ). scan_digits m rest) same

-- The digits of a number leave it to whatever digits follow.
scan_digits-digits :
    (k n : ℕ) (rest : List ℕ)
    → n < 10 ^ suc k
    → scan_digits 0 (digits (suc k) n ++ rest) ≡ scan_digits n rest
scan_digits-digits zero n rest h =
    let small : ltb n 10 ≡ true = ground arith in
    rw (digits-suc zero n, small) (first_digit n rest (omega arith))
scan_digits-digits (suc k) n rest h = elim (Bool-cases (ltb n 10)) [
  | inl small ↦ rw (digits-suc (suc k) n, small) (first_digit n rest (ground arith))
  | inr big ↦
      let back : (n / 10) * 10 + n % 10 ≡ n = omega arith in
      rw (digits-suc (suc k) n, big)
        (ap (scan_digits 0) (append_assoc (digits (suc k) (n / 10)) ((b'0' + n % 10) ∷ []) rest)
          ∙ (scan_digits-digits k (n / 10) ((b'0' + n % 10) ∷ rest)
                (omega (arith, pow-suc 10 (suc k)))
              ∙ (scan_digit (n / 10) (n % 10) rest (omega arith)
                  ∙ ap (λ (m : ℕ). scan_digits m rest) back)))
]

abbrev pub StartsDigit : List ℕ → Type 0
StartsDigit s = starts_digit s ≡ true

digits-StartsDigit :
    (k n : ℕ) (rest : List ℕ) → n < 10 ^ suc k → StartsDigit (digits (suc k) n ++ rest)
digits-StartsDigit zero n rest h =
    let small : ltb n 10 ≡ true = ground arith in rw (digits-suc zero n, small) (ground arith)
digits-StartsDigit (suc k) n rest h = elim (Bool-cases (ltb n 10)) [
  | inl small ↦ rw (digits-suc (suc k) n, small) (ground arith)
  | inr big ↦
      rw
        (
          digits-suc (suc k) n,
          big,
          append_assoc (digits (suc k) (n / 10)) ((b'0' + n % 10) ∷ []) rest,
        )
        (digits-StartsDigit k (n / 10) ((b'0' + n % 10) ∷ rest) (omega (arith, pow-suc 10 (suc k))))
]

stop : (n : ℕ) (rest : List ℕ) → starts_digit rest ≡ false → scan_digits n rest ≡ n
unfolding scan_digits
stop n [] h = refl
stop n (c ∷ s) h = ground arith

-- What starts with a digit has no blank and no sign ahead.
plain : (s : List ℕ) → StartsDigit s → scan_sign (skip_space s) ≡ (false, s)
unfolding skip_space scan_sign
plain [] h = cc
plain (c ∷ s) h = ground arith

blank : (s : List ℕ) → skip_space (b' ' ∷ s) ≡ skip_space s
unfolding skip_space
blank s = refl

pub scan_unsigned_blank : (w : ℕ) (s : List ℕ) → scan_unsigned w (b' ' ∷ s) ≡ scan_unsigned w s
unfolding scan_unsigned
scan_unsigned_blank w s = refl

pub scan_signed_blank : (s : List ℕ) → scan_signed (b' ' ∷ s) ≡ scan_signed s
unfolding scan_signed
scan_signed_blank s = refl

scan_number-print :
    (n : ℕ) (rest : List ℕ)
    → n < 2 ^ 64
    → starts_digit rest ≡ false
    → scan_number (print_unsigned n ++ rest) ≡ some n
unfolding scan_number print_unsigned
scan_number-print n rest h e =
    rw
      (
        digits-StartsDigit 19 n rest (omega arith),
        scan_digits-digits 19 n rest (omega arith),
        stop n rest e,
      )
      refl

print-StartsDigit : (n : ℕ) (rest : List ℕ) → n < 2 ^ 64 → StartsDigit (print_unsigned n ++ rest)
unfolding print_unsigned
print-StartsDigit n rest h = digits-StartsDigit 19 n rest (omega arith)

pub scan_unsigned-print :
    (w n : ℕ) (rest : List ℕ)
    → n < 2 ^ w
    → n < 2 ^ 64
    → starts_digit rest ≡ false
    → scan_unsigned w (print_unsigned n ++ rest) ≡ some n
unfolding scan_unsigned
scan_unsigned-print w n rest h k e =
    let fits : ltb n (2 ^ w) ≡ true = ground arith in
    rw
      (
        plain (print_unsigned n ++ rest) (print-StartsDigit n rest k),
        scan_number-print n rest k e,
        fits,
      )
      refl

pub scan_signed-print :
    (n : ℕ) (rest : List ℕ)
    → n < 2 ^ 64
    → starts_digit rest ≡ false
    → scan_signed (print_signed n ++ rest) ≡ some n
unfolding scan_signed print_signed
scan_signed-print n rest h e = elim (Bool-cases (ltb n (2 ^ 63))) [
  | inl pos ↦
      rw
        (
          pos,
          plain (print_unsigned n ++ rest) (print-StartsDigit n rest h),
          scan_number-print n rest h e,
          pos,
        )
        refl
  | inr neg ↦ rw (neg, scan_number-print (2 ^ 64 - n) rest (ground arith) e) (ground arith)
]

-- The characters of a printed number are digits, but for a sign: none is a quote, a comma or zero.
abbrev pub IsPlain : ℕ → Type 0
IsPlain c = (c ≢ b'"') × (c ≢ b',') × (c ≢ 0)

digit-IsPlain : (c : ℕ) → IsDigit c → IsPlain c
digit-IsPlain c h = (omega arith, omega arith, omega arith)

pub print_unsigned-IsPlain : (n : ℕ) → All IsPlain (print_unsigned n)
unfolding print_unsigned
print_unsigned-IsPlain n = All-map IsDigit IsPlain (digits 20 n) digit-IsPlain (digits-IsDigit 20 n)

pub print_signed-IsPlain : (n : ℕ) → All IsPlain (print_signed n)
unfolding print_signed
print_signed-IsPlain n = elim (Bool-cases (ltb n (2 ^ 63))) [
  | inl pos ↦ rw pos (print_unsigned-IsPlain n)
  | inr neg ↦ rw neg ((omega arith, omega arith, omega arith), print_unsigned-IsPlain (2 ^ 64 - n))
]
