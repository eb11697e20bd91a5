-- ===== src/Bans/DecimalLaws.antt =====
-- The printing and the scanning of int64s.
use weave_ftpd.Base.{
  ℕ, zero, suc, ◌+◌, ◌-◌, ◌*◌, ◌/◌, ◌%◌, ◌^◌, ◌<◌, ◌≡◌, ◌≢◌, refl, ap, ◌∙◌, [], ◌∷◌, ◌++◌, true,
  false, inl, inr, ltb, lt→ltb, ltb→lt, ◌==◌, Text, arith, All, All-append, Bool-cases,
}
use weave_ftpd.Base.Int.{ℤ, pos, negsuc}
use weave_ftpd.Base.Int64.{InRange}
use weave_ftpd.Bans.Decimal.{is_digit, digits_from, print_int, decimal_from, in_int64, scan_int}

abbrev pub AreDigits : Text → Type 0
AreDigits s = All (λ c. is_digit c ≡ true) s

digit-IsDigit : (d : ℕ) → d < 10 → is_digit (d + 48) ≡ true
unfolding is_digit
digit-IsDigit d h = ground arith

pub digits_from-AreDigits : (fuel n : ℕ) → AreDigits (digits_from fuel n)
unfolding digits_from
digits_from-AreDigits zero n = tt
digits_from-AreDigits (suc fuel) n = elim (Bool-cases (ltb n 10)) [
  | inl small ↦ rw small (digit-IsDigit n (ltb→lt n 10 small), tt)
  | inr large ↦ rw large (
      All-append (λ c. is_digit c ≡ true) (digits_from fuel (n / 10)) ((n % 10 + 48) ∷ [])
        (digits_from-AreDigits fuel (n / 10)) (digit-IsDigit (n % 10) (omega arith), tt))
]

decimal_from-append :
    (s : Text) (m d : ℕ)
    → AreDigits s
    → d < 10
    → decimal_from m (s ++ (d + 48) ∷ []) ≡ decimal_from m s * 10 + d
unfolding decimal_from
decimal_from-append [] m d h k = rw (digit-IsDigit d k) (omega arith)
decimal_from-append (c ∷ s) m d (h, hs) k = rw h (decimal_from-append s (m * 10 + (c - 48)) d hs k)

fewer_digits : (fuel n : ℕ) → n < 10 ^ suc fuel → n / 10 < 10 ^ fuel
fewer_digits fuel n h = omega (arith, h)

decimal_from-digits_from : (fuel n : ℕ) → n < 10 ^ fuel → decimal_from 0 (digits_from fuel n) ≡ n
unfolding decimal_from digits_from
decimal_from-digits_from zero n h = omega (arith, h)
decimal_from-digits_from (suc fuel) n h = elim (Bool-cases (ltb n 10)) [
  | inl small ↦ rw (small, digit-IsDigit n (ltb→lt n 10 small)) (omega arith)
  | inr large ↦ rw large (
      decimal_from-append (digits_from fuel (n / 10)) 0 (n % 10)
        (digits_from-AreDigits fuel (n / 10)) (omega arith)
      ∙ (ap (λ x. x * 10 + n % 10) (decimal_from-digits_from fuel (n / 10) (fewer_digits fuel n h))
          ∙ omega arith))
]

digit_is_no_sign : (c : ℕ) → is_digit c ≡ true → ((c == b'-') ≡ false) × ((c == b'+') ≡ false)
unfolding is_digit
digit_is_no_sign c h = ground arith

-- A text of digits has no sign.
scan_digits : (s : Text) → s ≢ [] → AreDigits s → scan_int s ≡ in_int64 false (decimal_from 0 s)
unfolding scan_int
scan_digits [] some_digits h = absurd (some_digits refl)
scan_digits (c ∷ s) some_digits (h, hs) =
    let (no_minus, no_plus) = digit_is_no_sign c h in rw (no_minus, no_plus) refl

snoc_not_empty : (s : Text) (c : ℕ) → s ++ c ∷ [] ≢ []
snoc_not_empty [] c e = cc e
snoc_not_empty (a ∷ s) c e = cc e

some_digits : (fuel n : ℕ) → digits_from (suc fuel) n ≢ []
unfolding digits_from
some_digits fuel n = elim (Bool-cases (ltb n 10)) [
  | inl small ↦ rw small (λ e. cc e)
  | inr large ↦ rw large (snoc_not_empty (digits_from fuel (n / 10)) (n % 10 + 48))
]

print-pos : (n : ℕ) → print_int (pos n) ≡ digits_from 20 n
unfolding print_int
print-pos n = refl

print-negsuc : (n : ℕ) → print_int (negsuc n) ≡ b'-' ∷ digits_from 20 (n + 1)
unfolding print_int
print-negsuc n = refl

scan-minus : (s : Text) → scan_int (b'-' ∷ s) ≡ in_int64 true (decimal_from 0 s)
unfolding scan_int
scan-minus s = refl

negative_fits : (n : ℕ) → n < 2 ^ 63 → in_int64 true (n + 1) ≡ negsuc n
negative_fits n h =
    let same : n + 1 ≡ suc n = omega arith in
    ap (in_int64 true) same ∙ rw (lt→ltb n (2 ^ 63) h) refl

pub scan_int-print_int : (z : ℤ) → InRange z → scan_int (print_int z) ≡ z
scan_int-print_int (pos n) h =
    ap scan_int (print-pos n)
    ∙ (scan_digits (digits_from 20 n) (some_digits 19 n) (digits_from-AreDigits 20 n)
        ∙ (ap (in_int64 false) (decimal_from-digits_from 20 n (omega (arith, h)))
            ∙ rw (lt→ltb n (2 ^ 63) (omega (arith, h))) refl))
scan_int-print_int (negsuc n) h =
    ap scan_int (print-negsuc n)
    ∙ (scan-minus (digits_from 20 (n + 1))
        ∙ (ap (in_int64 true) (decimal_from-digits_from 20 (n + 1) (omega (arith, h)))
            ∙ negative_fits n (omega (arith, h))))
