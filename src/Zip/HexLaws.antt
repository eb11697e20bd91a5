-- ===== src/Zip/HexLaws.antt =====
-- Checksums as hexadecimal digits, written and read.
use weave_ftpd.Base.{
  ℕ, zero, suc, ◌+◌, ◌/◌, ◌%◌, ◌^◌, ◌<◌, ◌≡◌, refl, ap, ◌∙◌, [], ◌∷◌, ◌++◌, false, Option, none,
  some, ltb, lt→ltb, if◌then◌else◌, Text, arith, length, length-append, text_eq_of_ne, ◌≢◌, All,
  All-append,
}
use weave_ftpd.Zip.Sfv.{hex_digit, hex_from, parse_hex, is_space_byte}

-- fmt's %X of a digit
unfoldable pub hex_byte : ℕ → ℕ
hex_byte d = if ltb d 10 then d + 48 else d + 55

-- The last `k` digits of `n`: fmt's %08X for eight digits and a uint32.
unfoldable pub hex_digits : ℕ → ℕ → Text
unfolding hex_byte
hex_digits zero n = []
hex_digits (suc k) n = hex_digits k (n / 16) ++ hex_byte (n % 16) ∷ []

hex_digit-hex_byte : (d : ℕ) → d < 16 → hex_digit (hex_byte d) ≡ some d
unfolding hex_digit hex_byte
hex_digit-hex_byte d h = ground arith

pub hex_byte-IsText : (d : ℕ) → d < 16 → is_space_byte (hex_byte d) ≡ false
unfolding is_space_byte hex_byte
hex_byte-IsText d h = ground arith

hex_from-append :
    (s : Text) (o : Option ℕ) (c n : ℕ)
    → hex_from o s ≡ some n
    → hex_from o (s ++ c ∷ []) ≡ hex_from (some n) (c ∷ [])
unfolding hex_from
hex_from-append s none c n h = cc h
hex_from-append [] (some m) c n h = ap (λ x. hex_from x (c ∷ [])) h
hex_from-append (a ∷ s) (some m) c n h = hex_from-append s _ c n h

fewer_digits : (k n : ℕ) → n < 16 ^ suc k → n / 16 < 16 ^ k
fewer_digits k n h = omega (arith, h)

pub hex_from-hex_digits : (k n : ℕ) → n < 16 ^ k → hex_from (some 0) (hex_digits k n) ≡ some n
unfolding hex_from hex_digits
hex_from-hex_digits zero n h = ap some (omega (arith, h))
hex_from-hex_digits (suc k) n h =
    hex_from-append (hex_digits k (n / 16)) (some 0) (hex_byte (n % 16)) (n / 16)
      (hex_from-hex_digits k (n / 16) (fewer_digits k n h))
    ∙ rw (hex_digit-hex_byte (n % 16) (omega arith), hex_from) (ap some (omega arith))

pub length-hex_digits : (k n : ℕ) → length (hex_digits k n) ≡ k
unfolding hex_digits
length-hex_digits zero n = refl
length-hex_digits (suc k) n = omega (
  arith,
  length-append (hex_digits k (n / 16)) (hex_byte (n % 16) ∷ []),
  length-hex_digits k (n / 16),
)

pub hex_digits-All : (k n : ℕ) → All (λ c. is_space_byte c ≡ false) (hex_digits k n)
unfolding hex_digits
hex_digits-All zero n = tt
hex_digits-All (suc k) n =
    All-append (λ c. is_space_byte c ≡ false) (hex_digits k (n / 16)) (hex_byte (n % 16) ∷ [])
      (hex_digits-All k (n / 16)) (hex_byte-IsText (n % 16) (omega arith), tt)

some_digits : (n : ℕ) → hex_digits 8 n ≢ []
some_digits n e = omega (arith, length-hex_digits 8 n, ap length e)

pub parse_hex-hex_digits : (n : ℕ) → n < 2 ^ 32 → parse_hex (hex_digits 8 n) ≡ some n
unfolding parse_hex
parse_hex-hex_digits n h =
    rw
      (
        text_eq_of_ne (hex_digits 8 n) [] (some_digits n),
        hex_from-hex_digits 8 n (omega (arith, h)),
        lt→ltb n (2 ^ 32) h,
      )
      refl
