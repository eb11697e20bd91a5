-- ===== src/Bans/Decimal.antt =====
-- fmt's %d of an int64, printed and scanned.
use weave_ftpd.Base.{
  ℕ, zero, suc, ◌+◌, ◌-◌, ◌*◌, ◌/◌, ◌%◌, ◌^◌, [], ◌∷◌, ◌++◌, Bool, true, false, ◌&&◌, if◌then◌else◌,
  ltb, leb, ◌==◌, Text,
}
use weave_ftpd.Base.Int.{ℤ, pos, negsuc}

unfoldable pub is_digit : ℕ → Bool
is_digit c = leb 48 c && leb c 57

-- The digits that a number takes, up to twenty.
unfoldable pub digits_from : ℕ → ℕ → Text
digits_from zero n = []
digits_from (suc fuel) n =
    let rest = digits_from fuel (n / 10) in
    if ltb n 10 then (n + 48) ∷ [] else rest ++ (n % 10 + 48) ∷ []

unfoldable pub print_int : ℤ → Text
unfolding digits_from
print_int (pos n) = digits_from 20 n
print_int (negsuc n) = b'-' ∷ digits_from 20 (n + 1)

-- The value of the digits at the start, after this one.
unfoldable pub decimal_from : ℕ → Text → ℕ
unfolding is_digit
decimal_from n [] = n
decimal_from n (c ∷ s) =
    let rest = decimal_from (n * 10 + (c - 48)) s in if is_digit c then rest else n

-- A number outside of int64 leaves the target as it was.
abbrev pub in_int64 : Bool → ℕ → ℤ
in_int64 false n = if ltb n (2 ^ 63) then pos n else pos 0
in_int64 true zero = pos 0
in_int64 true (suc n) = if ltb n (2 ^ 63) then negsuc n else pos 0

unfoldable pub scan_int : Text → ℤ
unfolding decimal_from
scan_int [] = pos 0
scan_int (c ∷ s) =
    if c == b'-'
    then in_int64 true (decimal_from 0 s)
    else if c == b'+'
    then in_int64 false (decimal_from 0 s)
    else in_int64 false (decimal_from 0 (c ∷ s))
