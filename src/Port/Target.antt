-- ===== src/Port/Target.antt =====
-- internal/core/transfer_port.go: the address and port of a PORT command. An IPv4 address is its four
-- bytes; net.ParseIP takes every four numbers up to 255 that strconv.Itoa has written.
use weave_ftpd.Base.{
  ℕ, ◌+◌, ◌-◌, ◌*◌, ◌/◌, List, [], ◌∷◌, Bool, false, ◌&&◌, ◌||◌, not, Option, none, some,
  if◌then◌else◌, leb, ◌==◌, Text, trim_space, split_byte, length,
}
use weave_ftpd.Base.Int.{ℤ, pos, pos_part, ltb_ℤ, ◌-ℤ◌}
use weave_ftpd.Base.Int64.{max_int64}

-- strconv.Atoi: a sign, then digits, whose value an int64 holds.
unfoldable pub digits : ℕ → Text → Option ℕ
digits n [] = some n
digits n (c ∷ s) = if leb b'0' c && leb c b'9' then digits (n * 10 + (c - b'0')) s else none

unfoldable pub number : Text → Option ℕ
unfolding digits
number [] = none
number (c ∷ s) = digits 0 (c ∷ s)

abbrev up_to : ℕ → Option ℕ → Option ℤ
up_to limit none = none
up_to limit (some n) = if leb n limit then some (pos n) else none

abbrev down_to : ℕ → Option ℕ → Option ℤ
down_to limit none = none
down_to limit (some n) = if leb n limit then some (pos 0 -ℤ pos n) else none

unfoldable pub atoi : Text → Option ℤ
unfolding number
atoi [] = none
atoi (c ∷ s) =
    if c == b'-'
    then down_to (max_int64 + 1) (number s)
    else if c == b'+'
    then up_to max_int64 (number s)
    else up_to max_int64 (number (c ∷ s))

abbrev pub octet_of : Option ℤ → Option ℕ
octet_of none = none
octet_of (some n) = if ltb_ℤ n (pos 0) || ltb_ℤ (pos 255) n then none else some (pos_part n)

-- One element between the commas.
unfoldable pub octet : Text → Option ℕ
unfolding atoi
octet part = octet_of (atoi (trim_space part))

abbrev pub add_octet : Option ℕ → Option (List ℕ) → Option (List ℕ)
add_octet none ns = none
add_octet (some n) none = none
add_octet (some n) (some ns) = some (n ∷ ns)

unfoldable pub octets : List Text → Option (List ℕ)
unfolding octet
octets [] = some []
octets (part ∷ parts) = add_octet (octet part) (octets parts)

unfoldable pub target : List ℕ → Option (List ℕ × ℕ)
target (a ∷ b ∷ c ∷ d ∷ p ∷ q ∷ []) = some (a ∷ b ∷ c ∷ d ∷ [], p * 256 + q)
target ns = none

abbrev pub target_of : Option (List ℕ) → Option (List ℕ × ℕ)
target_of none = none
target_of (some ns) = target ns

unfoldable pub port_parts : Text → List Text
port_parts arg = split_byte b',' (trim_space arg)

unfoldable pub parse_port_target : Text → Option (List ℕ × ℕ)
unfolding port_parts octets target
parse_port_target arg =
    if not (length (port_parts arg) == 6) then none else target_of (octets (port_parts arg))

-- net.IP.IsPrivate of an IPv4 address
unfoldable pub is_private : List ℕ → Bool
is_private (a ∷ b ∷ ip) = a == 10 || ((a == 172 && b / 16 == 1) || (a == 192 && b == 168))
is_private ip = false

-- An address that is nil or has no four bytes is `none`.
unfoldable pub should_reject_port_target : Option (List ℕ) → Option (List ℕ) → Bool
unfolding is_private
should_reject_port_target none data_ip = false
should_reject_port_target (some control) none = false
should_reject_port_target (some control) (some data_ip) =
    is_private data_ip && not (is_private control)
