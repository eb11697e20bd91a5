-- ===== src/Zip/Sfv.antt =====
-- internal/zipscript/local_sfv.go: the lines of SFV files and the checksums that they give for files.
use weave_ftpd.Base.{
  ℕ, zero, suc, ◌+◌, ◌-◌, ◌*◌, ◌^◌, List, [], ◌∷◌, reverse, Bool, false, ◌&&◌, ◌||◌, not,
  if◌then◌else◌, Option, none, some, ltb, leb, ◌==◌, Text, Dict, codes, text_eq, has_prefix,
  trim_prefix, trim_left, trim_right, trim_space, is_space, replace_byte, to_lower, split_byte,
  lookup, insert, length,
}
use weave_ftpd.GoPath.Clean.{base}

-- The mark at the start of a text in UTF-8.
abbrev pub bom : Text
bom = 239 ∷ 187 ∷ 191 ∷ []

-- unicode.IsSpace of one byte.
unfoldable pub is_space_byte : ℕ → Bool
is_space_byte c = (leb 9 c && leb c 13) || (c == 32 || (c == 133 || c == 160))

abbrev pub is_line_end : ℕ → Bool
is_line_end c = c == 13 || c == 10

unfoldable pub take : ℕ → Text → Text
take zero s = []
take (suc n) [] = []
take (suc n) (a ∷ s) = a ∷ take n s

unfoldable pub drop : ℕ → Text → Text
drop zero s = s
drop (suc n) [] = []
drop (suc n) (a ∷ s) = drop n s

-- strconv.ParseUint(s, 16, 32)
unfoldable pub hex_digit : ℕ → Option ℕ
hex_digit c =
    if leb 48 c && leb c 57
    then some (c - 48)
    else if leb 65 c && leb c 70
    then some (c - 55)
    else if leb 97 c && leb c 102
    then some (c - 87)
    else none

abbrev add_digit : ℕ → Option ℕ → Option ℕ
add_digit n none = none
add_digit n (some d) = some (n * 16 + d)

unfoldable pub hex_from : Option ℕ → Text → Option ℕ
unfolding hex_digit
hex_from none s = none
hex_from (some n) [] = some n
hex_from (some n) (c ∷ s) = hex_from (add_digit n (hex_digit c)) s

abbrev within_32 : Option ℕ → Option ℕ
within_32 none = none
within_32 (some n) = if ltb n (2 ^ 32) then some n else none

unfoldable pub parse_hex : Text → Option ℕ
unfolding hex_from
parse_hex s = if text_eq s [] then none else within_32 (hex_from (some 0) s)

unfoldable pub ends_in_space : Text → Bool
unfolding is_space_byte
ends_in_space s = elim (reverse s) [ [] ↦ false | c ∷ rest ↦ is_space_byte c ]

-- `line[:sep]`, and the checksum after it.
unfoldable pub named_entry : Text → Option ℕ → Option (Text × ℕ)
unfolding ends_in_space
named_entry before none = none
named_entry before (some crc) =
    let name = trim_prefix (trim_space (trim_right is_space_byte before)) bom in
    if not (ends_in_space before) then none else if text_eq name [] then none else some (name, crc)

-- `line[:end]`
unfoldable pub trimmed_entry : Text → Option (Text × ℕ)
unfolding take drop parse_hex named_entry
trimmed_entry s =
    if ltb (length s) 8
    then none
    else named_entry (take (length s - 8) s) (parse_hex (drop (length s - 8) s))

unfoldable pub parse_local_sfv_entry_line : Text → Option (Text × ℕ)
unfolding trimmed_entry
parse_local_sfv_entry_line text =
    let line = trim_prefix (trim_right is_line_end text) bom in
    if text_eq (trim_space line) []
    then none
    else if has_prefix (trim_left is_space line) (codes ";")
    then none
    else if ltb (length line) 9
    then none
    else trimmed_entry (trim_right is_space_byte line)

-- raceEntryKey of module.go
unfoldable pub drop_dot_slashes : Text → Text
drop_dot_slashes [] = []
drop_dot_slashes (a ∷ []) = a ∷ []
drop_dot_slashes (a ∷ b ∷ s) =
    let rest = drop_dot_slashes s in if a == b'.' && b == b'/' then rest else a ∷ b ∷ s

unfoldable pub race_entry_key : Text → Text
unfolding drop_dot_slashes
race_entry_key file_name =
    let name = trim_prefix (trim_space (replace_byte b'\\' b'/' file_name)) bom in
    to_lower (trim_prefix (trim_space (base (drop_dot_slashes name))) bom)

abbrev pub add_entry : Option (Text × ℕ) → Dict ℕ → Dict ℕ
add_entry none entries = entries
add_entry (some (name, crc)) entries = insert (race_entry_key name) crc entries

-- The loops of LocalSFVEntriesForDir over the lines of the files that could be read.
unfoldable pub parse_lines : List Text → Dict ℕ → Dict ℕ
unfolding parse_local_sfv_entry_line
parse_lines [] entries = entries
parse_lines (line ∷ lines) entries =
    parse_lines lines (add_entry (parse_local_sfv_entry_line line) entries)

unfoldable pub parse_files : List Text → Dict ℕ → Dict ℕ
unfolding parse_lines
parse_files [] entries = entries
parse_files (text ∷ texts) entries = parse_files texts (parse_lines (split_byte 10 text) entries)

-- No entries at all are nil.
abbrev pub or_nil : Dict ℕ → Option (Dict ℕ)
or_nil [] = none
or_nil (e ∷ entries) = some (e ∷ entries)

unfoldable pub local_sfv_entries_for_dir : List Text → Option (Dict ℕ)
unfolding parse_files
local_sfv_entries_for_dir texts = or_nil (parse_files texts [])

unfoldable pub cached_expected_crc : Option (Dict ℕ) → Text → Option ℕ
unfolding race_entry_key
cached_expected_crc none file_name = none
cached_expected_crc (some entries) file_name = lookup (race_entry_key file_name) entries
