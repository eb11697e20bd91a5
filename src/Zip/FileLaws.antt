-- ===== src/Zip/FileLaws.antt =====
-- The text of an SFV file and the checksums expected of files.
use weave_ftpd.Base.{
  NoLineEnd, split-line, ℕ, ◌^◌, ◌<◌, ◌≡◌, refl, ap, ◌∙◌, List, [], ◌∷◌, ◌++◌, false, Option, none,
  some, if◌then◌else◌, Text, Dict, arith, All, All-append, text_eq, lookup, insert, lookup-insert,
  split_byte, ◌==◌, trim_space, trim_left, trim_right, trim_prefix, has_prefix,
}
use weave_ftpd.Zip.Sfv.{
  is_space_byte, parse_local_sfv_entry_line, race_entry_key, add_entry, parse_lines, parse_files,
  or_nil, local_sfv_entries_for_dir, cached_expected_crc,
}
use weave_ftpd.Zip.HexLaws.{hex_digits, hex_digits-All}
use weave_ftpd.Zip.SfvLaws.{IsEntryName, sfv_line, parse-sfv_line, All-weaker}

-- An entry that a line can hold: its name has no line end, and its checksum is a uint32.
pub record IsEntry (name : Text) (crc : ℕ) : Type 0 where
  pub good_name : IsEntryName name
  pub one_line : NoLineEnd name
  pub in_range : crc < 2 ^ 32

abbrev pub AreEntries : List (Text × ℕ) → Type 0
AreEntries es = All (λ e. IsEntry e.0 e.1) es

-- A line for each entry.
unfoldable pub sfv_text : List (Text × ℕ) → Text
unfolding sfv_line
sfv_text [] = []
sfv_text ((name, crc) ∷ es) = sfv_line name crc ++ 10 ∷ sfv_text es

-- The checksum of the last entry whose name has this key.
unfoldable pub last_crc : Text → List (Text × ℕ) → Option ℕ → Option ℕ
unfolding race_entry_key
last_crc key [] found = found
last_crc key ((name, crc) ∷ es) found =
    last_crc key es (if text_eq (race_entry_key name) key then some crc else found)

no_line_end : (c : ℕ) → is_space_byte c ≡ false → (c == 10) ≡ false
unfolding is_space_byte
no_line_end c h = ground arith

sfv_line-NoLineEnd : (name : Text) (crc : ℕ) → NoLineEnd name → NoLineEnd (sfv_line name crc)
unfolding sfv_line
sfv_line-NoLineEnd name crc h =
    All-append (λ c. (c == 10) ≡ false) name (32 ∷ hex_digits 8 crc) h
      (
        refl,
        All-weaker (λ c. c == 10) is_space_byte (hex_digits 8 crc) no_line_end
            (hex_digits-All 8 crc),
      )

empty_line : parse_local_sfv_entry_line [] ≡ none
unfolding parse_local_sfv_entry_line trim_space trim_left trim_right trim_prefix has_prefix text_eq
empty_line = refl

parse_lines-last_crc :
    (key : Text) (es : List (Text × ℕ)) (m : Dict ℕ)
    → AreEntries es
    → lookup key (parse_lines (split_byte 10 (sfv_text es)) m) ≡ last_crc key es (lookup key m)
unfolding parse_lines split_byte sfv_text last_crc
parse_lines-last_crc key [] m h = ap (λ o. lookup key (add_entry o m)) empty_line
parse_lines-last_crc key ((name, crc) ∷ es) m (h, hs) =
    let rest = split_byte 10 (sfv_text es) in
    ap (λ ls. lookup key (parse_lines ls m))
      (split-line (sfv_line name crc) (sfv_text es) (sfv_line-NoLineEnd name crc h.one_line))
    ∙ (ap (λ o. lookup key (parse_lines rest (add_entry o m)))
          (parse-sfv_line name crc h.good_name h.in_range)
        ∙ (parse_lines-last_crc key es (insert (race_entry_key name) crc m) hs
            ∙ ap (last_crc key es) (lookup-insert (race_entry_key name) key crc m)))

cached-lookup :
    (m : Dict ℕ) (name : Text)
    → cached_expected_crc (or_nil m) name ≡ lookup (race_entry_key name) m
unfolding cached_expected_crc lookup
cached-lookup [] name = refl
cached-lookup (e ∷ m) name = refl

-- From the text of one SFV file with a line "name checksum" for each entry, the checksum expected of a
-- file is that of the last entry whose name has the same key, and none where there is no such entry.
pub cached_expected_crc-sfv_text :
    (name : Text) (es : List (Text × ℕ))
    → AreEntries es
    → cached_expected_crc (local_sfv_entries_for_dir (sfv_text es ∷ [])) name
      ≡ last_crc (race_entry_key name) es none
unfolding local_sfv_entries_for_dir parse_files lookup
cached_expected_crc-sfv_text name es h =
    cached-lookup (parse_lines (split_byte 10 (sfv_text es)) []) name
    ∙ parse_lines-last_crc (race_entry_key name) es [] h
