-- ===== src/Zip/Examples.antt =====
-- SFV files at concrete texts.
use weave_ftpd.Base.{
  ◌≡◌, refl, [], ◌∷◌, List, ◌++◌, some, none, Text, codes, ℕ, text_ne, text_eq, is_space,
  trim_space, trim_left, trim_right, trim_prefix, has_prefix, arith, equal_fold, to_lower,
}
use weave_ftpd.Zip.Sfv.{
  is_space_byte, parse_local_sfv_entry_line, cached_expected_crc, local_sfv_entries_for_dir,
}
use weave_ftpd.Zip.HexLaws.{hex_digits}
use weave_ftpd.Zip.SfvLaws.{IsEntryName, sfv_line}
use weave_ftpd.Zip.FileLaws.{AreEntries, sfv_text}
use weave_ftpd.Zip.KeyLaws.{IsPlainName, crc_of, cached_expected_crc-crc_of}

abbrev entries : List (Text × ℕ)
entries = (codes "a.rar", 3735928559) ∷ (codes "B.r00", 255) ∷ []

a_IsEntryName : IsEntryName (codes "a.rar")
unfolding text_eq is_space is_space_byte
a_IsEntryName = record {
  not_empty = text_ne (codes "a.rar") [] refl;
  start = refl;
  end = refl;
  no_comment = refl;
  no_mark = refl;
}

b_IsEntryName : IsEntryName (codes "B.r00")
unfolding text_eq is_space is_space_byte
b_IsEntryName = record {
  not_empty = text_ne (codes "B.r00") [] refl;
  start = refl;
  end = refl;
  no_comment = refl;
  no_mark = refl;
}

entries-AreEntries : AreEntries entries
entries-AreEntries = (
  record {
    good_name = a_IsEntryName;
    one_line = (refl, (refl, (refl, (refl, (refl, tt)))));
    in_range = omega arith;
  },
  (
    record {
      good_name = b_IsEntryName;
      one_line = (refl, (refl, (refl, (refl, (refl, tt)))));
      in_range = omega arith;
    },
    tt,
  ),
)

first_line : sfv_line (codes "a.rar") 3735928559 ≡ codes "a.rar DEADBEEF"
unfolding sfv_line hex_digits
first_line = refl

a_IsPlainName : IsPlainName (codes "a.rar")
unfolding is_space text_eq
a_IsPlainName = record {
  not_empty = text_ne (codes "a.rar") [] refl;
  trimmed = (refl, refl);
  no_mark = refl;
  no_slash = (refl, (refl, (refl, (refl, (refl, tt)))));
  no_backslash = (refl, (refl, (refl, (refl, (refl, tt)))));
}

b_IsPlainName : IsPlainName (codes "B.r00")
unfolding is_space text_eq
b_IsPlainName = record {
  not_empty = text_ne (codes "B.r00") [] refl;
  trimmed = (refl, refl);
  no_mark = refl;
  no_slash = (refl, (refl, (refl, (refl, (refl, tt)))));
  no_backslash = (refl, (refl, (refl, (refl, (refl, tt)))));
}

asked_IsPlainName : IsPlainName (codes "b.R00")
unfolding is_space text_eq
asked_IsPlainName = record {
  not_empty = text_ne (codes "b.R00") [] refl;
  trimmed = (refl, refl);
  no_mark = refl;
  no_slash = (refl, (refl, (refl, (refl, (refl, tt)))));
  no_backslash = (refl, (refl, (refl, (refl, (refl, tt)))));
}

cached_expected_crc-crc_of_example :
    cached_expected_crc (local_sfv_entries_for_dir (sfv_text entries ∷ [])) (codes "b.R00")
    ≡ crc_of (codes "b.R00") entries none
cached_expected_crc-crc_of_example =
    cached_expected_crc-crc_of (codes "b.R00") entries asked_IsPlainName entries-AreEntries
      (a_IsPlainName, (b_IsPlainName, tt))

crc_run : crc_of (codes "b.R00") entries none ≡ some 255
unfolding crc_of equal_fold to_lower text_eq
crc_run = refl

-- The name "voila" with an accent on its last letter ends in the bytes 195 and 160.
cut_name :
    parse_local_sfv_entry_line (codes "voil" ++ 195 ∷ 160 ∷ 32 ∷ codes "000000FF")
    ≡ some (codes "voil" ++ 195 ∷ [], 255)
unfolding parse_local_sfv_entry_line is_space_byte is_space trim_space trim_left trim_right
    trim_prefix has_prefix text_eq
cut_name = refl
