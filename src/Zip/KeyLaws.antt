-- ===== src/Zip/KeyLaws.antt =====
-- The keys of plain names, and the checksums of SFV files by name.
use weave_ftpd.Base.{
  no_prefix, Starts-of_All, All-reverse, ℕ, ◌≡◌, ◌≢◌, refl, ap, ◌∙◌, List, [], ◌∷◌, reverse, false,
  Option, none, some, if◌then◌else◌, Text, text_eq, text_eq_of_ne, to_lower, equal_fold, All,
  Starts, IsTrimmed, trim_space, trim_space_of_IsTrimmed, trim_prefix, replace_byte, ◌==◌, arith,
}
use mathlib.Core.List.{reverse-reverse}
use weave_ftpd.GoPath.Clean.{base, base_of_trimmed, last_part}
use weave_ftpd.Zip.Sfv.{
  bom, drop_dot_slashes, race_entry_key, local_sfv_entries_for_dir, cached_expected_crc,
}
use weave_ftpd.Zip.SfvLaws.{trim_right_of_Starts, trim_prefix_of_false}
use weave_ftpd.Zip.FileLaws.{AreEntries, sfv_text, last_crc, cached_expected_crc-sfv_text}

-- The name of a file in a directory, with no white space at its ends and no mark at its start.
pub record IsPlainName (s : Text) : Type 0 where
  pub not_empty : s ≢ []
  pub trimmed : IsTrimmed s
  pub no_mark : Starts (λ c. c == 239) s
  pub no_slash : All (λ c. (c == b'/') ≡ false) s
  pub no_backslash : All (λ c. (c == b'\\') ≡ false) s

replace_byte_none :
    (old new : ℕ) (s : Text) → All (λ c. (c == old) ≡ false) s → replace_byte old new s ≡ s
unfolding replace_byte
replace_byte_none old new [] h = refl
replace_byte_none old new (a ∷ s) (h, hs) = rw h (ap (λ t. a ∷ t) (replace_byte_none old new s hs))

trim_prefix-bom : (s : Text) → Starts (λ c. c == 239) s → trim_prefix s bom ≡ s
trim_prefix-bom s h = trim_prefix_of_false s bom (no_prefix 239 s (187 ∷ 191 ∷ []) h)

drop_dot_slashes_none : (s : Text) → All (λ c. (c == b'/') ≡ false) s → drop_dot_slashes s ≡ s
unfolding drop_dot_slashes
drop_dot_slashes_none [] h = refl
drop_dot_slashes_none (a ∷ []) h = refl
drop_dot_slashes_none (a ∷ b ∷ s) (h, (k, hs)) = rw k (ground arith)

last_part_none : (s : Text) → All (λ c. (c == b'/') ≡ false) s → last_part s ≡ s
unfolding last_part
last_part_none [] h = refl
last_part_none (a ∷ s) (h, hs) = rw h (ap (λ t. a ∷ t) (last_part_none s hs))

base_of_trimmed_plain :
    (s : Text) → s ≢ [] → All (λ c. (c == b'/') ≡ false) s → base_of_trimmed s ≡ s
unfolding base_of_trimmed
base_of_trimmed_plain [] some_bytes h = absurd (some_bytes refl)
base_of_trimmed_plain (a ∷ s) some_bytes h =
    ap reverse (last_part_none (reverse (a ∷ s)) (All-reverse (λ c. (c == b'/') ≡ false) (a ∷ s) h))
    ∙ reverse-reverse (a ∷ s)

base_of_plain : (s : Text) → s ≢ [] → All (λ c. (c == b'/') ≡ false) s → base s ≡ s
unfolding base
base_of_plain s some_bytes h =
    let slash_free = All-reverse (λ c. (c == b'/') ≡ false) s h in
    rw (text_eq_of_ne s [] some_bytes) (
      ap base_of_trimmed (
        trim_right_of_Starts (λ c. c == b'/') s
          (Starts-of_All (λ c. c == b'/') (reverse s) slash_free))
      ∙ base_of_trimmed_plain s some_bytes h)

-- The key of a plain name is its lower case.
race_entry_key_of_plain : (s : Text) → IsPlainName s → race_entry_key s ≡ to_lower s
unfolding race_entry_key
race_entry_key_of_plain s h =
    let trimmed = trim_space_of_IsTrimmed s h.trimmed in
    let unmarked = trim_prefix-bom s h.no_mark in
    let name =
      ap (λ t. trim_prefix (trim_space t) bom) (replace_byte_none b'\\' b'/' s h.no_backslash)
      ∙ (ap (λ t. trim_prefix t bom) trimmed ∙ unmarked) in
    let last =
      ap (λ t. base (drop_dot_slashes t)) name
      ∙ (ap base (drop_dot_slashes_none s h.no_slash) ∙ base_of_plain s h.not_empty h.no_slash) in
    ap (λ t. to_lower (trim_prefix (trim_space t) bom)) last
    ∙ ap to_lower (ap (λ t. trim_prefix t bom) trimmed ∙ unmarked)

-- The checksum of the last entry that has this name, up to case.
unfoldable pub crc_of : Text → List (Text × ℕ) → Option ℕ → Option ℕ
crc_of name [] found = found
crc_of name ((other, crc) ∷ es) found =
    crc_of name es (if equal_fold other name then some crc else found)

abbrev pub ArePlain : List (Text × ℕ) → Type 0
ArePlain es = All (λ e. IsPlainName e.0) es

last_crc-crc_of :
    (name : Text) (es : List (Text × ℕ)) (found : Option ℕ)
    → IsPlainName name
    → ArePlain es
    → last_crc (race_entry_key name) es found ≡ crc_of name es found
unfolding last_crc crc_of equal_fold
last_crc-crc_of name [] found h hs = refl
last_crc-crc_of name ((other, crc) ∷ es) found h (k, ks) =
    last_crc-crc_of name es _ h ks
    ∙ ap (λ b. crc_of name es (if b then some crc else found))
        (ap (λ t. text_eq (race_entry_key other) t) (race_entry_key_of_plain name h)
          ∙ ap (λ t. text_eq t (to_lower name)) (race_entry_key_of_plain other k))

-- From the text of one SFV file with a line "name checksum" for each entry, where a name has no
-- slashes, no line end, no byte-order mark, no ";" at its start, and no white space and no byte 133 or
-- 160 at its end, and a checksum is a uint32, the checksum expected of such a file name is that of the
-- last entry with that name up to case, and none where there is none.
pub cached_expected_crc-crc_of :
    (name : Text) (es : List (Text × ℕ))
    → IsPlainName name
    → AreEntries es
    → ArePlain es
    → cached_expected_crc (local_sfv_entries_for_dir (sfv_text es ∷ [])) name ≡ crc_of name es none
cached_expected_crc-crc_of name es plain entries names =
    cached_expected_crc-sfv_text name es entries ∙ last_crc-crc_of name es none plain names
